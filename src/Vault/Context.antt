-- ===== src/Vault/Context.antt =====
-- What the vault program is given: its deployment, the runtime of one transaction, its arguments and
-- what it leaves behind.
use recovery_guardian_contra.Verify.{Sysvar}
use recovery_guardian_contra.Account.{Vault}
use recovery_guardian_contra.Prelude.Int.{ℤ}
use recovery_guardian_contra.Vault.Errors.{Error}
use recovery_guardian_contra.Cluster.{Cluster}
use recovery_guardian_contra.Prelude.{List, ℕ, Bytes}
use recovery_guardian_contra.Prelude.Results.{Result}
use recovery_guardian_contra.Digest.{Hasher}

-- Fixed for a deployed program and one vault account. `derive` is the runtime's derivation of a
-- program address from seeds and a bump.
pub record Deployment : Type 0 where
  pub hasher : Hasher
  pub cluster : Cluster
  pub program_id : Bytes
  pub vault_key : Bytes
  pub derive : List Bytes → Bytes

-- What the runtime answers within one transaction: `Clock::get`, the instructions sysvar, and
-- `invoke_signed` of a system transfer, which may fail with a `ProgramError`.
pub record Transaction : Type 0 where
  pub clock : Result ℕ ℤ
  pub sysvar : Sysvar
  pub invoke_transfer : Bytes → Bytes → ℕ → Result ℕ (Unit {0})

pub record Intent : Type 0 where
  pub new_owner : Bytes
  pub new_owner_config : Bytes
  pub epoch : ℕ  -- u64
  pub nonce : ℕ  -- u64
  pub expiry : ℤ  -- i64

-- What an instruction does beside the vault's state: an event, or a transfer of lamports.
pub data Effect : Type 0 where
  vault_created : (vault creator owner : Bytes) → Effect
  recovery_registered : (vault recovery_owner : Bytes) (epoch : ℕ) → Effect
  recovery_key_rotated : (vault previous recovery_owner : Bytes) (config_nonce : ℕ) → Effect
  recovery_initiated : (vault intent_digest : Bytes) (epoch : ℕ) → Effect
  recovery_paused : (vault intent_digest : Bytes) → Effect
  recovery_resumed : (vault intent_digest : Bytes) → Effect
  recovery_aborted : (vault intent_digest : Bytes) → Effect
  recovery_executed : (vault intent_digest new_owner : Bytes) (new_epoch : ℕ) → Effect
  lamports_moved : (source destination : Bytes) (amount : ℕ) → Effect

-- The vault's account after the instruction, and its effect. On an error the transaction is undone.
abbrev pub Outcome : Type 0
Outcome = Result Error (Vault × Effect)
