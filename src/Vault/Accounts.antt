-- ===== src/Vault/Accounts.antt =====
-- The accounts that each instruction lists, with the constraints that their declarations state, and
-- the accounts that the program owns.
--
-- A declaration says what is checked before the handler runs. `Signer` asks for a signature of the
-- transaction, `mut` for an account that may be written, `address` and `Program` for a key, `seeds`
-- for a derived address, `init` for an address where there is no account yet, and `Account` for one
-- that the program owns.
use recovery_guardian_contra.Prelude.{
  false, ◌++◌, some, if◌then◌else◌, [], true, ◌∷◌, ℕ, bytes_eq, Option, Bool, List, Bytes,
}
use recovery_guardian_contra.Prelude.Results.{◌>>=◌, Result, ok, require, ◌>>◌, ok_or}
use recovery_guardian_contra.Digest.{Hasher}
use recovery_guardian_contra.Cluster.{Cluster}
use recovery_guardian_contra.Account.{Vault}
use recovery_guardian_contra.Vault.Context.{Deployment}
use recovery_guardian_contra.Vault.Errors.{Error, account_constraint}
use recovery_guardian_contra.Vault.Handlers.{sol_seed, vault_seed}

-- An account as a transaction lists it.
pub record AccountInfo : Type 0 where
  pub key : Bytes
  pub is_signer : Bool
  pub is_writable : Bool

-- The program, for all its vaults. `bump_of` is the bump that `find_program_address` finds for
-- seeds, and `derive` gives the address for seeds that end in a bump.
pub record Program : Type 0 where
  pub hasher : Hasher
  pub cluster : Cluster
  pub program_id : Bytes
  pub derive : List Bytes → Bytes
  pub bump_of : List Bytes → ℕ
  pub instructions_sysvar_id : Bytes
  pub system_program_id : Bytes

-- The program as the instruction for one vault sees it.
abbrev pub deployment_of : Program → Bytes → Deployment
deployment_of program vault_key = record {
  hasher = program.hasher;
  cluster = program.cluster;
  program_id = program.program_id;
  vault_key = vault_key;
  derive = program.derive;
}

-- The vault accounts, by their keys.
abbrev pub Ledger : Type 0
Ledger = List (Bytes × Vault)

unfoldable pub account_at : Ledger → Bytes → Option Vault
account_at [] key = Option.none
account_at ((owned, vault) ∷ ledger) key =
    if bytes_eq owned key then some vault else account_at ledger key

-- The first account with the key is the one that is read, so it is the one that is written.
unfoldable pub write_account : Ledger → Bytes → Vault → Ledger
write_account ledger key vault = (key, vault) ∷ ledger

pub record CreateVault : Type 0 where
  pub payer : AccountInfo
  pub creator : AccountInfo
  pub vault : AccountInfo
  pub vault_sol : AccountInfo
  pub system_program : AccountInfo

pub record Register : Type 0 where
  pub vault : AccountInfo
  pub owner : AccountInfo
  pub instructions : AccountInfo

pub record InitiateRecovery : Type 0 where
  pub vault : AccountInfo
  pub instructions : AccountInfo

pub record PauseRecovery : Type 0 where
  pub vault : AccountInfo
  pub pause_authority : AccountInfo

pub record ResumeRecovery : Type 0 where
  pub vault : AccountInfo
  pub instructions : AccountInfo

pub record AbortRecovery : Type 0 where
  pub vault : AccountInfo
  pub abort_authority : AccountInfo

pub record ExecuteRecovery : Type 0 where
  pub vault : AccountInfo

pub record ExecuteTransfer : Type 0 where
  pub vault : AccountInfo
  pub owner : AccountInfo
  pub vault_sol : AccountInfo
  pub destination : AccountInfo
  pub system_program : AccountInfo

pub record ProjectedState : Type 0 where
  pub vault : AccountInfo

abbrev pub constraint : Bool → Result Error (Unit {0})
constraint test = require test account_constraint

-- `Account<'info, Vault>`
abbrev pub load : Ledger → AccountInfo → Result Error Vault
load ledger info = ok_or (account_at ledger info.key) account_constraint

-- `Account<'info, Vault>` under `mut`
abbrev pub load_mut : Ledger → AccountInfo → Result Error Vault
load_mut ledger info = do constraint info.is_writable; load ledger info

-- `init`: there is no account yet.
abbrev pub is_vacant : Option Vault → Bool
is_vacant Option.none = true
is_vacant (some vault) = false

module _ (program : Program) (ledger : Ledger) where
  -- `#[account(address = INSTRUCTIONS_SYSVAR_ID)]`
  abbrev pub is_instructions : AccountInfo → Result Error (Unit {0})
  is_instructions info = constraint (bytes_eq info.key program.instructions_sysvar_id)

  -- `Program<'info, System>`
  abbrev pub is_system : AccountInfo → Result Error (Unit {0})
  is_system info = constraint (bytes_eq info.key program.system_program_id)

  -- The two bumps that the handler finds in its context.
  unfoldable pub create_vault_accounts : CreateVault → Bytes → Result Error (ℕ × ℕ)
  unfolding account_at
  create_vault_accounts accounts vault_id = do
    constraint accounts.payer.is_writable
    constraint accounts.payer.is_signer
    constraint accounts.creator.is_signer
    let seeds = vault_seed ∷ accounts.creator.key ∷ vault_id ∷ []
    let bump = program.bump_of seeds
    constraint (bytes_eq accounts.vault.key (program.derive (seeds ++ ((bump ∷ []) ∷ []))))
    constraint accounts.vault.is_writable
    constraint (is_vacant (account_at ledger accounts.vault.key))
    let sol_seeds = sol_seed ∷ accounts.vault.key ∷ []
    let sol_bump = program.bump_of sol_seeds
    constraint
        (bytes_eq accounts.vault_sol.key (program.derive (sol_seeds ++ ((sol_bump ∷ []) ∷ []))))
    is_system accounts.system_program
    ok (bump, sol_bump)

  unfoldable pub register_accounts : Register → Result Error Vault
  unfolding account_at
  register_accounts accounts = do
    vault ← load_mut ledger accounts.vault
    constraint accounts.owner.is_signer
    is_instructions accounts.instructions
    ok vault

  unfoldable pub initiate_recovery_accounts : InitiateRecovery → Result Error Vault
  unfolding account_at
  initiate_recovery_accounts accounts = do
    vault ← load_mut ledger accounts.vault
    is_instructions accounts.instructions
    ok vault

  unfoldable pub pause_recovery_accounts : PauseRecovery → Result Error Vault
  unfolding account_at
  pause_recovery_accounts accounts = do
    vault ← load_mut ledger accounts.vault
    constraint accounts.pause_authority.is_signer
    ok vault

  unfoldable pub resume_recovery_accounts : ResumeRecovery → Result Error Vault
  unfolding account_at
  resume_recovery_accounts accounts = do
    vault ← load_mut ledger accounts.vault
    is_instructions accounts.instructions
    ok vault

  unfoldable pub abort_recovery_accounts : AbortRecovery → Result Error Vault
  unfolding account_at
  abort_recovery_accounts accounts = do
    vault ← load_mut ledger accounts.vault
    constraint accounts.abort_authority.is_signer
    ok vault

  unfoldable pub execute_recovery_accounts : ExecuteRecovery → Result Error Vault
  unfolding account_at
  execute_recovery_accounts accounts = load_mut ledger accounts.vault

  unfoldable pub execute_transfer_accounts : ExecuteTransfer → Result Error Vault
  unfolding account_at
  execute_transfer_accounts accounts = do
    vault ← load ledger accounts.vault
    constraint accounts.owner.is_signer
    constraint accounts.vault_sol.is_writable
    constraint (
        bytes_eq accounts.vault_sol.key
          (program.derive (sol_seed ∷ accounts.vault.key ∷ (vault.sol_bump ∷ []) ∷ [])))
    constraint accounts.destination.is_writable
    is_system accounts.system_program
    ok vault

  unfoldable pub projected_state_accounts : ProjectedState → Result Error Vault
  unfolding account_at
  projected_state_accounts accounts = load ledger accounts.vault
