-- ===== src/Account.antt =====
-- The vault account and its parts: solana/programs/nihilium-recovery-vault/src/state.rs. A `Pubkey`
-- is its 32 bytes, so `to_bytes` is the identity.
pub mod RoundTrip
pub mod Fingerprint
use recovery_guardian_contra.Encoding.{to_le_bytes}
use recovery_guardian_contra.Prelude.Int.{ℤ}
use recovery_guardian_contra.Digest.{Hasher}
use recovery_guardian_contra.Veto.{Attempt, State, ordinal, from_ordinal, Config}
use recovery_guardian_contra.Prelude.{
  [], ◌++◌, ◌^◌, ◌%◌, length, some, Bool, ◌∷◌, Option, ℕ, List, Bytes,
}

pub record VetoConfigAccount : Type 0 where
  pub pause_authority : Bytes
  pub abort_authority : Bytes
  pub resume_members : List Bytes
  pub resume_threshold : ℕ  -- u8
  pub timelock_seconds : ℕ  -- u64
  pub pause_ceiling_seconds : ℕ  -- u64

-- `VetoConfigAccount::to_veto`
unfoldable pub config_to_veto : VetoConfigAccount → Config
config_to_veto account = record {
  pause_authority = account.pause_authority;
  abort_authority = account.abort_authority;
  resume_members = account.resume_members;
  resume_threshold = account.resume_threshold;
  timelock_seconds = account.timelock_seconds;
  pause_ceiling_seconds = account.pause_ceiling_seconds;
}

-- The parts that `VetoConfigAccount::fingerprint` hashes.
pub fingerprint_parts : VetoConfigAccount → List Bytes
fingerprint_parts account =
    account.pause_authority
    ∷ account.abort_authority
    ∷ to_le_bytes 4 (length account.resume_members % 2 ^ 32)
    ∷ (account.resume_members
        ++ ((account.resume_threshold ∷ [])
            ∷ to_le_bytes 8 account.timelock_seconds
            ∷ to_le_bytes 8 account.pause_ceiling_seconds
            ∷ []))

unfoldable pub fingerprint : Hasher → VetoConfigAccount → Bytes
unfolding fingerprint_parts
fingerprint hasher account = hasher.hashv (fingerprint_parts account)

pub record AttemptAccount : Type 0 where
  pub state : ℕ  -- u8
  pub accrued_seconds : ℕ  -- u64
  pub paused_seconds : ℕ  -- u64
  pub checkpoint_time : ℤ  -- i64

-- `unwrap_or`
abbrev pub state_or : Option State → State → State
state_or Option.none fallback = fallback
state_or (some state) fallback = state

-- `AttemptAccount::to_veto`
unfoldable pub attempt_to_veto : AttemptAccount → Attempt
unfolding from_ordinal
attempt_to_veto account = record {
  state = state_or (from_ordinal account.state) State.none;
  accrued_seconds = account.accrued_seconds;
  paused_seconds = account.paused_seconds;
  checkpoint_time = account.checkpoint_time;
}

-- `AttemptAccount::from_veto`
unfoldable pub attempt_from_veto : Attempt → AttemptAccount
unfolding ordinal
attempt_from_veto attempt = record {
  state = ordinal attempt.state;
  accrued_seconds = attempt.accrued_seconds;
  paused_seconds = attempt.paused_seconds;
  checkpoint_time = attempt.checkpoint_time;
}

pub record Vault : Type 0 where
  pub creator : Bytes
  pub vault_id : Bytes  -- 16 bytes
  pub owner : Bytes
  pub recovery_owner : Bytes
  pub epoch : ℕ  -- u64
  pub nonce : ℕ  -- u64
  pub attempt_seq : ℕ  -- u64
  pub config_nonce : ℕ  -- u64
  pub veto : VetoConfigAccount
  pub attempt : AttemptAccount
  pub intent_digest : Bytes
  pub registered : Bool
  pub bump : ℕ  -- u8
  pub sol_bump : ℕ  -- u8
