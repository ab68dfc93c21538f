-- ===== src/Vault/Bounds.antt =====
-- The sizes of the account's fields: the widths of their Rust types and the space that is allocated.
pub mod Calls
use recovery_guardian_contra.Vault.Granted.{apply_granted}
use recovery_guardian_contra.Account.RoundTrip.{to_veto-from_veto}
use recovery_guardian_contra.Vault.Handlers.{apply}
use mathlib.Core.Path.{sym, subst}
use recovery_guardian_contra.Prelude.Results.{ok}
use recovery_guardian_contra.Vault.Confinement.{HasWords}
use recovery_guardian_contra.Prelude.Words.{IsU64, IsByte, u64_max}
use recovery_guardian_contra.Prelude.Int.{IsI64, ℤ}
use recovery_guardian_contra.Vault.Context.{Transaction}
use recovery_guardian_contra.Digest.Inputs.{IsKey}
use recovery_guardian_contra.Prelude.{sym, length, [], ◌∷◌, ◌≡◌, ℕ, arith, All, Bytes, ◌≤◌, List}
use recovery_guardian_contra.Vault.Steps.{executing, registering, Call}
use recovery_guardian_contra.Account.{
  attempt_to_veto, config_to_veto, attempt_from_veto, Vault, VetoConfigAccount,
}
use recovery_guardian_contra.Veto.{max_resume_members, State, ordinal, Config, project, Attempt}
use recovery_guardian_contra.Veto.Transitions.{Move, run_move, run_move-Edge}

-- The seconds are `u64`s and the checkpoint is an `i64`.
pub record FitsAttempt (attempt : Attempt) : Type 0 where
  pub accrued_word : attempt.accrued_seconds ≤ u64_max
  pub paused_word : attempt.paused_seconds ≤ u64_max
  pub checkpoint_word : IsI64 attempt.checkpoint_time

-- The configuration is of its types, with at most the `max_len` of members.
pub record FitsVeto (veto : VetoConfigAccount) : Type 0 where
  pub pause_key : IsKey veto.pause_authority
  pub abort_key : IsKey veto.abort_authority
  pub member_keys : All IsKey veto.resume_members
  pub members_fit : length veto.resume_members ≤ max_resume_members
  pub threshold_byte : IsByte veto.resume_threshold
  pub timelock_word : veto.timelock_seconds ≤ u64_max
  pub ceiling_word : veto.pause_ceiling_seconds ≤ u64_max

-- What the account's address is derived from: a key, the `[u8; 16]` of the id, and two `u8`s.
pub record FitsSeeds (creator vault_id : Bytes) (bump sol_bump : ℕ) : Type 0 where
  pub creator_key : IsKey creator
  pub id_sized : length vault_id ≡ 16
  pub bump_byte : IsByte bump
  pub sol_bump_byte : IsByte sol_bump

pub record FitsAccount (vault : Vault) : Type 0 where
  pub seeds : FitsSeeds vault.creator vault.vault_id vault.bump vault.sol_bump
  pub owner_key : IsKey vault.owner
  pub recovery_key : IsKey vault.recovery_owner
  pub digest_sized : IsKey vault.intent_digest
  pub words : HasWords vault
  pub vetoes : FitsVeto vault.veto
  pub state_byte : vault.attempt.state ≤ 5
  pub clock : FitsAttempt (attempt_to_veto vault.attempt)

-- The arguments of a configuration are of their types; how many members there are is not given.
abbrev pub IsVetoArgument : VetoConfigAccount → Type 0
IsVetoArgument veto =
    IsKey veto.pause_authority
    × IsKey veto.abort_authority
    × All IsKey veto.resume_members
    × IsByte veto.resume_threshold
    × (veto.timelock_seconds ≤ u64_max)
    × (veto.pause_ceiling_seconds ≤ u64_max)

abbrev pub HasArguments : Call → Type 0
HasArguments (registering owner key veto nonce index) = IsKey key × IsVetoArgument veto
HasArguments (executing intent) = IsKey intent.new_owner
HasArguments _ = Unit {0}

-- The clocks read `i64`s and the arguments are of their types.
abbrev pub AllInRange : List (Transaction × Call) → Type 0
AllInRange [] = Unit {0}
AllInRange ((t, call) ∷ calls) =
    ((now : ℤ) → t.clock ≡ ok now → IsI64 now) × HasArguments call × AllInRange calls

project-FitsAttempt :
    (config : Config) (attempt : Attempt) (now : ℤ)
    → config.timelock_seconds ≤ u64_max
    → config.pause_ceiling_seconds ≤ u64_max
    → IsI64 now
    → FitsAttempt attempt
    → FitsAttempt (project config attempt now)
unfolding project
project-FitsAttempt config attempt now timelock ceiling word fits = ground arith

move-FitsAttempt :
    (move : Move) (config : Config) (attempt : Attempt) (now : ℤ) {reached : Attempt}
    → config.timelock_seconds ≤ u64_max
    → config.pause_ceiling_seconds ≤ u64_max
    → IsI64 now
    → FitsAttempt attempt
    → run_move move config attempt now ≡ ok reached
    → FitsAttempt reached
move-FitsAttempt move config attempt now timelock ceiling word fits h =
    let settled = project-FitsAttempt config attempt now timelock ceiling word fits in
    let (_, accrued, paused, checkpoint) = run_move-Edge move config attempt now h in
    record {
      accrued_word = rw accrued settled.accrued_word;
      paused_word = rw paused settled.paused_word;
      checkpoint_word = rw checkpoint settled.checkpoint_word;
    }

ordinal-le : (state : State) → ordinal state ≤ 5
unfolding ordinal
ordinal-le state = ground arith

module _ (vault : Vault) (fits : FitsAccount vault) where
  FitsAccount-with :
      (attempt : Attempt)
      → FitsAttempt attempt
      → FitsAccount (record vault { attempt = attempt_from_veto attempt })
  unfolding attempt_from_veto
  FitsAccount-with attempt clock = record {
    seeds = fits.seeds;
    owner_key = fits.owner_key;
    recovery_key = fits.recovery_key;
    digest_sized = fits.digest_sized;
    words = omega (arith, fits.words);
    vetoes = fits.vetoes;
    state_byte = ordinal-le attempt.state;
    clock = subst FitsAttempt (sym (to_veto-from_veto attempt)) clock;
  }

  -- Another owner and other counters, of their widths.
  pub recount-FitsAccount :
      (owner : Bytes) (epoch nonce attempt_seq : ℕ)
      → IsKey owner
      → IsU64 epoch
      → IsU64 nonce
      → IsU64 attempt_seq
      → FitsAccount
          (record vault { owner = owner; epoch = epoch; nonce = nonce; attempt_seq = attempt_seq })
  recount-FitsAccount owner epoch nonce attempt_seq key e n a = record {
    seeds = fits.seeds;
    owner_key = key;
    recovery_key = fits.recovery_key;
    digest_sized = fits.digest_sized;
    words = omega (arith, fits.words);
    vetoes = fits.vetoes;
    state_byte = fits.state_byte;
    clock = fits.clock;
  }

  pub apply-FitsAccount :
      (t : Transaction) (move : Move) {after : Vault}
      → ((now : ℤ) → t.clock ≡ ok now → IsI64 now)
      → apply t vault (run_move move) ≡ ok after
      → FitsAccount after
  unfolding config_to_veto
  apply-FitsAccount t move words h =
      let (now, reached, clocked, _, moved, done) = apply_granted t vault (run_move move) h in
      rw done (
        FitsAccount-with reached (
          move-FitsAttempt move (config_to_veto vault.veto) (attempt_to_veto vault.attempt) now
            fits.vetoes.timelock_word fits.vetoes.ceiling_word (words now clocked) fits.clock
            moved))
