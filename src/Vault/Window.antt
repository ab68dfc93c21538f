-- ===== src/Vault/Window.antt =====
-- The account while the timelock of an attempt runs.
use recovery_guardian_contra.Account.RoundTrip.{to_veto-from_veto}
use recovery_guardian_contra.Vault.Granted.{apply_granted}
use recovery_guardian_contra.Vault.Handlers.{apply}
use mathlib.Core.Path.{sym, subst}
use recovery_guardian_contra.Vault.Steps.{registering, Call}
use recovery_guardian_contra.Vault.Context.{Transaction, Deployment}
use recovery_guardian_contra.Account.{
  attempt_from_veto, attempt_to_veto, config_to_veto, Vault, VetoConfigAccount,
}
use recovery_guardian_contra.Prelude.Results.{ok}
use recovery_guardian_contra.Veto.Attempts.{project-IsValid, IsValid, IsTimed}
use recovery_guardian_contra.Prelude.{
  sym, [], ◌∷◌, Bytes, List, ◌≢◌, arith, ◌<◌, ◌≤◌, ◌≡◌, false, true, ℕ, Bool,
}
use recovery_guardian_contra.Prelude.Int.{monus, ◌≤ℤ◌, ℤ}
use recovery_guardian_contra.Veto.{
  Transition, execute, abort, resume, pause, project, Attempt, Config, State,
}

-- An attempt that is neither absent nor over.
abbrev pub is_busy : State → Bool
is_busy State.initiated = true
is_busy State.paused = true
is_busy State.executable = true
is_busy _ = false

-- Since `origin` an open attempt has accrued no more seconds than have passed, which are fewer than
-- `seconds`.
pub record IsEarly (origin : ℤ) (seconds : ℕ) (attempt : Attempt) : Type 0 where
  pub since : is_busy attempt.state ≡ true → origin ≤ℤ attempt.checkpoint_time
  pub slow :
      is_busy attempt.state ≡ true → attempt.accrued_seconds ≤ monus attempt.checkpoint_time origin
  pub early : is_busy attempt.state ≡ true → monus attempt.checkpoint_time origin < seconds

-- The reading of the clock lies in the timelock that began at `origin`.
abbrev pub IsInWindow : ℤ → Config → ℤ → Type 0
IsInWindow origin config now = (origin ≤ℤ now) × (monus now origin < config.timelock_seconds)

module _ (origin : ℤ) (config : Config) (attempt : Attempt) (now : ℤ) where
  module _ (timed : IsTimed config) (valid : IsValid config attempt)
      (window : IsInWindow origin config now)
      (early : IsEarly origin config.timelock_seconds attempt) where
    project-IsEarly : IsEarly origin config.timelock_seconds (project config attempt now)
    unfolding project
    project-IsEarly = ground arith

    pub pause-IsEarly :
        {after : Attempt}
        → pause config attempt now ≡ ok after
        → IsEarly origin config.timelock_seconds after
    unfolding pause
    pause-IsEarly h = ground (arith, project-IsEarly)

    pub resume-IsEarly :
        {after : Attempt}
        → resume config attempt now ≡ ok after
        → IsEarly origin config.timelock_seconds after
    unfolding resume
    resume-IsEarly h = ground (arith, project-IsEarly)

    pub abort-IsEarly :
        {after : Attempt}
        → abort config attempt now ≡ ok after
        → IsEarly origin config.timelock_seconds after
    unfolding abort
    abort-IsEarly h = ground (arith, project-IsEarly)

    pub execute_early : {after : Attempt} → execute config attempt now ≢ ok after
    unfolding execute
    execute_early h =
        ground (arith, project-IsEarly, project-IsValid config attempt now timed valid)

-- The calls bind no new configuration, and every clock that they read lies in the window.
abbrev pub AllInWindow : ℤ → Config → List (Transaction × Call) → Type 0
AllInWindow origin config [] = Unit {0}
AllInWindow origin config ((t, registering _ _ _ _ _) ∷ calls) = ⊥
AllInWindow origin config ((t, call) ∷ calls) =
    ((now : ℤ) → t.clock ≡ ok now → IsInWindow origin config now) × AllInWindow origin config calls

-- The account while the window is open.
pub record IsHeld (origin : ℤ) (veto : VetoConfigAccount) (owner : Bytes) (vault : Vault)
    : Type 0 where
  pub same_veto : vault.veto ≡ veto
  pub same_owner : vault.owner ≡ owner
  pub bound : vault.registered ≡ true
  pub timed : IsTimed (config_to_veto veto)
  pub valid : IsValid (config_to_veto veto) (attempt_to_veto vault.attempt)
  pub early : IsEarly origin (config_to_veto veto).timelock_seconds (attempt_to_veto vault.attempt)

module _ (deployment : Deployment) (origin : ℤ) (veto : VetoConfigAccount) (owner : Bytes) where
  abbrev pub Window : Transaction → Type 0
  Window t = (now : ℤ) → t.clock ≡ ok now → IsInWindow origin (config_to_veto veto) now

  -- The account with another attempt, where that is valid and early.
  pub IsHeld-with :
      (vault : Vault) (attempt : Attempt)
      → IsHeld origin veto owner vault
      → IsValid (config_to_veto veto) attempt
      → IsEarly origin (config_to_veto veto).timelock_seconds attempt
      → IsHeld origin veto owner (record vault { attempt = attempt_from_veto attempt })
  IsHeld-with vault attempt held valid early = record {
    same_veto = held.same_veto;
    same_owner = held.same_owner;
    bound = held.bound;
    timed = held.timed;
    valid = subst (IsValid (config_to_veto veto)) (sym (to_veto-from_veto attempt)) valid;
    early =
        subst (IsEarly origin (config_to_veto veto).timelock_seconds)
          (sym (to_veto-from_veto attempt)) early;
  }

  pub apply-IsHeld :
      (t : Transaction) (vault : Vault) (transition : Transition) {after : Vault}
      → Window t
      → ((now : ℤ) (reached : Attempt)
          → IsInWindow origin (config_to_veto veto) now
          → transition (config_to_veto veto) (attempt_to_veto vault.attempt) now ≡ ok reached
          → IsValid (config_to_veto veto) reached
            × IsEarly origin (config_to_veto veto).timelock_seconds reached)
      → IsHeld origin veto owner vault
      → apply t vault transition ≡ ok after
      → IsHeld origin veto owner after
  apply-IsHeld t vault transition window keeps held h =
      let (now, reached, clocked, _, moved, done) = apply_granted t vault transition h in
      let (valid, early) = keeps now reached (window now clocked) (
        subst (λ v. transition (config_to_veto v) (attempt_to_veto vault.attempt) now ≡ ok reached)
          held.same_veto moved) in
      rw done (IsHeld-with vault reached held valid early)
