-- ===== src/Vault/Liveness.antt =====
-- An open attempt of the vault, under calls that neither abort nor execute it.
pub mod Patience
pub mod Execution
use recovery_guardian_contra.Vault.Allowed.Moves.{CanMove}
use recovery_guardian_contra.Veto.Traces.{after_move}
use recovery_guardian_contra.Vault.Granted.{
  transfer_granted, resume_granted, pause_granted, initiate_granted, register_granted,
  apply_granted,
}
use recovery_guardian_contra.Account.RoundTrip.{to_veto-from_veto}
use recovery_guardian_contra.Prelude.Words.{u64_saturating_add, i64_max}
use mathlib.Core.Path.{sym, subst}
use recovery_guardian_contra.Prelude.Results.{ok}
use recovery_guardian_contra.Veto.Accounting.{
  accounted_matures, move-IsAccounted, move-IsValid, IsAccounted,
}
use recovery_guardian_contra.Vault.Handlers.{
  execute_transfer, resume_recovery, pause_recovery, initiate_recovery, register, projected, apply,
  is_idle,
}
use recovery_guardian_contra.Veto.Attempts.{IsValid, IsTimed}
use recovery_guardian_contra.Vault.Steps.{
  transferring, resuming, after_outcome, pausing, run_call, initiating, step, run_calls,
  registering, executing, aborting, Call,
}
use recovery_guardian_contra.Vault.Context.{Deployment, Transaction}
use recovery_guardian_contra.Account.{
  attempt_from_veto, attempt_to_veto, config_to_veto, Vault, VetoConfigAccount,
}
use recovery_guardian_contra.Prelude.{
  refl, inr, inl, ◌≢◌, ◌+◌, sym, ◌≤◌, ◌⊎◌, [], ◌∷◌, arith, true, ℕ, ◌≡◌, Bytes, List,
}
use recovery_guardian_contra.Veto.{
  resume, pause, State, Attempt, is_terminal, Config, state_eq, project,
}
use recovery_guardian_contra.Prelude.Int.{monus, ℤ}
use recovery_guardian_contra.Veto.Transitions.{MayMove, Move, run_move}
use recovery_guardian_contra.Vault.Window.{is_busy}

-- The calls neither abort nor execute, and each clock that they read is within an `i64` of `origin`.
abbrev pub AllPatient : ℤ → List (Transaction × Call) → Type 0
AllPatient origin [] = Unit {0}
AllPatient origin ((t, aborting _) ∷ calls) = ⊥
AllPatient origin ((t, executing _) ∷ calls) = ⊥
AllPatient origin ((t, call) ∷ calls) =
    ((now : ℤ) → t.clock ≡ ok now → monus now origin ≤ i64_max) × AllPatient origin calls

-- An attempt that is open stays open when the clock is read.
pub project_busy :
    (config : Config) (attempt : Attempt) (now : ℤ)
    → is_busy attempt.state ≡ true
    → is_busy (project config attempt now).state ≡ true
unfolding project
project_busy config attempt now busy = ground arith

pub busy_idle : (state : State) → is_busy state ≡ true → is_idle state ≡ true → ⊥
unfolding state_eq is_terminal
busy_idle state busy idle = ground arith

-- The vault has an open attempt on this commitment, whose seconds since `origin` are accounted for.
pub record IsOpen (origin : ℤ) (veto : VetoConfigAccount) (digest : Bytes) (epoch : ℕ)
    (vault : Vault) : Type 0 where
  pub same_veto : vault.veto ≡ veto
  pub committed : vault.intent_digest ≡ digest
  pub same_epoch : vault.epoch ≡ epoch
  pub bound : vault.registered ≡ true
  pub valid : IsValid (config_to_veto veto) (attempt_to_veto vault.attempt)
  pub accounted : IsAccounted (config_to_veto veto) origin (attempt_to_veto vault.attempt)
  pub busy : is_busy (attempt_to_veto vault.attempt).state ≡ true
