-- ===== src/Vault/Timelock.antt =====
-- The owner of the vault while the timelock of an attempt runs, under any calls.
mod Held
use recovery_guardian_contra.Vault.Timelock.Held.{start-IsEarly, run_calls-IsHeld}
use recovery_guardian_contra.Vault.Invariant.{IsSound}
use recovery_guardian_contra.Vault.Window.{
  abort-IsEarly, resume-IsEarly, pause-IsEarly, AllInWindow, execute_early, apply-IsHeld,
  IsHeld-with, IsEarly, Window, IsInWindow, IsHeld,
}
use recovery_guardian_contra.Prelude.Words.{u64_saturating_add}
use recovery_guardian_contra.Account.RoundTrip.{to_veto-from_veto}
use recovery_guardian_contra.Vault.Granted.{
  transfer_granted, execute_granted, initiate_granted, abort_granted, resume_granted, pause_granted,
  apply_granted,
}
use recovery_guardian_contra.Vault.Handlers.{
  execute_transfer, execute_recovery, initiate_recovery, abort_recovery, resume_recovery,
  pause_recovery,
}
use mathlib.Core.Path.{sym, subst}
use recovery_guardian_contra.Vault.Steps.{
  after_outcome, transferring, executing, aborting, resuming, pausing, initiating, run_call,
  run_calls, step, registering, Call,
}
use recovery_guardian_contra.Vault.Context.{Intent, Effect, Transaction, Deployment}
use recovery_guardian_contra.Account.{attempt_to_veto, config_to_veto, Vault, VetoConfigAccount}
use recovery_guardian_contra.Prelude.Results.{ok_injective, ok}
use recovery_guardian_contra.Veto.Attempts.{
  abort-IsValid, resume-IsValid, pause-IsValid, start-IsValid, Ensures, IsValid,
}
use recovery_guardian_contra.Prelude.{◌∙◌, refl, sym, [], ◌∷◌, Bytes, List, ◌≢◌, arith, ◌≡◌, ℕ}
use recovery_guardian_contra.Prelude.Int.{ℤ}
use recovery_guardian_contra.Veto.{start, default_attempt, execute, abort, resume, pause}

opened-IsHeld :
    (deployment : Deployment) (origin : ℤ) (opening_t : Transaction) (vault : Vault)
    (intent : Intent) (index : ℕ) {opened : Vault} {effect : Effect}
    → IsSound vault
    → opening_t.clock ≡ ok origin
    → initiate_recovery deployment opening_t intent index vault ≡ ok (opened, effect)
    → IsHeld origin vault.veto vault.owner opened
opened-IsHeld deployment origin opening_t vault intent index {opened} sound clocked opens =
    let (now, clocked', bound, _, _, _, _, _, done) =
      initiate_granted deployment opening_t vault intent index opens in
    let timed = sound.timed bound in
    let held : IsHeld now vault.veto vault.owner opened = rw done (record {
      same_veto = refl;
      same_owner = refl;
      bound = bound;
      timed = timed;
      valid =
          subst (IsValid (config_to_veto vault.veto))
            (sym (to_veto-from_veto (start default_attempt now)))
            (start-IsValid (config_to_veto vault.veto) default_attempt now timed);
      early =
          subst (IsEarly now (config_to_veto vault.veto).timelock_seconds)
            (sym (to_veto-from_veto (start default_attempt now)))
            (start-IsEarly deployment now vault.veto vault.owner now (ground (arith, timed)));
    }) in
    subst (λ o. IsHeld o vault.veto vault.owner opened) (ok_injective (sym clocked' ∙ clocked)) held

-- An attempt was opened on a sound vault at the clock reading `origin`. Whatever calls follow, in
-- any order and by anybody, as long as every clock reading lies in the window of `timelock_seconds`
-- from `origin` and no registration is among the calls, the owner of the vault is still the one it
-- had.
pub no_rotation_before_timelock :
    (deployment : Deployment) (origin : ℤ) (opening_t : Transaction) (vault : Vault)
    (intent : Intent) (index : ℕ) (calls : List (Transaction × Call)) {opened : Vault}
    {effect : Effect}
    → IsSound vault
    → opening_t.clock ≡ ok origin
    → initiate_recovery deployment opening_t intent index vault ≡ ok (opened, effect)
    → AllInWindow origin (config_to_veto vault.veto) calls
    → (run_calls deployment calls opened).owner ≡ vault.owner
no_rotation_before_timelock deployment origin opening_t vault intent index calls {opened} sound
      clocked opens window =
    (run_calls-IsHeld deployment origin vault.veto vault.owner calls opened window
      (opened-IsHeld deployment origin opening_t vault intent index sound clocked opens)).same_owner
