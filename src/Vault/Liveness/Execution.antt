-- ===== src/Vault/Liveness/Execution.antt =====
-- The execution of an attempt that nobody has stopped.
use recovery_guardian_contra.Vault.Allowed.Exact.{run_call_iff}
use mathlib.Core.Path.{ap, subst}
use recovery_guardian_contra.Account.RoundTrip.{to_veto-from_veto}
use recovery_guardian_contra.Prelude.Words.{i64_max}
use recovery_guardian_contra.Vault.Granted.{execute_granted, initiate_granted}
use recovery_guardian_contra.Vault.Steps.{run_calls, executing, Call, run_call}
use recovery_guardian_contra.Vault.Handlers.{intent_of, initiate_recovery}
use recovery_guardian_contra.Prelude.Results.{ok_injective, ok}
use recovery_guardian_contra.Vault.Invariant.{IsSound}
use recovery_guardian_contra.Prelude.{ap, ◌+◌, ◌∙◌, ◌≤◌, sym, List, refl, true, ◌≡◌, ℕ}
use recovery_guardian_contra.Veto.Accounting.{start-IsAccounted, IsAccounted}
use recovery_guardian_contra.Account.{config_to_veto, Vault}
use recovery_guardian_contra.Veto.Attempts.{start-IsValid, IsValid, IsTimed}
use recovery_guardian_contra.Prelude.Int.{monus, ℤ}
use recovery_guardian_contra.Vault.Context.{Effect, Intent, Transaction, Deployment}
use recovery_guardian_contra.Veto.{default_attempt, Attempt, Config, start}
use recovery_guardian_contra.Vault.Liveness.{IsOpen, AllPatient}
use recovery_guardian_contra.Vault.Liveness.Patience.{run_calls-Opened, Opened-CanMove}
use recovery_guardian_contra.Vault.Window.{is_busy}

start_facts :
    (config : Config) (origin : ℤ) (attempt : Attempt)
    → IsTimed config
    → let started = start attempt origin in
      IsValid config started × IsAccounted config origin started × (is_busy started.state ≡ true)
unfolding start
start_facts config origin attempt timed =
    (start-IsValid config attempt origin timed, start-IsAccounted config origin timed attempt, refl)

module _ (deployment : Deployment) (origin : ℤ) (opening_t : Transaction) (vault : Vault)
    (intent : Intent) (index : ℕ) {opened : Vault} {effect : Effect} (sound : IsSound vault)
    (clocked : opening_t.clock ≡ ok origin)
    (opens : initiate_recovery deployment opening_t intent index vault ≡ ok (opened, effect)) where
  opened-IsOpen :
      IsTimed (config_to_veto vault.veto)
      × IsOpen origin vault.veto (intent_of deployment intent) intent.epoch opened
  opened-IsOpen =
      let (now, clocked', bound, _, epoch, _, _, _, done) =
        initiate_granted deployment opening_t vault intent index opens in
      let config = config_to_veto vault.veto in
      let timed = sound.timed bound in
      let same : now ≡ origin = ok_injective (sym clocked' ∙ clocked) in
      let (valid, accounted, busy) = start_facts config now default_attempt timed in
      let back = sym (to_veto-from_veto (start default_attempt now)) in
      (
        timed,
        subst (λ o. IsOpen o vault.veto (intent_of deployment intent) intent.epoch opened) same
            (rw done (record {
              same_veto = refl;
              committed = refl;
              same_epoch = sym epoch;
              bound = bound;
              valid = subst (IsValid config) back valid;
              accounted = subst (IsAccounted config now) back accounted;
              busy = subst (λ (a : Attempt). is_busy a.state ≡ true) back busy;
            })),
      )

  -- A recovery was opened at `origin` on a sound vault, and then come any calls that neither abort
  -- nor execute, at clocks within an `i64` of `origin`. Once the timelock and the whole pause
  -- budget have passed since `origin`, within an `i64`, executing the intent succeeds and gives the
  -- vault to the new owner.
  pub execution_comes_due :
      (calls : List (Transaction × Call)) (t : Transaction) (now : ℤ)
      → AllPatient origin calls
      → t.clock ≡ ok now
      → monus now origin ≤ i64_max
      → vault.veto.timelock_seconds + vault.veto.pause_ceiling_seconds ≤ monus now origin
      → (after : Vault) × (effect : Effect) × (run_call deployment t
            (executing intent)
            (run_calls deployment calls opened)
          ≡ ok (after, effect))
        × (after.owner ≡ intent.new_owner)
  unfolding run_call config_to_veto
  execution_comes_due calls t now patient reads near late =
      let (timed, held) = opened-IsOpen in
      let digest = intent_of deployment intent in
      let then = run_calls deployment calls opened in
      let held' =
        run_calls-Opened origin vault.veto digest intent.epoch timed deployment calls opened patient
          held in
      let may =
        Opened-CanMove origin vault.veto digest intent.epoch timed t then now held' reads near
          late in
      let ((after, effect'), ran) =
        (run_call_iff deployment t then (executing intent)).1
          (held'.bound, sym held'.committed, sym held'.same_epoch, may) in
      let (_, _, _, _, _, done) = execute_granted deployment t then intent ran in
      (after, effect', ran, ap (λ (v : Vault). v.owner) done)
