-- ===== src/Vault/PromiseTests.antt =====
-- What the vault promises, at concrete calls.
use recovery_guardian_contra.Veto.{project, pause}
use recovery_guardian_contra.Vault.Context.{Effect, Transaction}
use recovery_guardian_contra.Vault.Handlers.{apply, pause_recovery}
use recovery_guardian_contra.Vault.Steps.{pausing, executing, Call, step, run_call, run_calls}
use recovery_guardian_contra.Prelude.Results.{ok, IsOk}
use recovery_guardian_contra.Account.{config_to_veto, attempt_from_veto, attempt_to_veto, Vault}
use recovery_guardian_contra.Prelude.Int.{pos}
use recovery_guardian_contra.Prelude.{bytes_eq, ◌∷◌, refl, ◌↔◌, [], ◌≡◌, arith, List}
use recovery_guardian_contra.Vault.Tests.{vault-IsSound}
use recovery_guardian_contra.Samples.{
  key, opening, opens, opened, vault, deployment, intent, at_time,
}
use recovery_guardian_contra.Vault.Liveness.{AllPatient}
use recovery_guardian_contra.Vault.Liveness.Execution.{execution_comes_due}
use recovery_guardian_contra.Vault.Spec.{view, Reach}
use recovery_guardian_contra.Vault.Spec.Refines.{run_calls-Reach}
use recovery_guardian_contra.Vault.Allowed.Enough.{IsAllowed}
use recovery_guardian_contra.Vault.Allowed.Exact.{run_call_iff}

-- A pause that nobody lifts, and a second one that comes too late.
abbrev pauses : List (Transaction × Call)
pauses = (at_time 1010 [], pausing (key 1)) ∷ (at_time 1060 [], pausing (key 1)) ∷ []

pauses-AllPatient : AllPatient (pos 1000) pauses
pauses-AllPatient = ground arith

execution_comes_due_example :
    (after : Vault) × (effect : Effect) × (run_call deployment
        (at_time 1130 [])
        (executing intent)
        (run_calls deployment pauses opened)
      ≡ ok (after, effect))
    × (after.owner ≡ key 10)
execution_comes_due_example =
    execution_comes_due deployment (pos 1000) opening vault intent 0 vault-IsSound refl opens pauses
      (at_time 1130 []) (pos 1130) pauses-AllPatient refl (omega arith) (omega arith)

run_call_iff_example :
    IsOk (run_call deployment (at_time 1100 []) (executing intent) opened)
    ↔ IsAllowed deployment (at_time 1100 []) opened (executing intent)
run_call_iff_example = run_call_iff deployment (at_time 1100 []) opened (executing intent)

run_calls-Reach_example : Reach deployment (view opened) (view (run_calls deployment pauses opened))
run_calls-Reach_example = run_calls-Reach deployment pauses opened

still_first_epoch : (run_calls deployment pauses opened).epoch ≡ 0
unfolding run_calls step run_call pause_recovery apply pause project attempt_to_veto
    attempt_from_veto config_to_veto bytes_eq
still_first_epoch = refl
