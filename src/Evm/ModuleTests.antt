-- ===== src/Evm/ModuleTests.antt =====
-- The executor module and its digests at concrete inputs.
use recovery_guardian_contra.Prelude.{
  [], Bytes, ◌≡◌, ◌≢◌, ◌≤◌, ◌+◌, ◌⊎◌, arith, refl, some, Option, ap, bytes_eq, contains,
}
use mathlib.Core.Path.{subst}
use recovery_guardian_contra.Prelude.Results.{ok}
use recovery_guardian_contra.Encoding.{concat}
use recovery_guardian_contra.Digest.Collision.{Collision}
use recovery_guardian_contra.Evm.GradualVeto
use recovery_guardian_contra.Evm.GradualVeto.{State}
use recovery_guardian_contra.Evm.TypedData.{Intent, hash_intent}
use recovery_guardian_contra.Evm.TypedData.Binding.{intent_hash_binds}
use recovery_guardian_contra.Evm.RecoveryModule.{
  Storage, Environment, Outcome, on_install, initiate_recovery, pause, abort, execute_recovery,
  write,
}
use recovery_guardian_contra.Evm.RecoveryModule.Calls.{
  Call, installing, initiating, pausing, aborting, executing, run_call, Reach, here, next,
}
use recovery_guardian_contra.Evm.RecoveryModule.Invariant.{IsSound, fresh, reachable-IsSound}
use recovery_guardian_contra.Evm.RecoveryModule.Replay.{closed_intent_stays_closed}
use recovery_guardian_contra.Evm.RecoveryModule.Authority.{IsAuthorised, run_call-IsAuthorised}
use recovery_guardian_contra.Evm.RecoveryModule.Timelock.{takeover_needs_key_and_time}
use recovery_guardian_contra.Evm.Samples.{
  deployment, config, guardian, account, address, intent, block, left_by,
}

abbrev installation : Outcome
installation = run_call deployment (block account 900) (installing guardian config) fresh

abbrev registered : Storage
registered = (left_by installation).0

abbrev opening : Outcome
opening = run_call deployment (block (address 8) 1000) (initiating intent guardian) registered

abbrev opened : Storage
opened = (left_by opening).0

abbrev stopping : Outcome
stopping = run_call deployment (block (address 1) 1010) (pausing account) opened

abbrev stopped : Storage
stopped = (left_by stopping).0

abbrev aborting_opened : Outcome
aborting_opened = run_call deployment (block (address 2) 1020) (aborting account) opened

abbrev takeover : Outcome
takeover = run_call deployment (block (address 8) 1100) (executing intent) opened

installs : installation ≡ ok (left_by installation)
unfolding run_call on_install GradualVeto.validate GradualVeto.validate_recovery_owner bytes_eq
    contains
installs = refl

opens : opening ≡ ok (left_by opening)
unfolding run_call on_install GradualVeto.validate GradualVeto.validate_recovery_owner bytes_eq
    contains initiate_recovery hash_intent write GradualVeto.state_eq
opens = refl

stops : stopping ≡ ok (left_by stopping)
unfolding run_call on_install GradualVeto.validate GradualVeto.validate_recovery_owner bytes_eq
    contains initiate_recovery hash_intent write GradualVeto.state_eq pause GradualVeto.pause
    GradualVeto.start GradualVeto.project
stops = refl

aborts : aborting_opened ≡ ok (left_by aborting_opened)
unfolding run_call on_install GradualVeto.validate GradualVeto.validate_recovery_owner bytes_eq
    contains initiate_recovery hash_intent write GradualVeto.state_eq abort GradualVeto.abort
    GradualVeto.start GradualVeto.project
aborts = refl

takes_over : takeover ≡ ok (left_by takeover)
unfolding run_call on_install GradualVeto.validate GradualVeto.validate_recovery_owner bytes_eq
    contains initiate_recovery hash_intent write GradualVeto.state_eq execute_recovery
    GradualVeto.execute GradualVeto.start GradualVeto.project concat
takes_over = refl

abbrev Early : Environment → Call → Type 0
Early environment call = environment.timestamp ≤ 1100

abbrev option_or : Option Storage → Storage → Storage
option_or (some storage) other = storage
option_or Option.none other = other

calls_nothing :
    (entered left : Storage)
    → ◌≡◌ {A = Option Storage} (some entered) (some left)
    → Reach deployment Early entered left
calls_nothing entered left e =
    subst (Reach deployment Early entered) (ap (λ o. option_or o entered) e) (here entered)

to_registered : Reach deployment Early fresh registered
to_registered =
    next (block account 900) (installing guardian config) (here fresh) (omega arith)
      (λ _ _ _. calls_nothing) installs

to_opened : Reach deployment Early fresh opened
to_opened =
    next (block (address 8) 1000) (initiating intent guardian) to_registered (omega arith)
      (λ _ _ _. calls_nothing) opens

reachable-IsSound_example : IsSound (opened account)
reachable-IsSound_example = reachable-IsSound deployment to_opened account

takeover_needs_key_and_time_example :
    (first : Environment) × (opened_intent : Intent) × (signature : Bytes) × Early first
      (initiating opened_intent signature)
    × (hash_intent deployment opened_intent ≡ hash_intent deployment intent)
    × (some signature ≡ some (opened account).config.recovery_owner)
    × (first.timestamp + (opened account).config.veto.timelock_seconds ≤ 1100)
takeover_needs_key_and_time_example =
    takeover_needs_key_and_time deployment Early (block (address 8) 1100) intent opened
      (left_by takeover).0 (left_by takeover).1 to_opened (λ environment call early. early)
      (omega arith) takes_over

run_call-IsAuthorised_example :
    IsAuthorised deployment (block (address 1) 1010) (pausing account) opened
run_call-IsAuthorised_example =
    run_call-IsAuthorised deployment (block (address 1) 1010) (pausing account) opened
      (left_by stopping).0 (left_by stopping).1 stops

closed_intent_stays_closed_example :
    run_call deployment
      (block (address 8) 1030)
      (initiating intent guardian)
      (left_by aborting_opened).0
    ≢ ok (fresh, [])
closed_intent_stays_closed_example =
    closed_intent_stays_closed deployment Early (block (address 8) 1000) (block (address 2) 1020)
      (block (address 8) 1030) intent guardian guardian (aborting account) registered opened opened
      (left_by aborting_opened).0 (left_by aborting_opened).0 (left_by opening).1
      (left_by aborting_opened).1 (fresh, []) opens (here opened) refl (λ _ _ _. calls_nothing)
      aborts (here (left_by aborting_opened).0)

intent_hash_binds_example :
    ((deployment.chain_id ≡ 1) × (deployment.contract ≡ address 9) × (intent ≡ intent))
    ⊎ Collision deployment.keccak
intent_hash_binds_example =
    intent_hash_binds deployment 1 (address 9) intent intent (omega arith) (omega arith)
      (omega arith) (omega arith) refl
