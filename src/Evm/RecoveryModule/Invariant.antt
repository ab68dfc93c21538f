-- ===== src/Evm/RecoveryModule/Invariant.antt =====
-- What the storage of the module keeps true of every account.
use recovery_guardian_contra.Evm.RecoveryModule.Slotwise.{SlotStep, Reach-slotwise}
use recovery_guardian_contra.Prelude.{[], List, Bytes, ◌≡◌, true, false, arith, refl, bytes_eq}
use recovery_guardian_contra.Prelude.Results.{ok}
use recovery_guardian_contra.Evm.GradualVeto
use recovery_guardian_contra.Evm.GradualVeto.{
  Address, Config, State, zero_address, validate, validate_recovery_owner,
}
use recovery_guardian_contra.Evm.GradualVeto.Bounds.{
  IsBounded, pause-IsBounded, resume-IsBounded, abort-IsBounded, execute-IsBounded,
}
use recovery_guardian_contra.Evm.TypedData.{Intent, Deployment}
use recovery_guardian_contra.Evm.RecoveryModule.{
  Storage, Slot, Effect, Environment, on_install, on_uninstall, initiate_recovery, pause, resume,
  abort, close_recovery, empty_veto, empty_attempt,
}
use recovery_guardian_contra.Evm.RecoveryModule.Calls.{
  Call, installing, uninstalling, initiating, pausing, aborting, resuming, executing, Reach,
}

-- An account without the module has nothing; one with it has a configuration that `validate` takes,
-- and an attempt within it.
pub data IsSound (slot : Slot) : Type 0 where
  uninstalled :
      slot.config.installed ≡ false
      → slot.config.recovery_owner ≡ zero_address
      → slot.config.veto ≡ empty_veto
      → slot.attempt ≡ empty_attempt
      → IsSound slot
  installed :
      slot.config.installed ≡ true
      → bytes_eq slot.config.recovery_owner zero_address ≡ false
      → validate slot.config.veto ≡ ok tt
      → validate_recovery_owner slot.config.veto slot.config.recovery_owner ≡ ok tt
      → IsBounded slot.config.veto slot.attempt.veto
      → IsSound slot

module _ (deployment : Deployment) (environment : Environment) (before after : Slot)
    (effects : List Effect) (sound : IsSound before) where
  on_install-IsSound :
      (recovery_owner : Address) (config : Config)
      → on_install environment recovery_owner config before ≡ ok (after, effects)
      → IsSound after
  unfolding on_install
  on_install-IsSound recovery_owner config h = elim sound [
    | uninstalled off owner veto empty ↦
        installed (ground arith) (ground arith) (ground arith) (ground arith)
          (ground (arith, empty))
    | installed on owner valid apart bounded ↦ absurd (ground arith)
  ]

  on_uninstall-IsSound : on_uninstall environment before ≡ ok (after, effects) → IsSound after
  unfolding on_uninstall
  on_uninstall-IsSound h = uninstalled (ground arith) (ground arith) (ground arith) (ground arith)

  initiate_recovery-IsSound :
      (intent : Intent) (signature : Bytes)
      → initiate_recovery deployment environment intent signature before ≡ ok (after, effects)
      → IsSound after
  unfolding initiate_recovery GradualVeto.start
  initiate_recovery-IsSound intent signature h = elim sound [
    | uninstalled off owner veto empty ↦ absurd (ground arith)
    | installed on owner valid apart bounded ↦
        installed (ground arith) (ground arith) (ground arith) (ground arith) (ground arith)
  ]

  pause-IsSound :
      (account : Address)
      → pause deployment environment account before ≡ ok (after, effects)
      → IsSound after
  unfolding pause
  pause-IsSound account h = elim sound [
    | uninstalled off owner veto empty ↦ absurd (ground arith)
    | installed on owner valid apart bounded ↦
        installed (ground arith) (ground arith) (ground arith) (ground arith)
          (grind (arith, pause-IsBounded))
  ]

  resume-IsSound :
      (account : Address) (signers : List Address) (signatures : List Bytes)
      → resume deployment environment account signers signatures before ≡ ok (after, effects)
      → IsSound after
  unfolding resume
  resume-IsSound account signers signatures h = elim sound [
    | uninstalled off owner veto empty ↦ absurd (ground arith)
    | installed on owner valid apart bounded ↦
        installed (ground arith) (ground arith) (ground arith) (ground arith)
          (grind (arith, resume-IsBounded))
  ]

  abort-IsSound :
      (account : Address)
      → abort deployment environment account before ≡ ok (after, effects)
      → IsSound after
  unfolding abort
  abort-IsSound account h = elim sound [
    | uninstalled off owner veto empty ↦ absurd (ground arith)
    | installed on owner valid apart bounded ↦
        installed (ground arith) (ground arith) (ground arith) (ground arith)
          (grind (arith, abort-IsBounded))
  ]

  close_recovery-IsSound :
      (intent : Intent)
      → close_recovery deployment environment intent before ≡ ok after
      → IsSound after
  unfolding close_recovery
  close_recovery-IsSound intent h = elim sound [
    | uninstalled off owner veto empty ↦ absurd (ground arith)
    | installed on owner valid apart bounded ↦
        installed (ground arith) (ground arith) (ground arith) (ground arith)
          (grind (arith, execute-IsBounded))
  ]

module _ (deployment : Deployment) where
  pub SlotStep-IsSound :
      (environment : Environment) (call : Call) (before after : Slot)
      → SlotStep deployment environment call before after
      → IsSound before
      → IsSound after
  SlotStep-IsSound environment (installing recovery_owner config) before after (effects, h) sound =
      on_install-IsSound deployment environment before after effects sound recovery_owner config h
  SlotStep-IsSound environment uninstalling before after (effects, h) sound =
      on_uninstall-IsSound deployment environment before after effects sound h
  SlotStep-IsSound environment (initiating intent signature) before after (effects, h) sound =
      initiate_recovery-IsSound deployment environment before after effects sound intent signature h
  SlotStep-IsSound environment (pausing account) before after (effects, h) sound =
      pause-IsSound deployment environment before after effects sound account h
  SlotStep-IsSound environment (resuming account signers signatures) before after (effects, h)
        sound =
      resume-IsSound deployment environment before after effects sound account signers signatures h
  SlotStep-IsSound environment (aborting account) before after (effects, h) sound =
      abort-IsSound deployment environment before after effects sound account h
  SlotStep-IsSound environment (executing intent) before after h sound =
      close_recovery-IsSound deployment environment before after [] sound intent h

-- The storage of a new deployment.
abbrev pub fresh : Storage
fresh account = record {
  config = record {
    installed = false;
    recovery_owner = zero_address;
    epoch = 0;
    nonce = 0;
    attempt_seq = 0;
    veto = empty_veto;
  };
  attempt = empty_attempt;
}

-- From a new deployment, after any calls, every account is sound: without the module it has neither
-- a configuration nor an attempt, and with it a configuration that `validate` and
-- `validateRecoveryOwner` take, a recovery owner that is not zero, and an attempt within its
-- timelock and its pause ceiling.
pub reachable-IsSound :
    (deployment : Deployment) {Made : Environment → Call → Type 0} {storage : Storage}
    → Reach deployment Made fresh storage
    → (account : Address) → IsSound (storage account)
reachable-IsSound deployment {Made} reached account =
    Reach-slotwise deployment Made (λ before after. IsSound before → IsSound after)
      (λ slot sound. sound) (λ a b c first second sound. second (first sound))
      (λ environment call before after made.
        SlotStep-IsSound deployment environment call before after)
      reached account (uninstalled refl refl refl refl)
