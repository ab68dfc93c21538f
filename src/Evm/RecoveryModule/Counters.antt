-- ===== src/Evm/RecoveryModule/Counters.antt =====
-- The replay counters of every account.
use recovery_guardian_contra.Prelude.{[], List, Bytes, ◌≡◌, ◌≤◌, arith}
use recovery_guardian_contra.Prelude.Results.{ok}
use recovery_guardian_contra.Evm.GradualVeto.{Address, Config}
use recovery_guardian_contra.Evm.TypedData.{Intent, Deployment}
use recovery_guardian_contra.Evm.RecoveryModule.{
  Storage, Slot, Effect, Environment, on_install, on_uninstall, initiate_recovery, pause, resume,
  abort, close_recovery,
}
use recovery_guardian_contra.Evm.RecoveryModule.Calls.{
  Call, installing, uninstalling, initiating, pausing, aborting, resuming, executing, Reach,
}
use recovery_guardian_contra.Evm.RecoveryModule.Slotwise.{SlotStep, Reach-slotwise}

-- The counters of one account do not go back.
pub record SlotRises (before after : Slot) : Type 0 where
  pub epoch_rises : before.config.epoch ≤ after.config.epoch
  pub nonce_rises : before.config.nonce ≤ after.config.nonce
  pub attempt_seq_rises : before.config.attempt_seq ≤ after.config.attempt_seq

module _ (deployment : Deployment) (environment : Environment) (before after : Slot)
    (effects : List Effect) where
  on_install-SlotRises :
      (recovery_owner : Address) (config : Config)
      → on_install environment recovery_owner config before ≡ ok (after, effects)
      → SlotRises before after
  unfolding on_install
  on_install-SlotRises recovery_owner config h = ground arith

  on_uninstall-SlotRises :
      on_uninstall environment before ≡ ok (after, effects) → SlotRises before after
  unfolding on_uninstall
  on_uninstall-SlotRises h = ground arith

  initiate_recovery-SlotRises :
      (intent : Intent) (signature : Bytes)
      → initiate_recovery deployment environment intent signature before ≡ ok (after, effects)
      → SlotRises before after
  unfolding initiate_recovery
  initiate_recovery-SlotRises intent signature h = ground arith

  pause-SlotRises :
      (account : Address)
      → pause deployment environment account before ≡ ok (after, effects)
      → SlotRises before after
  unfolding pause
  pause-SlotRises account h = ground arith

  resume-SlotRises :
      (account : Address) (signers : List Address) (signatures : List Bytes)
      → resume deployment environment account signers signatures before ≡ ok (after, effects)
      → SlotRises before after
  unfolding resume
  resume-SlotRises account signers signatures h = ground arith

  abort-SlotRises :
      (account : Address)
      → abort deployment environment account before ≡ ok (after, effects)
      → SlotRises before after
  unfolding abort
  abort-SlotRises account h = ground arith

  close_recovery-SlotRises :
      (intent : Intent)
      → close_recovery deployment environment intent before ≡ ok after
      → SlotRises before after
  unfolding close_recovery
  close_recovery-SlotRises intent h = ground arith

SlotRises-same : (slot : Slot) → SlotRises slot slot
SlotRises-same slot = omega arith

SlotRises-join : (a b c : Slot) → SlotRises a b → SlotRises b c → SlotRises a c
SlotRises-join a b c first second = omega arith

module _ (deployment : Deployment) where
  SlotStep-SlotRises :
      (environment : Environment) (call : Call) (before after : Slot)
      → SlotStep deployment environment call before after
      → SlotRises before after
  SlotStep-SlotRises environment (installing recovery_owner config) before after (effects, h) =
      on_install-SlotRises deployment environment before after effects recovery_owner config h
  SlotStep-SlotRises environment uninstalling before after (effects, h) =
      on_uninstall-SlotRises deployment environment before after effects h
  SlotStep-SlotRises environment (initiating intent signature) before after (effects, h) =
      initiate_recovery-SlotRises deployment environment before after effects intent signature h
  SlotStep-SlotRises environment (pausing account) before after (effects, h) =
      pause-SlotRises deployment environment before after effects account h
  SlotStep-SlotRises environment (resuming account signers signatures) before after (effects, h) =
      resume-SlotRises deployment environment before after effects account signers signatures h
  SlotStep-SlotRises environment (aborting account) before after (effects, h) =
      abort-SlotRises deployment environment before after effects account h
  SlotStep-SlotRises environment (executing intent) before after h =
      close_recovery-SlotRises deployment environment before after [] intent h

  -- Along
  pub Reach-CountersRise :
      {Made : Environment → Call → Type 0} {before after : Storage}
      → Reach deployment Made before after
      → (account : Address) → SlotRises (before account) (after account)
  Reach-CountersRise {Made} reached =
      Reach-slotwise deployment Made SlotRises SlotRises-same SlotRises-join
        (λ environment call before after made. SlotStep-SlotRises environment call before after)
        reached
