-- ===== src/Evm/RecoveryModule/Opening.antt =====
-- What a call that moves an attempt leaves of it: its intent, its key and its configuration.
use recovery_guardian_contra.Prelude.{ℕ, List, Bytes, ◌≡◌, false, arith}
use recovery_guardian_contra.Prelude.Results.{ok}
use recovery_guardian_contra.Evm.GradualVeto
use recovery_guardian_contra.Evm.GradualVeto.{Address, State, Transition}
use recovery_guardian_contra.Evm.TypedData.{Intent, Deployment, hash_intent}
use recovery_guardian_contra.Evm.RecoveryModule.{
  Slot, Effect, Environment, initiate_recovery, pause, resume, abort, close_recovery,
}

-- The call made this transition of the slot's attempt.
pub record HasMoved (move : Transition) (timestamp : ℕ) (before after : Slot) : Type 0 where
  pub running : GradualVeto.state_eq before.attempt.veto.state State.none ≡ false
  pub same_owner : after.config.recovery_owner ≡ before.config.recovery_owner
  pub same_veto : after.config.veto ≡ before.config.veto
  pub same_intent : after.attempt.intent_hash ≡ before.attempt.intent_hash
  pub moved : move before.config.veto before.attempt.veto timestamp ≡ ok after.attempt.veto

module _ (deployment : Deployment) (environment : Environment) (before after : Slot)
    (effects : List Effect) where
  open environment use {timestamp}

  pub pause-HasMoved :
      (account : Address)
      → pause deployment environment account before ≡ ok (after, effects)
      → HasMoved GradualVeto.pause timestamp before after
  unfolding pause
  pause-HasMoved account h = ground arith

  pub resume-HasMoved :
      (account : Address) (signers : List Address) (signatures : List Bytes)
      → resume deployment environment account signers signatures before ≡ ok (after, effects)
      → HasMoved GradualVeto.resume timestamp before after
  unfolding resume
  resume-HasMoved account signers signatures h = ground arith

  pub abort-HasMoved :
      (account : Address)
      → abort deployment environment account before ≡ ok (after, effects)
      → HasMoved GradualVeto.abort timestamp before after
  unfolding abort
  abort-HasMoved account h = ground arith

  pub close_recovery-HasMoved :
      (intent : Intent)
      → close_recovery deployment environment intent before ≡ ok after
      → HasMoved GradualVeto.execute timestamp before after
  unfolding close_recovery
  close_recovery-HasMoved intent h = ground arith

  -- The call opened an attempt.
  pub initiate_recovery_opens :
      (intent : Intent) (signature : Bytes)
      → initiate_recovery deployment environment intent signature before ≡ ok (after, effects)
      → (after.config.recovery_owner ≡ before.config.recovery_owner)
        × (after.attempt.intent_hash ≡ hash_intent deployment intent)
        × (after.attempt.veto ≡ GradualVeto.start before.attempt.veto timestamp)
  unfolding initiate_recovery
  initiate_recovery_opens intent signature h = ground arith
