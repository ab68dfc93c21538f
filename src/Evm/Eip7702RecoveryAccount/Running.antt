-- ===== src/Evm/Eip7702RecoveryAccount/Running.antt =====
-- When an attempt of a delegated account runs, and what a call that moves it keeps.
use recovery_guardian_contra.Prelude.{
  ℕ, List, Bytes, Bool, ◌≡◌, ◌||◌, arith, false, true, some, bytes_eq_iff,
}
use recovery_guardian_contra.Prelude.Results.{ok}
use recovery_guardian_contra.Evm.GradualVeto
use recovery_guardian_contra.Evm.GradualVeto.{
  Address, State, Config, Transition, is_terminal, state_eq,
}
use recovery_guardian_contra.Evm.DelegatedTypedData.{Intent, RegisterMessage, Account, hash_intent}
use recovery_guardian_contra.Evm.Eip7702RecoveryAccount.{
  Layout, Effect, Environment, register, initiate_recovery, pause, resume, abort, execute_recovery,
  in_flight,
}

-- No attempt was opened, or the last one is over.
abbrev pub is_over : GradualVeto.Attempt → Bool
is_over attempt = state_eq attempt.state State.none || is_terminal attempt.state

module _ (config : Config) (attempt next : GradualVeto.Attempt) (timestamp : ℕ) where
  pub paused_running :
      GradualVeto.pause config attempt timestamp ≡ ok next
      → state_eq attempt.state State.none ≡ false
      → is_over attempt ≡ false
  unfolding GradualVeto.pause GradualVeto.project is_terminal state_eq
  paused_running h some_attempt = ground arith

  pub resumed_running :
      GradualVeto.resume config attempt timestamp ≡ ok next
      → state_eq attempt.state State.none ≡ false
      → is_over attempt ≡ false
  unfolding GradualVeto.resume GradualVeto.project is_terminal state_eq
  resumed_running h some_attempt = ground arith

  pub aborted_running :
      GradualVeto.abort config attempt timestamp ≡ ok next
      → state_eq attempt.state State.none ≡ false
      → is_over attempt ≡ false
  unfolding GradualVeto.abort GradualVeto.project is_terminal state_eq
  aborted_running h some_attempt = ground arith

  pub executed_running :
      GradualVeto.execute config attempt timestamp ≡ ok next
      → state_eq attempt.state State.none ≡ false
      → is_over attempt ≡ false
  unfolding GradualVeto.execute GradualVeto.project is_terminal state_eq
  executed_running h some_attempt = ground arith

pub in_flight_lem :
    (timestamp : ℕ) (layout : Layout)
    → in_flight timestamp layout ≡ ok false
    → is_over layout.attempt.veto ≡ true
unfolding in_flight GradualVeto.project is_terminal state_eq
in_flight_lem timestamp layout h = ground arith

-- The call made this transition of the layout's attempt.
pub record HasMoved (move : Transition) (timestamp : ℕ) (before after : Layout) : Type 0 where
  pub running : is_over before.attempt.veto ≡ false
  pub same_owner : after.recovery_owner ≡ before.recovery_owner
  pub same_veto : after.veto ≡ before.veto
  pub same_intent : after.attempt.intent_hash ≡ before.attempt.intent_hash
  pub moved : move before.veto before.attempt.veto timestamp ≡ ok after.attempt.veto

module _ (account : Account) (environment : Environment) (before after : Layout)
    (effects : List Effect) where
  open environment use {timestamp}

  pub pause-HasMoved :
      pause account environment before ≡ ok (after, effects)
      → HasMoved GradualVeto.pause timestamp before after
  unfolding pause
  pause-HasMoved h = grind (arith, paused_running)

  pub resume-HasMoved :
      (signers : List Address) (signatures : List Bytes)
      → resume account environment signers signatures before ≡ ok (after, effects)
      → HasMoved GradualVeto.resume timestamp before after
  unfolding resume
  resume-HasMoved signers signatures h = grind (arith, resumed_running)

  pub abort-HasMoved :
      abort account environment before ≡ ok (after, effects)
      → HasMoved GradualVeto.abort timestamp before after
  unfolding abort
  abort-HasMoved h = grind (arith, aborted_running)

  pub execute_recovery-HasMoved :
      (intent : Intent)
      → execute_recovery account environment intent before ≡ ok (after, effects)
      → HasMoved GradualVeto.execute timestamp before after
  unfolding execute_recovery
  execute_recovery-HasMoved intent h = grind (arith, executed_running)

  -- The call opened an attempt, with the recovery key's signature.
  pub initiate_recovery_opens :
      (intent : Intent) (signature : Bytes)
      → initiate_recovery account environment intent signature before ≡ ok (after, effects)
      → (account.recover (hash_intent account intent) signature ≡ some after.recovery_owner)
        × (after.attempt.intent_hash ≡ hash_intent account intent)
        × (after.attempt.veto ≡ GradualVeto.start before.attempt.veto timestamp)
  unfolding initiate_recovery
  initiate_recovery_opens intent signature h = grind (arith, bytes_eq_iff)

  -- A registration replaces neither the key nor the configuration under an attempt that runs.
  pub register_idle :
      (message : RegisterMessage) (first second : Bytes)
      → register account environment message first second before ≡ ok (after, effects)
      → is_over after.attempt.veto ≡ true
  unfolding register
  register_idle message first second h = grind (arith, in_flight_lem)
