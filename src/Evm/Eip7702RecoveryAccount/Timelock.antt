-- ===== src/Evm/Eip7702RecoveryAccount/Timelock.antt =====
-- From a new delegation to an execution: who opened the attempt, and when.
use recovery_guardian_contra.Prelude.{
  ℕ, List, Bytes, ◌≡◌, ◌≤◌, ◌+◌, some, arith, ◌∙◌, bytes_eq_iff, bytes_eq, not, ◌==◌,
}
use recovery_guardian_contra.Prelude.Words.{u64_max}
use recovery_guardian_contra.Prelude.Results.{ok, >>=-eq-ok, require-eq-ok, map_err-eq-ok}
use recovery_guardian_contra.Evm.GradualVeto
use recovery_guardian_contra.Evm.GradualVeto.{
  State, Config, Transition, state_eq, is_terminal, zero_address,
}
use recovery_guardian_contra.Evm.GradualVeto.Matured.{HasMatured, executed_from}
use recovery_guardian_contra.Evm.GradualVeto.Elapsed.{project-HasElapsed}
use recovery_guardian_contra.Evm.DelegatedTypedData.{Intent, Account, hash_intent}
use recovery_guardian_contra.Evm.Eip7702RecoveryAccount.{
  Layout, Effect, Environment, execute_recovery, in_veto, gradual_veto,
}
use recovery_guardian_contra.Evm.Eip7702RecoveryAccount.Calls.{
  Call, initiating, recovering, Reach, run_call,
}
use recovery_guardian_contra.Evm.Eip7702RecoveryAccount.Opened.{
  fresh, IsOpened, idle, opened, reachable-IsOpened,
}

-- The intent is the committed one, and the attempt has matured.
execute_recovery_from :
    (account : Account) (environment : Environment) (intent : Intent) (before after : Layout)
    (effects : List Effect)
    → execute_recovery account environment intent before ≡ ok (after, effects)
    → (hash_intent account intent ≡ before.attempt.intent_hash)
      × HasMatured before.veto before.attempt.veto environment.timestamp
unfolding execute_recovery
execute_recovery_from account environment intent before after effects h =
    let (_, h1) = require-eq-ok before.registered _ _ h in
    let (_, h2) = require-eq-ok (not (state_eq before.attempt.veto.state State.none)) _ _ h1 in
    let (committed, h3) =
      require-eq-ok (bytes_eq (hash_intent account intent) before.attempt.intent_hash) _ _ h2 in
    let (_, h4) = require-eq-ok (intent.epoch == before.epoch) _ _ h3 in
    let (closed, ran, _) =
      >>=-eq-ok
        (in_veto (GradualVeto.execute before.veto before.attempt.veto environment.timestamp)) _
        h4 in
    (
      (bytes_eq_iff _ _).0 committed,
      executed_from before.veto before.attempt.veto environment.timestamp
          (map_err-eq-ok gradual_veto _ ran),
    )

module _ (account : Account) (Made : Environment → Call → Type 0) (until : ℕ)
    (word : until ≤ u64_max)
    (ordered : (environment : Environment) (call : Call)
      → Made environment call
      → environment.timestamp ≤ until) where
  matured_opening :
      (layout : Layout)
      → HasMatured layout.veto layout.attempt.veto until
      → IsOpened account Made until word ordered layout
      → (opening : Environment) × (intent : Intent) × (signature : Bytes) × Made opening
          (initiating intent signature)
        × (layout.attempt.intent_hash ≡ hash_intent account intent)
        × (account.recover (hash_intent account intent) signature ≡ some layout.recovery_owner)
        × (opening.timestamp + layout.veto.timelock_seconds ≤ until)
  unfolding GradualVeto.project state_eq is_terminal
  matured_opening layout (reached, there, executable) (idle e) =
      absurd (ground (arith, there, executable, e))
  matured_opening layout (reached, there, executable) (opened opening intent signature was) =
      let held =
        project-HasElapsed opening.timestamp until layout.veto word until (omega arith)
          layout.attempt.veto was.elapsed there in
      (
        opening,
        intent,
        signature,
        was.made,
        was.committed,
        was.signed,
        ground (arith, held, executable),
      )

-- From a new delegation, let calls of which `Made` holds be made by anybody, none at a later time
-- than the rotation and that one within a `uint64`, registrations among them and the calls back
-- that a batch causes. If `executeRecovery` then succeeds, one of the calls made opened an attempt
-- for an intent with the same hash, the recovery key registered at the rotation had signed that
-- hash, and at least the timelock registered at the rotation has passed between the two.
pub rotation_needs_key_and_time :
    (account : Account) (Made : Environment → Call → Type 0) (executor : Environment)
    (intent : Intent) (layout after : Layout) (effects : List Effect)
    → Reach account Made fresh layout
    → ((environment : Environment) (call : Call)
        → Made environment call
        → environment.timestamp ≤ executor.timestamp)
    → executor.timestamp ≤ u64_max
    → run_call account executor (recovering intent) layout ≡ ok (after, effects)
    → (opening : Environment) × (opened_intent : Intent) × (signature : Bytes) × Made opening
        (initiating opened_intent signature)
      × (hash_intent account intent ≡ hash_intent account opened_intent)
      × (account.recover (hash_intent account opened_intent) signature ≡ some layout.recovery_owner)
      × (opening.timestamp + layout.veto.timelock_seconds ≤ executor.timestamp)
unfolding run_call
rotation_needs_key_and_time account Made executor intent layout after effects reached ordered word
      ran =
    let (committed, matured) =
      execute_recovery_from account executor intent layout after effects ran in
    let (opening, opened_intent, signature, made, same, signed, late) =
      matured_opening account Made executor.timestamp word ordered layout matured
        (reachable-IsOpened account Made executor.timestamp word ordered reached) in
    (opening, opened_intent, signature, made, committed ∙ same, signed, late)
