-- ===== src/Evm/RecoveryModule/Timelock.antt =====
-- From a new deployment to an execution: who opened the attempt, and when.
use recovery_guardian_contra.Prelude.{ℕ, List, Bytes, ◌≡◌, ◌≤◌, ◌+◌, some, arith, ap, sym, ◌∙◌}
use recovery_guardian_contra.Prelude.Words.{u64_max}
use recovery_guardian_contra.Prelude.Results.{ok}
use recovery_guardian_contra.Evm.GradualVeto
use recovery_guardian_contra.Evm.GradualVeto.{State, Config, Transition, state_eq}
use recovery_guardian_contra.Evm.GradualVeto.Elapsed.{project-HasElapsed}
use recovery_guardian_contra.Evm.TypedData.{Intent, Deployment, hash_intent}
use recovery_guardian_contra.Evm.RecoveryModule.{Storage, Slot, Effect, Environment}
use recovery_guardian_contra.Evm.RecoveryModule.Calls.{Call, initiating, executing, Reach, run_call}
use recovery_guardian_contra.Evm.RecoveryModule.Invariant.{fresh}
use recovery_guardian_contra.Evm.GradualVeto.Matured.{HasMatured}
use recovery_guardian_contra.Evm.RecoveryModule.Authority.{run_call-IsAuthorised}
use recovery_guardian_contra.Evm.RecoveryModule.Opened.{IsOpened, reachable-IsOpened, idle, opened}

module _ (deployment : Deployment) (Made : Environment → Call → Type 0) (until : ℕ)
    (word : until ≤ u64_max)
    (ordered : (environment : Environment) (call : Call)
      → Made environment call
      → environment.timestamp ≤ until) where
  executed_opening :
      (intent : Intent) (slot : Slot)
      → hash_intent deployment intent ≡ slot.attempt.intent_hash
      → HasMatured slot.config.veto slot.attempt.veto until
      → IsOpened deployment Made until word ordered slot
      → (opening : Environment) × (opened_intent : Intent) × (signature : Bytes) × Made opening
          (initiating opened_intent signature)
        × (hash_intent deployment opened_intent ≡ hash_intent deployment intent)
        × (deployment.recover (hash_intent deployment intent) signature
            ≡ some slot.config.recovery_owner)
        × (opening.timestamp + slot.config.veto.timelock_seconds ≤ until)
  unfolding GradualVeto.project state_eq
  executed_opening intent slot committed (reached, there, executable) (idle e) =
      absurd (ground (arith, there, executable, e))
  executed_opening intent slot committed (reached, there, executable)
        (opened opening opened_intent signature was) =
      let same = sym (committed ∙ was.committed) in
      let held =
        project-HasElapsed opening.timestamp until slot.config.veto word until (omega arith)
          slot.attempt.veto was.elapsed there in
      (
        opening,
        opened_intent,
        signature,
        was.made,
        same,
        ap (λ digest. deployment.recover digest signature) (sym same) ∙ was.signed,
        ground (arith, held, executable),
      )

-- From a new deployment, let calls of which `Made` holds be made by anybody, none at a later time
-- than the execution and that one within a `uint64`, and calls that an account makes while it
-- installs a validator among them. If an execution then succeeds, one of the calls made opened an
-- attempt for an intent with the same hash, the account's recovery key had signed that hash, and at
-- least the account's timelock has passed between the two.
pub takeover_needs_key_and_time :
    (deployment : Deployment) (Made : Environment → Call → Type 0) (executor : Environment)
    (intent : Intent) (storage after : Storage) (effects : List Effect)
    → Reach deployment Made fresh storage
    → ((environment : Environment) (call : Call)
        → Made environment call
        → environment.timestamp ≤ executor.timestamp)
    → executor.timestamp ≤ u64_max
    → run_call deployment executor (executing intent) storage ≡ ok (after, effects)
    → (opening : Environment) × (opened_intent : Intent) × (signature : Bytes) × Made opening
        (initiating opened_intent signature)
      × (hash_intent deployment opened_intent ≡ hash_intent deployment intent)
      × (deployment.recover (hash_intent deployment intent) signature
          ≡ some (storage intent.account).config.recovery_owner)
      × (opening.timestamp + (storage intent.account).config.veto.timelock_seconds
          ≤ executor.timestamp)
takeover_needs_key_and_time deployment Made executor intent storage after effects reached ordered
      word ran =
    let (_, committed, _, matured) =
      run_call-IsAuthorised deployment executor (executing intent) storage after effects ran in
    executed_opening deployment Made executor.timestamp word ordered intent (storage intent.account)
      committed matured
      (reachable-IsOpened deployment Made executor.timestamp word ordered reached intent.account)
