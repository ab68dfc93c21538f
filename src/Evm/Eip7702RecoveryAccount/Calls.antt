-- ===== src/Evm/Eip7702RecoveryAccount/Calls.antt =====
-- The account's external functions as calls, and sequences of them. While a batch runs, what it calls may
-- call the account again.
use mathlib.Core.Path.{subst}
use recovery_guardian_contra.Prelude.{ℕ, List, [], ◌∷◌, Bytes, ◌≡◌, ◌+◌, ap, ◌∙◌}
use recovery_guardian_contra.Prelude.Results.{
  Result, ok, map_err, map_ok, map_ok-eq-ok, >>=-eq-ok, map_err-eq-ok, ok_injective,
}
use recovery_guardian_contra.Evm.GradualVeto.{Address}
use recovery_guardian_contra.Evm.DelegatedTypedData.{Intent, RegisterMessage, BatchCall, Account}
use recovery_guardian_contra.Evm.Eip7702RecoveryAccount.{
  Layout, Effect, Environment, Outcome, AccountError, register, initiate_recovery, pause, resume,
  abort, execute_recovery, open_batch, run_batch, execute, call_reverted,
}

pub data Call : Type 0 where
  registering :
      (message : RegisterMessage) (recovery_owner_signature owner_signature : Bytes) → Call
  initiating : (intent : Intent) (signature : Bytes) → Call
  pausing aborting : Call
  resuming : (signers : List Address) (signatures : List Bytes) → Call
  recovering : (intent : Intent) → Call
  batching : (calls : List BatchCall) (expiry : ℕ) (signature : Bytes) → Call

-- The data that a batch returns is left aside.
abbrev pub without_answers : Result AccountError (Layout × List Effect × List Bytes) → Outcome
without_answers result = map_ok (λ ran. (ran.0, ran.1)) result

module _ (account : Account) where
  unfoldable pub run_call : Environment → Call → Layout → Outcome
  run_call environment (registering message recovery_owner_signature owner_signature) =
      register account environment message recovery_owner_signature owner_signature
  run_call environment (initiating intent signature) =
      initiate_recovery account environment intent signature
  run_call environment pausing = pause account environment
  run_call environment (resuming signers signatures) = resume account environment signers signatures
  run_call environment aborting = abort account environment
  run_call environment (recovering intent) = execute_recovery account environment intent
  run_call environment (batching calls expiry signature) =
      λ layout. without_answers (execute account environment calls expiry signature layout)

-- What the calls of a batch leave is related to what they found.
abbrev pub Reentering : (Layout → Layout → Type 0) → Environment → Type 0
Reentering Related environment =
    (target : Address) (value : ℕ) (payload : Bytes) (entered left : Layout) (answer : Bytes)
    → environment.call_target target value payload entered ≡ ok (left, answer)
    → Related entered left

-- Any number of calls that succeed, by anybody and at any time, each of which `Made` holds of. What the
-- calls of a batch leave is reached by calls as well.
pub data Reach (account : Account) (Made : Environment → Call → Type 0)
    : Layout → Layout → Type 0 where
  here : (layout : Layout) → Reach account Made layout layout
  next :
      (environment : Environment) (call : Call) {before between after : Layout}
      {effects : List Effect}
      → Reach account Made before between
      → Made environment call
      → ((target : Address) (value : ℕ) (payload : Bytes) (entered left : Layout) (answer : Bytes)
          → environment.call_target target value payload entered ≡ ok (left, answer)
          → Reach account Made entered left)
      → run_call account environment call between ≡ ok (after, effects)
      → Reach account Made before after

-- What a call does to the layout, the calls of a batch aside.
abbrev pub Step : Account → Environment → Call → Layout → Layout → Type 0
Step account environment (batching calls expiry signature) before after =
    open_batch account environment calls expiry signature before ≡ ok after
Step account environment (registering message recovery_owner_signature owner_signature) before
      after =
    (effects : List Effect) × (register account environment message recovery_owner_signature
        owner_signature before
      ≡ ok (after, effects))
Step account environment (initiating intent signature) before after =
    (effects : List Effect) × (initiate_recovery account environment intent signature before
      ≡ ok (after, effects))
Step account environment pausing before after =
    (effects : List Effect) × (pause account environment before ≡ ok (after, effects))
Step account environment (resuming signers signatures) before after =
    (effects : List Effect) × (resume account environment signers signatures before
      ≡ ok (after, effects))
Step account environment aborting before after =
    (effects : List Effect) × (abort account environment before ≡ ok (after, effects))
Step account environment (recovering intent) before after =
    (effects : List Effect) × (execute_recovery account environment intent before
      ≡ ok (after, effects))

-- A preorder on the layout that each step keeps holds along any calls.
module _ (account : Account) (Made : Environment → Call → Type 0)
    (Related : Layout → Layout → Type 0) (same : (layout : Layout) → Related layout layout)
    (joined : (a b c : Layout) → Related a b → Related b c → Related a c)
    (kept : (environment : Environment) (call : Call) (before after : Layout)
      → Made environment call
      → Step account environment call before after
      → Related before after) where
  run_batch-Related :
      (environment : Environment) (calls : List BatchCall) (index : ℕ) (before after : Layout)
      (answers : List Bytes)
      → Reentering Related environment
      → run_batch account environment calls index before ≡ ok (after, answers)
      → Related before after
  unfolding run_batch
  run_batch-Related environment [] index before after answers within h =
      subst (Related before) (ap (λ (r : Layout × List Bytes). r.0) (ok_injective h)) (same before)
  run_batch-Related environment (call ∷ calls) index before after answers within h =
      let (answered, called, h1) = >>=-eq-ok (map_err (call_reverted index) _) _ h in
      let (rest, ran, done) =
        >>=-eq-ok (run_batch account environment calls (index + 1) answered.0) _ h1 in
      joined before answered.0 after
        (within call.target call.value call.payload before answered.0 answered.1
          (map_err-eq-ok (call_reverted index) _ called))
        (subst (Related answered.0) (ap (λ (r : Layout × List Bytes). r.0) (ok_injective done))
          (run_batch-Related environment calls (index + 1) answered.0 rest.0 rest.1 within ran))

  execute-Related :
      (environment : Environment) (calls : List BatchCall) (expiry : ℕ) (signature : Bytes)
      (before after : Layout) (effects : List Effect)
      → Made environment (batching calls expiry signature)
      → Reentering Related environment
      → without_answers (execute account environment calls expiry signature before)
        ≡ ok (after, effects)
      → Related before after
  unfolding execute
  execute-Related environment calls expiry signature before after effects made within h =
      let (result, returned, there) =
        map_ok-eq-ok _ (execute account environment calls expiry signature before) h in
      let (opened, was_open, h1) =
        >>=-eq-ok (open_batch account environment calls expiry signature before) _ returned in
      let (ran, was_run, done) = >>=-eq-ok (run_batch account environment calls 0 opened) _ h1 in
      let reached : ran.0 ≡ after =
        ap (λ (r : Layout × List Effect × List Bytes). r.0) (ok_injective done)
        ∙ ap (λ (r : Layout × List Effect). r.0) there in
      joined before opened after
        (kept environment (batching calls expiry signature) before opened made was_open)
        (subst (Related opened) reached
          (run_batch-Related environment calls 0 opened ran.0 ran.1 within was_run))

  run_call-Related :
      (environment : Environment) (call : Call) (before after : Layout) (effects : List Effect)
      → Made environment call
      → Reentering Related environment
      → run_call account environment call before ≡ ok (after, effects)
      → Related before after
  unfolding run_call
  run_call-Related environment (batching calls expiry signature) before after effects made within
        h =
      execute-Related environment calls expiry signature before after effects made within h
  run_call-Related environment (registering message first second) before after effects made within
        h =
      kept environment (registering message first second) before after made (effects, h)
  run_call-Related environment (initiating intent signature) before after effects made within h =
      kept environment (initiating intent signature) before after made (effects, h)
  run_call-Related environment pausing before after effects made within h =
      kept environment pausing before after made (effects, h)
  run_call-Related environment (resuming signers signatures) before after effects made within h =
      kept environment (resuming signers signatures) before after made (effects, h)
  run_call-Related environment aborting before after effects made within h =
      kept environment aborting before after made (effects, h)
  run_call-Related environment (recovering intent) before after effects made within h =
      kept environment (recovering intent) before after made (effects, h)

  pub Reach-Related :
      {before after : Layout} → Reach account Made before after → Related before after
  Reach-Related (here layout) = same layout
  Reach-Related
        (next environment call {before} {between} {after} {effects} reached made within ran) =
      joined before between after (Reach-Related reached) (
        run_call-Related environment call between after effects made
          (λ target value payload entered left answer called.
            Reach-Related (within target value payload entered left answer called))
          ran)
