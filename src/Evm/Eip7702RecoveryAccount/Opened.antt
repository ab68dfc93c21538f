-- ===== src/Evm/Eip7702RecoveryAccount/Opened.antt =====
-- Every attempt that runs was opened by a call, with the signature of the recovery key.
use recovery_guardian_contra.Prelude.{
  ℕ, [], List, Bytes, ◌≡◌, ◌≤◌, some, arith, true, false, ap, sym, refl, ◌∙◌, replicate,
}
use recovery_guardian_contra.Prelude.Words.{u64_max}
use recovery_guardian_contra.Prelude.Results.{ok}
use recovery_guardian_contra.Evm.GradualVeto
use recovery_guardian_contra.Evm.GradualVeto.{
  State, Config, Transition, state_eq, is_terminal, zero_address,
}
use recovery_guardian_contra.Evm.GradualVeto.Elapsed.{
  HasElapsed, start-HasElapsed, pause-HasElapsed, resume-HasElapsed, abort-HasElapsed,
  execute-HasElapsed,
}
use recovery_guardian_contra.Evm.DelegatedTypedData.{Intent, Account, BatchCall, hash_intent}
use recovery_guardian_contra.Evm.Eip7702RecoveryAccount.{Layout, Effect, Environment, open_batch}
use recovery_guardian_contra.Evm.Eip7702RecoveryAccount.Calls.{
  Call, registering, initiating, pausing, aborting, resuming, recovering, batching, Step, Reach,
  Reach-Related,
}
use recovery_guardian_contra.Evm.Eip7702RecoveryAccount.Running.{
  is_over, HasMoved, pause-HasMoved, resume-HasMoved, abort-HasMoved, execute_recovery-HasMoved,
  initiate_recovery_opens, register_idle,
}
use recovery_guardian_contra.Evm.RecoveryModule.{empty_veto}

-- The layout of an account that has just delegated.
abbrev pub fresh : Layout
fresh = record {
  registered = false;
  owner = zero_address;
  recovery_owner = zero_address;
  epoch = 0;
  nonce = 0;
  config_nonce = 0;
  exec_nonce = 0;
  veto = empty_veto;
  attempt = record {
    intent_hash = replicate 32 0;
    attempt_seq = 0;
    veto = record {
      state = State.none;
      accrued_seconds = 0;
      paused_seconds = 0;
      checkpoint_time = 0;
    };
  };
}

module _ (account : Account) (Made : Environment → Call → Type 0) (until : ℕ)
    (word : until ≤ u64_max)
    (ordered : (environment : Environment) (call : Call)
      → Made environment call
      → environment.timestamp ≤ until) where
  -- A call opened the attempt, for the intent that it commits to and with the key's signature.
  pub record IsOpening (layout : Layout) (opening : Environment) (intent : Intent)
      (signature : Bytes) : Type 0 where
    pub made : Made opening (initiating intent signature)
    pub committed : layout.attempt.intent_hash ≡ hash_intent account intent
    pub signed : account.recover (hash_intent account intent) signature ≡ some layout.recovery_owner
    pub elapsed : HasElapsed opening.timestamp until layout.veto layout.attempt.veto

  pub data IsOpened (layout : Layout) : Type 0 where
    idle : is_over layout.attempt.veto ≡ true → IsOpened layout
    opened :
        (opening : Environment) (intent : Intent) (signature : Bytes)
        → IsOpening layout opening intent signature
        → IsOpened layout

  -- A transition of a running attempt keeps its opening.
  moved-IsOpened :
      (move : Transition) (timestamp : ℕ) (before after : Layout)
      → ((since : ℕ) (config : Config) (attempt next : GradualVeto.Attempt)
          → HasElapsed since until config attempt
          → move config attempt timestamp ≡ ok next
          → HasElapsed since until config next)
      → HasMoved move timestamp before after
      → IsOpened before
      → IsOpened after
  moved-IsOpened move timestamp before after keeps moved (idle e) = absurd (cc (moved.running, e))
  moved-IsOpened move timestamp before after keeps moved (opened opening intent signature was) =
      opened opening intent signature (record {
        made = was.made;
        committed = moved.same_intent ∙ was.committed;
        signed = was.signed ∙ ap (λ key. some key) (sym moved.same_owner);
        elapsed = rw moved.same_veto (
            keeps opening.timestamp before.veto before.attempt.veto after.attempt.veto was.elapsed
              moved.moved);
      })

  initiate-IsOpened :
      (environment : Environment) (intent : Intent) (signature : Bytes) (before after : Layout)
      (effects : List Effect)
      → Made environment (initiating intent signature)
      → Step account environment (initiating intent signature) before after
      → IsOpened after
  initiate-IsOpened environment intent signature before after effects made (effects', h) =
      let (signed, committed, started) =
        initiate_recovery_opens account environment before after effects' intent signature h in
      opened environment intent signature (record {
        made = made;
        committed = committed;
        signed = signed;
        elapsed = rw started (
            start-HasElapsed environment.timestamp until after.veto word environment.timestamp
              (ordered environment _ made) before.attempt.veto refl);
      })

  batch_keeps :
      (environment : Environment) (calls : List BatchCall) (expiry : ℕ) (signature : Bytes)
      (before after : Layout)
      → open_batch account environment calls expiry signature before ≡ ok after
      → (after.attempt ≡ before.attempt)
        × (after.recovery_owner ≡ before.recovery_owner)
        × (after.veto ≡ before.veto)
        × (after.owner ≡ before.owner)
  unfolding open_batch
  batch_keeps environment calls expiry signature before after h = ground arith

  batch-IsOpened :
      (environment : Environment) (calls : List BatchCall) (expiry : ℕ) (signature : Bytes)
      (before after : Layout)
      → open_batch account environment calls expiry signature before ≡ ok after
      → IsOpened before
      → IsOpened after
  batch-IsOpened environment calls expiry signature before after h (idle e) =
      let (same_attempt, _, _, _) = batch_keeps environment calls expiry signature before after h in
      idle (rw same_attempt e)
  batch-IsOpened environment calls expiry signature before after h
        (opened opening intent endorsed was) =
      let (same_attempt, same_key, same_veto, _) =
        batch_keeps environment calls expiry signature before after h in
      opened opening intent endorsed (record {
        made = was.made;
        committed = rw same_attempt was.committed;
        signed = rw same_key was.signed;
        elapsed = rw (same_veto, same_attempt) was.elapsed;
      })

  Step-IsOpened :
      (environment : Environment) (call : Call) (before after : Layout)
      → Made environment call
      → Step account environment call before after
      → IsOpened before
      → IsOpened after
  Step-IsOpened environment (batching calls expiry signature) before after made h was =
      batch-IsOpened environment calls expiry signature before after h was
  Step-IsOpened environment (registering message first second) before after made (effects, h) was =
      idle (register_idle account environment before after effects message first second h)
  Step-IsOpened environment (initiating intent signature) before after made step was =
      initiate-IsOpened environment intent signature before after [] made step
  Step-IsOpened environment pausing before after made (effects, h) was =
      moved-IsOpened GradualVeto.pause environment.timestamp before after
        (λ since config attempt next.
          pause-HasElapsed since until config word environment.timestamp
            (ordered environment _ made) attempt)
        (pause-HasMoved account environment before after effects h) was
  Step-IsOpened environment (resuming signers signatures) before after made (effects, h) was =
      moved-IsOpened GradualVeto.resume environment.timestamp before after
        (λ since config attempt next.
          resume-HasElapsed since until config word environment.timestamp
            (ordered environment _ made) attempt)
        (resume-HasMoved account environment before after effects signers signatures h) was
  Step-IsOpened environment aborting before after made (effects, h) was =
      moved-IsOpened GradualVeto.abort environment.timestamp before after
        (λ since config attempt next.
          abort-HasElapsed since until config word environment.timestamp
            (ordered environment _ made) attempt)
        (abort-HasMoved account environment before after effects h) was
  Step-IsOpened environment (recovering intent) before after made (effects, h) was =
      moved-IsOpened GradualVeto.execute environment.timestamp before after
        (λ since config attempt next.
          execute-HasElapsed since until config word environment.timestamp
            (ordered environment _ made) attempt)
        (execute_recovery-HasMoved account environment before after effects intent h) was

  pub reachable-IsOpened : {layout : Layout} → Reach account Made fresh layout → IsOpened layout
  unfolding state_eq
  reachable-IsOpened reached =
      Reach-Related account Made (λ before after. IsOpened before → IsOpened after)
        (λ layout was. was) (λ a b c first second was. second (first was)) Step-IsOpened reached
        (idle refl)
