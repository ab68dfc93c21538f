-- ===== src/Evm/RecoveryModule/Opened.antt =====
-- Every attempt that runs was opened by a call, with the signature of the account's key.
use recovery_guardian_contra.Prelude.{[], ℕ, List, Bytes, ◌≡◌, ◌≤◌, some, arith, ap, sym, refl, ◌∙◌}
use recovery_guardian_contra.Prelude.Words.{u64_max}
use recovery_guardian_contra.Prelude.Results.{ok}
use recovery_guardian_contra.Evm.GradualVeto
use recovery_guardian_contra.Evm.GradualVeto.{State, Config, Transition, state_eq}
use recovery_guardian_contra.Evm.GradualVeto.Elapsed.{
  HasElapsed, start-HasElapsed, pause-HasElapsed, resume-HasElapsed, abort-HasElapsed,
  execute-HasElapsed,
}
use recovery_guardian_contra.Evm.TypedData.{Intent, Deployment, hash_intent}
use recovery_guardian_contra.Evm.RecoveryModule.{
  Storage, Slot, Effect, Environment, initiate_recovery, on_install, on_uninstall,
}
use recovery_guardian_contra.Evm.RecoveryModule.Calls.{
  Call, installing, uninstalling, initiating, pausing, aborting, resuming, executing, Reach,
}
use recovery_guardian_contra.Evm.RecoveryModule.Slotwise.{SlotStep, Reach-slotwise}
use recovery_guardian_contra.Evm.RecoveryModule.Invariant.{
  IsSound, uninstalled, installed, SlotStep-IsSound, fresh,
}
use recovery_guardian_contra.Evm.RecoveryModule.Authority.{initiate_authorised}
use recovery_guardian_contra.Evm.RecoveryModule.Opening.{
  HasMoved, pause-HasMoved, resume-HasMoved, abort-HasMoved, close_recovery-HasMoved,
  initiate_recovery_opens,
}

module _ (deployment : Deployment) (Made : Environment → Call → Type 0) (until : ℕ)
    (word : until ≤ u64_max)
    (ordered : (environment : Environment) (call : Call)
      → Made environment call
      → environment.timestamp ≤ until) where
  -- A call opened the attempt, for the intent that it commits to and with the key's signature.
  pub record IsOpening (slot : Slot) (opening : Environment) (intent : Intent) (signature : Bytes)
      : Type 0 where
    pub made : Made opening (initiating intent signature)
    pub committed : slot.attempt.intent_hash ≡ hash_intent deployment intent
    pub signed :
        deployment.recover (hash_intent deployment intent) signature
        ≡ some slot.config.recovery_owner
    pub elapsed : HasElapsed opening.timestamp until slot.config.veto slot.attempt.veto

  pub data IsOpened (slot : Slot) : Type 0 where
    idle : slot.attempt.veto.state ≡ State.none → IsOpened slot
    opened :
        (opening : Environment) (intent : Intent) (signature : Bytes)
        → IsOpening slot opening intent signature
        → IsOpened slot

  -- A transition of a running attempt keeps its opening.
  moved-IsOpened :
      (move : Transition) (timestamp : ℕ) (before after : Slot)
      → ((since : ℕ) (config : Config) (attempt next : GradualVeto.Attempt)
          → HasElapsed since until config attempt
          → move config attempt timestamp ≡ ok next
          → HasElapsed since until config next)
      → HasMoved move timestamp before after
      → IsOpened before
      → IsOpened after
  unfolding state_eq
  moved-IsOpened move timestamp before after keeps moved (idle e) =
      absurd (ground (arith, moved, e))
  moved-IsOpened move timestamp before after keeps moved (opened opening intent signature was) =
      opened opening intent signature (record {
        made = was.made;
        committed = moved.same_intent ∙ was.committed;
        signed = was.signed ∙ ap (λ key. some key) (sym moved.same_owner);
        elapsed = rw moved.same_veto (
            keeps opening.timestamp before.config.veto before.attempt.veto after.attempt.veto
              was.elapsed moved.moved);
      })

  install-IsOpened :
      (environment : Environment) (recovery_owner : Bytes) (config : Config) (before after : Slot)
      (effects : List Effect)
      → IsSound before
      → on_install environment recovery_owner config before ≡ ok (after, effects)
      → IsOpened after
  unfolding on_install
  install-IsOpened environment recovery_owner config before after effects
        (uninstalled off _ _ empty) h =
      idle (ground (arith, empty, h))
  install-IsOpened environment recovery_owner config before after effects (installed on _ _ _ _) h =
      absurd (ground (arith, on, h))

  uninstall-IsOpened :
      (environment : Environment) (before after : Slot) (effects : List Effect)
      → on_uninstall environment before ≡ ok (after, effects)
      → IsOpened after
  unfolding on_uninstall
  uninstall-IsOpened environment before after effects h = idle (ground arith)

  initiate-IsOpened :
      (environment : Environment) (intent : Intent) (signature : Bytes) (before after : Slot)
      (effects : List Effect)
      → Made environment (initiating intent signature)
      → initiate_recovery deployment environment intent signature before ≡ ok (after, effects)
      → IsOpened after
  initiate-IsOpened environment intent signature before after effects made h =
      let (same_owner, committed, started) =
        initiate_recovery_opens deployment environment before after effects intent signature h in
      let (_, signed, _, _, _) =
        initiate_authorised deployment environment intent signature before after effects h in
      opened environment intent signature (record {
        made = made;
        committed = committed;
        signed = signed ∙ ap (λ key. some key) (sym same_owner);
        elapsed = rw started (
            start-HasElapsed environment.timestamp until after.config.veto word
              environment.timestamp (ordered environment _ made) before.attempt.veto refl);
      })

  SlotStep-IsOpened :
      (environment : Environment) (call : Call) (before after : Slot)
      → Made environment call
      → SlotStep deployment environment call before after
      → IsSound before
      → IsOpened before
      → IsOpened after
  SlotStep-IsOpened environment (installing recovery_owner config) before after made (effects, h)
        sound was =
      install-IsOpened environment recovery_owner config before after effects sound h
  SlotStep-IsOpened environment uninstalling before after made (effects, h) sound was =
      uninstall-IsOpened environment before after effects h
  SlotStep-IsOpened environment (initiating intent signature) before after made (effects, h) sound
        was =
      initiate-IsOpened environment intent signature before after effects made h
  SlotStep-IsOpened environment (pausing account) before after made (effects, h) sound was =
      moved-IsOpened GradualVeto.pause environment.timestamp before after
        (λ since config attempt next.
          pause-HasElapsed since until config word environment.timestamp
            (ordered environment _ made) attempt)
        (pause-HasMoved deployment environment before after effects account h) was
  SlotStep-IsOpened environment (resuming account signers signatures) before after made (effects, h)
        sound was =
      moved-IsOpened GradualVeto.resume environment.timestamp before after
        (λ since config attempt next.
          resume-HasElapsed since until config word environment.timestamp
            (ordered environment _ made) attempt)
        (resume-HasMoved deployment environment before after effects account signers signatures h)
        was
  SlotStep-IsOpened environment (aborting account) before after made (effects, h) sound was =
      moved-IsOpened GradualVeto.abort environment.timestamp before after
        (λ since config attempt next.
          abort-HasElapsed since until config word environment.timestamp
            (ordered environment _ made) attempt)
        (abort-HasMoved deployment environment before after effects account h) was
  SlotStep-IsOpened environment (executing intent) before after made h sound was =
      moved-IsOpened GradualVeto.execute environment.timestamp before after
        (λ since config attempt next.
          execute-HasElapsed since until config word environment.timestamp
            (ordered environment _ made) attempt)
        (close_recovery-HasMoved deployment environment before after [] intent h) was

  pub reachable-IsOpened :
      {storage : Storage}
      → Reach deployment Made fresh storage
      → (account : Bytes) → IsOpened (storage account)
  reachable-IsOpened reached account =
      (Reach-slotwise deployment Made
        (λ before after. IsSound before × IsOpened before → IsSound after × IsOpened after)
        (λ slot held. held) (λ a b c first second held. second (first held))
        (λ environment call before after made step held. (
          SlotStep-IsSound deployment environment call before after step held.0,
          SlotStep-IsOpened environment call before after made step held.0 held.1,
        ))
        reached account (uninstalled refl refl refl refl, idle refl)).1
