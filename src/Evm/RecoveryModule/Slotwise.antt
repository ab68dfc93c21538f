-- ===== src/Evm/RecoveryModule/Slotwise.antt =====
-- What each call does to one account's entries, it does to every account's, along any calls.
use mathlib.Core.Path.{subst}
use recovery_guardian_contra.Prelude.{inl, inr, sym, List, ◌≡◌}
use recovery_guardian_contra.Prelude.Results.{ok}
use recovery_guardian_contra.Evm.GradualVeto.{Address}
use recovery_guardian_contra.Evm.TypedData.{Deployment}
use recovery_guardian_contra.Evm.RecoveryModule.{
  Storage, Slot, Effect, Environment, SlotOutcome, on_install, on_uninstall, initiate_recovery,
  pause, resume, abort, close_recovery, on_slot, write,
}
use recovery_guardian_contra.Evm.RecoveryModule.Calls.{
  Call, installing, uninstalling, initiating, pausing, aborting, resuming, executing, run_call,
  Reentering, Reach, Reach-Related,
}
use recovery_guardian_contra.Evm.RecoveryModule.Slots.{
  execute_recovery_granted, on_slot_granted, write_self, write_other, same_address,
}

-- One account's entries before and after a call that succeeds, the call to the account aside.
abbrev pub SlotStep : Deployment → Environment → Call → Slot → Slot → Type 0
SlotStep deployment environment (installing recovery_owner config) before after =
    (effects : List Effect) × (on_install environment recovery_owner config before
      ≡ ok (after, effects))
SlotStep deployment environment uninstalling before after =
    (effects : List Effect) × (on_uninstall environment before ≡ ok (after, effects))
SlotStep deployment environment (initiating intent signature) before after =
    (effects : List Effect) × (initiate_recovery deployment environment intent signature before
      ≡ ok (after, effects))
SlotStep deployment environment (pausing account) before after =
    (effects : List Effect) × (pause deployment environment account before ≡ ok (after, effects))
SlotStep deployment environment (resuming account signers signatures) before after =
    (effects : List Effect) × (resume deployment environment account signers signatures before
      ≡ ok (after, effects))
SlotStep deployment environment (aborting account) before after =
    (effects : List Effect) × (abort deployment environment account before ≡ ok (after, effects))
SlotStep deployment environment (executing intent) before after =
    close_recovery deployment environment intent before ≡ ok after

-- A preorder on an account's entries that each call keeps.
module _ (deployment : Deployment) (Made : Environment → Call → Type 0)
    (Related : Slot → Slot → Type 0) (same : (slot : Slot) → Related slot slot)
    (joined : (a b c : Slot) → Related a b → Related b c → Related a c)
    (kept : (environment : Environment) (call : Call) (before after : Slot)
      → Made environment call
      → SlotStep deployment environment call before after
      → Related before after) where
  abbrev Everywhere : Storage → Storage → Type 0
  Everywhere before after = (account : Address) → Related (before account) (after account)

  write-Related :
      (storage : Storage) (account : Address) (slot : Slot)
      → Related (storage account) slot
      → Everywhere storage (write storage account slot)
  write-Related storage account slot related other = elim (same_address other account) [
    | inl e ↦
        subst (λ a. Related (storage a) (write storage account slot a)) (sym e)
          (rw (write_self storage account slot) related)
    | inr apart ↦ rw (write_other storage account other slot apart) (same (storage other))
  ]

  on_slot-Related :
      (environment : Environment) (call : Call) (account : Address) (body : Slot → SlotOutcome)
      (before after : Storage) (effects : List Effect)
      → Made environment call
      → ((slot : Slot)
          → body (before account) ≡ ok (slot, effects)
          → SlotStep deployment environment call (before account) slot)
      → on_slot account body before ≡ ok (after, effects)
      → Everywhere before after
  on_slot-Related environment call account body before after effects made step h =
      let (slot, ran, done) = on_slot_granted account body before h in
      subst (Everywhere before) (sym done) (
        write-Related before account slot
          (kept environment call (before account) slot made (step slot ran)))

  run_call-Related :
      (environment : Environment) (call : Call) (before after : Storage) (effects : List Effect)
      → Made environment call
      → Reentering Everywhere environment
      → run_call deployment environment call before ≡ ok (after, effects)
      → Everywhere before after
  unfolding run_call
  run_call-Related environment (installing recovery_owner config) before after effects made within
        h =
      on_slot-Related environment (installing recovery_owner config) environment.sender
        (on_install environment recovery_owner config) before after effects made
        (λ slot ran. (effects, ran)) h
  run_call-Related environment uninstalling before after effects made within h =
      on_slot-Related environment uninstalling environment.sender (on_uninstall environment) before
        after effects made (λ slot ran. (effects, ran)) h
  run_call-Related environment (initiating intent signature) before after effects made within h =
      on_slot-Related environment (initiating intent signature) intent.account
        (initiate_recovery deployment environment intent signature) before after effects made
        (λ slot ran. (effects, ran)) h
  run_call-Related environment (pausing account) before after effects made within h =
      on_slot-Related environment (pausing account) account (pause deployment environment account)
        before after effects made (λ slot ran. (effects, ran)) h
  run_call-Related environment (resuming account signers signatures) before after effects made
        within h =
      on_slot-Related environment (resuming account signers signatures) account
        (resume deployment environment account signers signatures) before after effects made
        (λ slot ran. (effects, ran)) h
  run_call-Related environment (aborting account) before after effects made within h =
      on_slot-Related environment (aborting account) account (abort deployment environment account)
        before after effects made (λ slot ran. (effects, ran)) h
  run_call-Related environment (executing intent) before after effects made within h =
      let (closed, ran, installed, _) =
        execute_recovery_granted deployment environment intent before h in
      λ account.
        joined (before account) (write before intent.account closed account) (after account)
          (write-Related before intent.account closed
            (kept environment (executing intent) (before intent.account) closed made ran) account)
          (within _ _ _ _ _ installed account)

  pub Reach-slotwise :
      {before after : Storage}
      → Reach deployment Made before after
      → (account : Address) → Related (before account) (after account)
  Reach-slotwise reached =
      Reach-Related deployment Made Everywhere (λ storage account. same (storage account))
        (λ a b c first second account.
          joined (a account) (b account) (c account) (first account) (second account))
        run_call-Related reached
