-- ===== src/Evm/RecoveryModule/Replay.antt =====
-- Intents that have been closed, across any calls: installing the module again is one of them.
use mathlib.Core.Path.{subst}
use recovery_guardian_contra.Prelude.{List, Bytes, ◌≡◌, ◌≢◌, ◌≤◌, ◌+◌, arith, ap, sym, ◌∙◌}
use recovery_guardian_contra.Prelude.Results.{ok}
use recovery_guardian_contra.Evm.GradualVeto.{Address}
use recovery_guardian_contra.Evm.TypedData.{Intent, Deployment}
use recovery_guardian_contra.Evm.RecoveryModule.{
  Storage, Slot, Effect, Environment, initiate_recovery, abort, close_recovery,
}
use recovery_guardian_contra.Evm.RecoveryModule.Calls.{
  Call, initiating, aborting, executing, run_call, Reentering, Reach,
}
use recovery_guardian_contra.Evm.RecoveryModule.Counters.{Reach-CountersRise}
use recovery_guardian_contra.Evm.RecoveryModule.Slots.{
  on_slot_granted, execute_recovery_granted, write_self,
}

-- The call ends the attempt of an account.
abbrev pub IsClosing : Address → Call → Type 0
IsClosing account (aborting other) = other ≡ account
IsClosing account (executing intent) = intent.account ≡ account
IsClosing account _ = ⊥

module _ (deployment : Deployment) (Made : Environment → Call → Type 0)
    (environment : Environment) where
  initiate_nonce :
      (intent : Intent) (signature : Bytes) (before after : Slot) (effects : List Effect)
      → initiate_recovery deployment environment intent signature before ≡ ok (after, effects)
      → (intent.nonce ≡ before.config.nonce) × (after.config.nonce ≡ before.config.nonce)
  unfolding initiate_recovery
  initiate_nonce intent signature before after effects h = ground arith

  abort_spends :
      (account : Address) (before after : Slot) (effects : List Effect)
      → abort deployment environment account before ≡ ok (after, effects)
      → after.config.nonce ≡ before.config.nonce + 1
  unfolding abort
  abort_spends account before after effects h = ground arith

  execution_spends :
      (intent : Intent) (before after : Slot)
      → close_recovery deployment environment intent before ≡ ok after
      → after.config.nonce ≡ before.config.nonce + 1
  unfolding close_recovery
  execution_spends intent before after h = ground arith

  initiating_nonce :
      (intent : Intent) (signature : Bytes) (before after : Storage) (effects : List Effect)
      → run_call deployment environment (initiating intent signature) before ≡ ok (after, effects)
      → (intent.nonce ≡ (before intent.account).config.nonce)
        × ((after intent.account).config.nonce ≡ intent.nonce)
  unfolding run_call
  initiating_nonce intent signature before after effects h =
      let (slot, ran, done) =
        on_slot_granted intent.account (initiate_recovery deployment environment intent signature)
          before h in
      let (asked, kept) =
        initiate_nonce intent signature (before intent.account) slot effects ran in
      (asked, rw done (rw (write_self before intent.account slot) (kept ∙ sym asked)))

  closing_spends :
      (account : Address) (call : Call) (before after : Storage) (effects : List Effect)
      → IsClosing account call
      → Reentering (Reach deployment Made) environment
      → run_call deployment environment call before ≡ ok (after, effects)
      → (before account).config.nonce + 1 ≤ (after account).config.nonce
  unfolding run_call
  closing_spends account (aborting other) before after effects closes within h =
      let (slot, ran, done) = on_slot_granted other (abort deployment environment other) before h in
      let spent = abort_spends other (before other) slot effects ran in
      let there : after other ≡ slot = ap (λ s. s other) done ∙ write_self before other slot in
      subst (λ a. (before a).config.nonce + 1 ≤ (after a).config.nonce) closes
        (omega (arith, ap (λ (s : Slot). s.config.nonce) there, spent))
  closing_spends account (executing intent) before after effects closes within h =
      let (closed, ran, installed, _) =
        execute_recovery_granted deployment environment intent before h in
      let spent = execution_spends intent (before intent.account) closed ran in
      let risen =
        (Reach-CountersRise deployment (within _ _ _ _ _ installed) intent.account).nonce_rises in
      let there = ap (λ (s : Slot). s.config.nonce) (write_self before intent.account closed) in
      subst (λ a. (before a).config.nonce + 1 ≤ (after a).config.nonce) closes
        (omega (arith, risen, there, spent))
  closing_spends account _ before after effects closes within h = absurd closes

module _ (deployment : Deployment) (Made : Environment → Call → Type 0) where
  -- A call opened an attempt for an intent, and after any calls an abort or an execution closed one
  -- of that account. Then after any further calls, at any time and with installations that call
  -- back among them, the same intent opens no attempt.
  pub closed_intent_stays_closed :
      (opening closing later : Environment) (intent : Intent) (signature again : Bytes)
      (call : Call) (s s1 s2 s3 s4 : Storage) (opened closed : List Effect)
      (outcome : Storage × List Effect)
      → run_call deployment opening (initiating intent signature) s ≡ ok (s1, opened)
      → Reach deployment Made s1 s2
      → IsClosing intent.account call
      → Reentering (Reach deployment Made) closing
      → run_call deployment closing call s2 ≡ ok (s3, closed)
      → Reach deployment Made s3 s4
      → run_call deployment later (initiating intent again) s4 ≢ ok outcome
  closed_intent_stays_closed opening closing later intent signature again call s s1 s2 s3 s4 opened
        closed (after, effects) ran first closes within done second reopened =
      let account = intent.account in
      let (_, held) = initiating_nonce deployment Made opening intent signature s s1 opened ran in
      let risen = (Reach-CountersRise deployment first account).nonce_rises in
      let spent =
        closing_spends deployment Made closing account call s2 s3 closed closes within done in
      let risen' = (Reach-CountersRise deployment second account).nonce_rises in
      let (asked, _) =
        initiating_nonce deployment Made later intent again s4 after effects reopened in
      omega (arith, held, risen, spent, risen', asked)
