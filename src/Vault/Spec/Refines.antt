-- ===== src/Vault/Spec/Refines.antt =====
-- The instructions of the vault program as steps of what it promises.
use recovery_guardian_contra.Prelude.Words.{u64_saturating_add}
use recovery_guardian_contra.Vault.Steps.{
  after_outcome, run_calls, step, transferring, executing, aborting, resuming, pausing, initiating,
  Call, run_call,
}
use recovery_guardian_contra.Vault.Granted.{
  transfer_granted, execute_granted, abort_granted, resume_granted, pause_granted, initiate_granted,
  register_granted, apply_granted,
}
use recovery_guardian_contra.Account.RoundTrip.{to_veto-from_veto}
use recovery_guardian_contra.Prelude.Results.{ok}
use recovery_guardian_contra.Vault.Handlers.{intent_of, projected, is_idle, apply}
use recovery_guardian_contra.Prelude.Int.{ℤ}
use recovery_guardian_contra.Vault.Window.{is_busy}
use recovery_guardian_contra.Vault.Context.{Intent, Effect, Transaction, Deployment}
use recovery_guardian_contra.Account.{config_to_veto, attempt_to_veto, attempt_from_veto, Vault}
use recovery_guardian_contra.Veto.{
  default_attempt, start, Config, project, execute, abort, Attempt, resume, pause,
}
use recovery_guardian_contra.Prelude.{
  [], ◌∷◌, List, Bytes, refl, inr, ◌∙◌, inl, Bool-cases, ap, arith, some, Option, ◌≡◌, false, true,
  Bool,
}
use recovery_guardian_contra.Veto.Transitions.{Move, run_move}
use recovery_guardian_contra.Vault.Spec.{
  Reach, transferring, executing, aborting, resuming, pausing, initiating, u64_saturating_add,
  registering, Step, Call, is_busy, Deployment, Vault, Bool, View, view, only_if,
}
use recovery_guardian_contra.Vault.Liveness.{project_busy, busy_idle}

-- Whether a move leaves the attempt open.
abbrev keeps_open : Move → Bool
keeps_open Move.pausing = true
keeps_open Move.resuming = true
keeps_open Move.aborting = false
keeps_open Move.executing = false

move_busy :
    (move : Move) (config : Config) (attempt : Attempt) (now : ℤ) {reached : Attempt}
    → run_move move config attempt now ≡ ok reached
    → (is_busy attempt.state ≡ true) × (is_busy reached.state ≡ keeps_open move)
unfolding run_move pause resume abort execute project
move_busy Move.pausing config attempt now h = ground arith
move_busy Move.resuming config attempt now h = ground arith
move_busy Move.aborting config attempt now h = ground arith
move_busy Move.executing config attempt now h = ground arith

-- The account with the attempt that a move has left.
view-with :
    (vault : Vault) (attempt : Attempt) (open_now : Bool)
    → is_busy attempt.state ≡ open_now
    → view (record vault { attempt = attempt_from_veto attempt })
      ≡ record (view vault) { attempt = only_if open_now vault.intent_digest }
view-with vault attempt open_now h = rw (to_veto-from_veto attempt) (
    ap (λ b. let v : View = record (view vault) { attempt = only_if b vault.intent_digest } in v) h)

-- An attempt that was open and is open.
kept_open :
    (v : View) (attempt : Option Bytes)
    → v.attempt ≡ attempt
    → ◌≡◌ {A = View} (record v { attempt = attempt }) v
kept_open v attempt h = rw (← h)

-- What the vault program adds to the view of the moved attempt.
abbrev paused_view : View → View
paused_view v = record v { attempt_seq = u64_saturating_add v.attempt_seq 1 }

abbrev aborted_view : View → View
aborted_view v = record v { nonce = u64_saturating_add v.nonce 1 }

abbrev executed_view : Bytes → View → View
executed_view owner v = record v {
  owner = owner;
  epoch = u64_saturating_add v.epoch 1;
  nonce = u64_saturating_add v.nonce 1;
}

module _ (deployment : Deployment) (t : Transaction) (vault : Vault) where
  open_before :
      (now : ℤ) → is_idle (projected vault now).state ≡ true → (view vault).attempt ≡ Option.none
  open_before now idle = elim (Bool-cases (is_busy (attempt_to_veto vault.attempt).state)) [
    | inl busy ↦ absurd (
        busy_idle _
          (project_busy (config_to_veto vault.veto) (attempt_to_veto vault.attempt) now busy) idle)
    | inr quiet ↦ rw quiet
  ]

  apply-view :
      (move : Move) {after : Vault}
      → apply t vault (run_move move) ≡ ok after
      → ((view vault).attempt ≡ some vault.intent_digest)
        × (view after
            ≡ record (view vault) { attempt = only_if (keeps_open move) vault.intent_digest })
  apply-view move h =
      let (now, reached, _, _, moved, done) = apply_granted t vault (run_move move) h in
      let (was, is) =
        move_busy move (config_to_veto vault.veto) (attempt_to_veto vault.attempt) now moved in
      (rw was, ap view done ∙ view-with vault reached (keeps_open move) is)

  started_view :
      (now : ℤ) (intent : Intent)
      → let started : Vault = record vault {
        attempt = attempt_from_veto (start default_attempt now);
        intent_digest = intent_of deployment intent;
        attempt_seq = u64_saturating_add vault.attempt_seq 1;
      } in
        let expected : View = record (view vault) {
          attempt = some (intent_of deployment intent);
          attempt_seq = u64_saturating_add vault.attempt_seq 1;
        } in
        view started ≡ expected
  unfolding start
  started_view now intent = rw (to_veto-from_veto (start default_attempt now))

  module _ {after : Vault} {effect : Effect} where
    run_call-Step :
        (call : Call)
        → run_call deployment t call vault ≡ ok (after, effect)
        → Step deployment call (view vault) (view after)
    unfolding run_call run_move
    run_call-Step (registering owner key veto nonce index) h =
        let (now, _, by_owner, _, counted, idle, _, _, _, _, _, done) =
          register_granted deployment t vault owner key veto nonce index h in
        Step.enroll key veto index (rw (by_owner, counted)) (open_before now idle) (ap view done)
    run_call-Step (initiating intent index) h =
        let (now, _, bound, _, epoch, nonce, idle, _, done) =
          initiate_granted deployment t vault intent index h in
        Step.commit vault.recovery_owner intent index refl (rw bound) (open_before now idle) epoch
          nonce (ap view done ∙ started_view now intent)
    run_call-Step (pausing authority) h =
        let (reached, _, _, applied, done) = pause_granted deployment t vault authority h in
        let (was, is) = apply-view Move.pausing applied in
        Step.suspend authority vault.intent_digest refl was
          (ap view done ∙ ap paused_view (is ∙ kept_open (view vault) _ was))
    run_call-Step (resuming signers index) h =
        let (_, _, _, _, applied) = resume_granted deployment t vault signers index h in
        let (was, is) = apply-view Move.resuming applied in
        Step.lift signers index vault.intent_digest refl was (is ∙ kept_open (view vault) _ was)
    run_call-Step (aborting authority) h =
        let (reached, _, _, applied, done) = abort_granted deployment t vault authority h in
        let (was, is) = apply-view Move.aborting applied in
        Step.cancel authority vault.intent_digest refl was (ap view done ∙ ap aborted_view is)
    run_call-Step (executing intent) h =
        let (reached, _, known, epoch, applied, done) =
          execute_granted deployment t vault intent h in
        let (was, is) = apply-view Move.executing applied in
        Step.replace intent refl (rw known was) epoch
          (ap view done ∙ ap (executed_view intent.new_owner) is)
    run_call-Step (transferring owner vault_sol destination amount) h =
        let (held, same, _) =
          transfer_granted deployment t vault owner vault_sol destination amount h in
        Step.pay vault_sol destination amount (rw held) (ap view same)

Reach-append :
    (deployment : Deployment) {u v w : View}
    → Reach deployment u v
    → Reach deployment v w
    → Reach deployment u w
Reach-append deployment first Reach.here = first
Reach-append deployment first (Reach.next call rest last) =
    Reach.next call (Reach-append deployment first rest) last

stepped :
    (deployment : Deployment) (t : Transaction) (call : Call) (vault : Vault)
    → Reach deployment (view vault) (view (step deployment t call vault))
unfolding step
stepped deployment t call vault =
    after_outcome {P = λ after. Reach deployment (view vault) (view after)}
      (run_call deployment t call vault) vault Reach.here
      (λ after effect h. Reach.next call Reach.here (run_call-Step deployment t vault call h))

-- Whatever is called, the observable part of the account (the owner, the guardian, the open intent
-- and the counters) moves only along steps of the abstract vault: enrolling, committing,
-- suspending, lifting, cancelling, replacing and paying.
pub run_calls-Reach :
    (deployment : Deployment) (calls : List (Transaction × Call)) (vault : Vault)
    → Reach deployment (view vault) (view (run_calls deployment calls vault))
unfolding run_calls
run_calls-Reach deployment [] vault = Reach.here
run_calls-Reach deployment ((t, call) ∷ calls) vault =
    Reach-append deployment (stepped deployment t call vault)
      (run_calls-Reach deployment calls (step deployment t call vault))
