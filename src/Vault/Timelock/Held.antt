-- ===== src/Vault/Timelock/Held.antt =====
-- A vault whose attempt is not due yet, under any calls.
use recovery_guardian_contra.Vault.Window.{
  abort-IsEarly, resume-IsEarly, pause-IsEarly, AllInWindow, execute_early, apply-IsHeld,
  IsHeld-with, IsEarly, Window, IsInWindow, IsHeld,
}
use recovery_guardian_contra.Prelude.Words.{u64_saturating_add}
use recovery_guardian_contra.Vault.Granted.{
  transfer_granted, execute_granted, initiate_granted, abort_granted, resume_granted, pause_granted,
  apply_granted,
}
use recovery_guardian_contra.Vault.Handlers.{
  execute_transfer, execute_recovery, initiate_recovery, abort_recovery, resume_recovery,
  pause_recovery,
}
use mathlib.Core.Path.{subst}
use recovery_guardian_contra.Vault.Steps.{
  after_outcome, transferring, executing, aborting, resuming, pausing, initiating, run_call,
  run_calls, step, registering, Call,
}
use recovery_guardian_contra.Vault.Context.{Intent, Effect, Transaction, Deployment}
use recovery_guardian_contra.Account.{attempt_to_veto, config_to_veto, Vault, VetoConfigAccount}
use recovery_guardian_contra.Prelude.Results.{ok}
use recovery_guardian_contra.Veto.Attempts.{
  abort-IsValid, resume-IsValid, pause-IsValid, start-IsValid, Ensures, IsValid,
}
use recovery_guardian_contra.Prelude.{[], ◌∷◌, Bytes, List, ◌≢◌, arith, ◌≡◌, ℕ}
use recovery_guardian_contra.Prelude.Int.{ℤ}
use recovery_guardian_contra.Veto.{start, default_attempt, execute, abort, resume, pause}

module _ (deployment : Deployment) (origin : ℤ) (veto : VetoConfigAccount) (owner : Bytes) where
  -- The counters have no part in it.
  recount-IsHeld :
      (vault : Vault) (nonce attempt_seq : ℕ)
      → IsHeld origin veto owner vault
      → IsHeld origin veto owner (record vault { nonce = nonce; attempt_seq = attempt_seq })
  recount-IsHeld vault nonce attempt_seq held = record {
    same_veto = held.same_veto;
    same_owner = held.same_owner;
    bound = held.bound;
    timed = held.timed;
    valid = held.valid;
    early = held.early;
  }

  pub start-IsEarly :
      (now : ℤ)
      → IsInWindow origin (config_to_veto veto) now
      → IsEarly origin (config_to_veto veto).timelock_seconds (start default_attempt now)
  unfolding start
  start-IsEarly now window = ground arith

  module _ (t : Transaction) (vault : Vault) (window : Window deployment origin veto owner t)
      (held : IsHeld origin veto owner vault) {after : Vault} {effect : Effect} where
    initiate-IsHeld :
        (intent : Intent) (index : ℕ)
        → initiate_recovery deployment t intent index vault ≡ ok (after, effect)
        → IsHeld origin veto owner after
    initiate-IsHeld intent index h =
        let (now, clocked, _, _, _, _, _, _, done) =
          initiate_granted deployment t vault intent index h in
        let fresh =
          IsHeld-with deployment origin veto owner vault (start default_attempt now) held
            (start-IsValid (config_to_veto veto) default_attempt now held.timed)
            (start-IsEarly now (window now clocked)) in
        rw done (record {
          same_veto = fresh.same_veto;
          same_owner = fresh.same_owner;
          bound = fresh.bound;
          timed = fresh.timed;
          valid = fresh.valid;
          early = fresh.early;
        })

    pause_recovery-IsHeld :
        (authority : Bytes)
        → pause_recovery deployment t authority vault ≡ ok (after, effect)
        → IsHeld origin veto owner after
    pause_recovery-IsHeld authority h =
        let (reached, _, _, applied, done) = pause_granted deployment t vault authority h in
        let kept : IsHeld origin veto owner reached =
          apply-IsHeld deployment origin veto owner t vault pause window
            (λ now attempt inside moved. (
              subst (Ensures (IsValid (config_to_veto veto))) moved (
                  pause-IsValid (config_to_veto veto) (attempt_to_veto vault.attempt) now held.timed
                    held.valid),
              pause-IsEarly origin (config_to_veto veto) (attempt_to_veto vault.attempt) now
                  held.timed held.valid inside held.early moved,
            ))
            held applied in
        rw done
          (recount-IsHeld reached reached.nonce (u64_saturating_add reached.attempt_seq 1) kept)

    resume_recovery-IsHeld :
        (signers : List Bytes) (index : ℕ)
        → resume_recovery deployment t signers index vault ≡ ok (after, effect)
        → IsHeld origin veto owner after
    resume_recovery-IsHeld signers index h =
        let (_, _, _, _, applied) = resume_granted deployment t vault signers index h in
        apply-IsHeld deployment origin veto owner t vault resume window
          (λ now attempt inside moved. (
            subst (Ensures (IsValid (config_to_veto veto))) moved (
                resume-IsValid (config_to_veto veto) (attempt_to_veto vault.attempt) now held.timed
                  held.valid),
            resume-IsEarly origin (config_to_veto veto) (attempt_to_veto vault.attempt) now
                held.timed held.valid inside held.early moved,
          ))
          held applied

    abort_recovery-IsHeld :
        (authority : Bytes)
        → abort_recovery deployment t authority vault ≡ ok (after, effect)
        → IsHeld origin veto owner after
    abort_recovery-IsHeld authority h =
        let (reached, _, _, applied, done) = abort_granted deployment t vault authority h in
        let kept : IsHeld origin veto owner reached =
          apply-IsHeld deployment origin veto owner t vault abort window
            (λ now attempt inside moved. (
              subst (Ensures (IsValid (config_to_veto veto))) moved (
                  abort-IsValid (config_to_veto veto) (attempt_to_veto vault.attempt) now held.timed
                    held.valid),
              abort-IsEarly origin (config_to_veto veto) (attempt_to_veto vault.attempt) now
                  held.timed held.valid inside held.early moved,
            ))
            held applied in
        rw done
          (recount-IsHeld reached (u64_saturating_add reached.nonce 1) reached.attempt_seq kept)

    execute_recovery_early :
        (intent : Intent) → execute_recovery deployment t intent vault ≢ ok (after, effect)
    execute_recovery_early intent h =
        let (reached, _, _, _, applied, _) = execute_granted deployment t vault intent h in
        let (now, attempt, clocked, _, moved, _) = apply_granted t vault execute applied in
        execute_early origin (config_to_veto veto) (attempt_to_veto vault.attempt) now held.timed
          held.valid (window now clocked) held.early
          (subst (λ v. execute (config_to_veto v) (attempt_to_veto vault.attempt) now ≡ ok attempt)
            held.same_veto moved)

  step-IsHeld :
      (t : Transaction) (call : Call) (calls : List (Transaction × Call)) (vault : Vault)
      → AllInWindow origin (config_to_veto veto) ((t, call) ∷ calls)
      → IsHeld origin veto owner vault
      → IsHeld origin veto owner (step deployment t call vault)
        × AllInWindow origin (config_to_veto veto) calls
  unfolding step run_call
  step-IsHeld t (registering a b c d e) calls vault window held = absurd window
  step-IsHeld t (initiating intent index) calls vault window held = (
    after_outcome {P = IsHeld origin veto owner} (initiate_recovery deployment t intent index vault)
        vault held (λ after effect h. initiate-IsHeld t vault window.0 held intent index h),
    window.1,
  )
  step-IsHeld t (pausing authority) calls vault window held = (
    after_outcome {P = IsHeld origin veto owner} (pause_recovery deployment t authority vault) vault
        held (λ after effect h. pause_recovery-IsHeld t vault window.0 held authority h),
    window.1,
  )
  step-IsHeld t (resuming signers index) calls vault window held = (
    after_outcome {P = IsHeld origin veto owner} (resume_recovery deployment t signers index vault)
        vault held (λ after effect h. resume_recovery-IsHeld t vault window.0 held signers index h),
    window.1,
  )
  step-IsHeld t (aborting authority) calls vault window held = (
    after_outcome {P = IsHeld origin veto owner} (abort_recovery deployment t authority vault) vault
        held (λ after effect h. abort_recovery-IsHeld t vault window.0 held authority h),
    window.1,
  )
  step-IsHeld t (executing intent) calls vault window held = (
    after_outcome {P = IsHeld origin veto owner} (execute_recovery deployment t intent vault) vault
        held (λ after effect h. absurd (execute_recovery_early t vault window.0 held intent h)),
    window.1,
  )
  step-IsHeld t (transferring a vault_sol destination amount) calls vault window held = (
    after_outcome {P = IsHeld origin veto owner}
        (execute_transfer deployment t a vault_sol destination amount vault) vault held
        (λ after effect h.
          let (_, same, _) = transfer_granted deployment t vault a vault_sol destination amount h in
          rw same held),
    window.1,
  )

  pub run_calls-IsHeld :
      (calls : List (Transaction × Call)) (vault : Vault)
      → AllInWindow origin (config_to_veto veto) calls
      → IsHeld origin veto owner vault
      → IsHeld origin veto owner (run_calls deployment calls vault)
  unfolding run_calls
  run_calls-IsHeld [] vault window held = held
  run_calls-IsHeld ((t, call) ∷ calls) vault window held =
      let (held', window') = step-IsHeld t call calls vault window held in
      run_calls-IsHeld calls (step deployment t call vault) window' held'
