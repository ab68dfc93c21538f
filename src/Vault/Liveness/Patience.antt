-- ===== src/Vault/Liveness/Patience.antt =====
-- An open attempt stays on its way under calls that neither abort nor execute it.
use recovery_guardian_contra.Vault.Liveness.{project_busy, AllPatient, busy_idle, IsOpen}
use recovery_guardian_contra.Vault.Allowed.Moves.{CanMove}
use recovery_guardian_contra.Veto.Traces.{after_move}
use recovery_guardian_contra.Vault.Granted.{
  transfer_granted, resume_granted, pause_granted, initiate_granted, register_granted,
  apply_granted,
}
use recovery_guardian_contra.Account.RoundTrip.{to_veto-from_veto}
use recovery_guardian_contra.Prelude.Words.{u64_saturating_add, i64_max}
use mathlib.Core.Path.{sym, subst}
use recovery_guardian_contra.Prelude.Results.{ok}
use recovery_guardian_contra.Veto.Accounting.{
  accounted_matures, move-IsAccounted, move-IsValid, IsAccounted,
}
use recovery_guardian_contra.Vault.Handlers.{
  execute_transfer, resume_recovery, pause_recovery, initiate_recovery, register, projected, apply,
  is_idle,
}
use recovery_guardian_contra.Veto.Attempts.{IsValid, IsTimed}
use recovery_guardian_contra.Vault.Steps.{
  transferring, resuming, after_outcome, pausing, run_call, initiating, step, run_calls,
  registering, executing, aborting, Call,
}
use recovery_guardian_contra.Vault.Context.{Deployment, Transaction}
use recovery_guardian_contra.Account.{
  attempt_from_veto, attempt_to_veto, config_to_veto, Vault, VetoConfigAccount,
}
use recovery_guardian_contra.Prelude.{
  refl, inr, inl, ◌≢◌, ◌+◌, sym, ◌≤◌, ◌⊎◌, [], ◌∷◌, arith, true, ℕ, ◌≡◌, Bytes, List,
}
use recovery_guardian_contra.Veto.{resume, pause, State, Attempt, is_terminal, project}
use recovery_guardian_contra.Prelude.Int.{monus, ℤ}
use recovery_guardian_contra.Veto.Transitions.{Move, run_move}
use recovery_guardian_contra.Vault.Window.{is_busy}

module _ (origin : ℤ) (veto : VetoConfigAccount) (digest : Bytes) (epoch : ℕ)
    (timed : IsTimed (config_to_veto veto)) where
  abbrev pub Opened : Vault → Type 0
  Opened = IsOpen origin veto digest epoch

  Opened-with :
      (vault : Vault) (attempt : Attempt) (attempt_seq : ℕ)
      → Opened vault
      → IsValid (config_to_veto veto) attempt
      → IsAccounted (config_to_veto veto) origin attempt
      → is_busy attempt.state ≡ true
      → Opened (record vault { attempt = attempt_from_veto attempt; attempt_seq = attempt_seq })
  Opened-with vault attempt attempt_seq held valid accounted busy = record {
    same_veto = held.same_veto;
    committed = held.committed;
    same_epoch = held.same_epoch;
    bound = held.bound;
    valid = subst (IsValid (config_to_veto veto)) (sym (to_veto-from_veto attempt)) valid;
    accounted =
        subst (IsAccounted (config_to_veto veto) origin) (sym (to_veto-from_veto attempt))
          accounted;
    busy = subst (λ (a : Attempt). is_busy a.state ≡ true) (sym (to_veto-from_veto attempt)) busy;
  }

  -- What a pause and a resume leave open.
  move_open :
      (move : Move) (attempt : Attempt) (now : ℤ) {reached : Attempt}
      → (move ≡ Move.pausing) ⊎ (move ≡ Move.resuming)
      → run_move move (config_to_veto veto) attempt now ≡ ok reached
      → is_busy reached.state ≡ true
  unfolding run_move pause resume
  move_open move attempt now which h = ground arith

  apply-Opened :
      (t : Transaction) (move : Move) (vault : Vault) (attempt_seq : ℕ) {after : Vault}
      → (move ≡ Move.pausing) ⊎ (move ≡ Move.resuming)
      → ((now : ℤ) → t.clock ≡ ok now → monus now origin ≤ i64_max)
      → Opened vault
      → apply t vault (run_move move) ≡ ok after
      → Opened (record after { attempt_seq = attempt_seq })
  apply-Opened t move vault attempt_seq which near held h =
      let (now, reached, clocked, _, moved, done) = apply_granted t vault (run_move move) h in
      let attempt = attempt_to_veto vault.attempt in
      let config = config_to_veto veto in
      let moved' : run_move move config attempt now ≡ ok reached =
        subst (λ v. run_move move (config_to_veto v) attempt now ≡ ok reached) held.same_veto
          moved in
      rw done (
        Opened-with vault reached attempt_seq held
          (subst (λ r. IsValid config (after_move r attempt)) moved'
            (move-IsValid config origin timed move attempt now held.valid))
          (subst (λ r. IsAccounted config origin (after_move r attempt)) moved'
            (move-IsAccounted config origin timed move attempt now (near now clocked) held.valid
              held.accounted))
          (move_open move attempt now which moved'))

  module _ (deployment : Deployment) (t : Transaction) (vault : Vault)
      (near : (now : ℤ) → t.clock ≡ ok now → monus now origin ≤ i64_max) (held : Opened vault) where
    -- The attempt that is open keeps any other from being opened and any key from being bound.
    not_idle : (now : ℤ) → is_idle (projected vault now).state ≢ true
    not_idle now idle =
        busy_idle _
          (project_busy (config_to_veto vault.veto) (attempt_to_veto vault.attempt) now held.busy)
          idle

    step-Opened :
        (call : Call) (calls : List (Transaction × Call))
        → AllPatient origin ((t, call) ∷ calls)
        → Opened (step deployment t call vault) × AllPatient origin calls
    unfolding step run_call run_move
    step-Opened (registering owner key vetoes nonce index) calls patient = (
      after_outcome {P = Opened} (register deployment t owner key vetoes nonce index vault) vault
          held
          (λ after effect h.
            let (now, _, _, _, _, idle, _, _, _, _, _, _) =
              register_granted deployment t vault owner key vetoes nonce index h in
            absurd (not_idle now idle)),
      patient.1,
    )
    step-Opened (initiating intent index) calls patient = (
      after_outcome {P = Opened} (initiate_recovery deployment t intent index vault) vault held
          (λ after effect h.
            let (now, _, _, _, _, _, idle, _, _) =
              initiate_granted deployment t vault intent index h in
            absurd (not_idle now idle)),
      patient.1,
    )
    step-Opened (pausing authority) calls patient = (
      after_outcome {P = Opened} (pause_recovery deployment t authority vault) vault held
          (λ after effect h.
            let (reached, _, _, applied, done) = pause_granted deployment t vault authority h in
            rw done (
              apply-Opened t Move.pausing vault (u64_saturating_add reached.attempt_seq 1)
                (inl refl) near held applied)),
      patient.1,
    )
    step-Opened (resuming signers index) calls patient = (
      after_outcome {P = Opened} (resume_recovery deployment t signers index vault) vault held
          (λ after effect h.
            let (_, _, _, _, applied) = resume_granted deployment t vault signers index h in
            apply-Opened t Move.resuming vault after.attempt_seq (inr refl) near held applied),
      patient.1,
    )
    step-Opened (aborting authority) calls patient = absurd patient
    step-Opened (executing intent) calls patient = absurd patient
    step-Opened (transferring owner vault_sol destination amount) calls patient = (
      after_outcome {P = Opened}
          (execute_transfer deployment t owner vault_sol destination amount vault) vault held
          (λ after effect h.
            let (_, same, _) =
              transfer_granted deployment t vault owner vault_sol destination amount h in
            rw same held),
      patient.1,
    )

  patient_near :
      (t : Transaction) (call : Call) (calls : List (Transaction × Call))
      → AllPatient origin ((t, call) ∷ calls)
      → (now : ℤ) → t.clock ≡ ok now
      → monus now origin ≤ i64_max
  patient_near t (registering owner key vetoes nonce index) calls patient = patient.0
  patient_near t (initiating intent index) calls patient = patient.0
  patient_near t (pausing authority) calls patient = patient.0
  patient_near t (resuming signers index) calls patient = patient.0
  patient_near t (aborting authority) calls patient = absurd patient
  patient_near t (executing intent) calls patient = absurd patient
  patient_near t (transferring owner vault_sol destination amount) calls patient = patient.0

  pub run_calls-Opened :
      (deployment : Deployment) (calls : List (Transaction × Call)) (vault : Vault)
      → AllPatient origin calls
      → Opened vault
      → Opened (run_calls deployment calls vault)
  unfolding run_calls
  run_calls-Opened deployment [] vault patient held = held
  run_calls-Opened deployment ((t, call) ∷ calls) vault patient held =
      let (held', patient') =
        step-Opened deployment t vault (patient_near t call calls patient) held call calls
          patient in
      run_calls-Opened deployment calls (step deployment t call vault) patient' held'

  -- The attempt is executable for anyone at a time by which every wait is over.
  pub Opened-CanMove :
      (t : Transaction) (vault : Vault) (now : ℤ)
      → Opened vault
      → t.clock ≡ ok now
      → monus now origin ≤ i64_max
      → (config_to_veto veto).timelock_seconds + (config_to_veto veto).pause_ceiling_seconds
        ≤ monus now origin
      → CanMove Move.executing t vault
  unfolding is_terminal
  Opened-CanMove t vault now held clocked near late =
      let config = config_to_veto veto in
      let attempt = attempt_to_veto vault.attempt in
      let reached = project config attempt now in
      let mature : reached.state ≡ State.executable = ground (
        arith,
        accounted_matures config origin timed attempt now near held.valid held.accounted late,
        project_busy config attempt now held.busy,
      ) in
      (
        now,
        clocked,
        subst (λ v. (project (config_to_veto v) attempt now).state ≡ State.executable)
            (sym held.same_veto) mature,
      )
