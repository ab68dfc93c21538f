-- ===== src/Vault/Replay.antt =====
-- Spent signatures of the vault: over intents, registrations and resume endorsements.
use recovery_guardian_contra.Digest.Binding.{resume_digest_binds}
use recovery_guardian_contra.Digest.Collision.{Collision}
use recovery_guardian_contra.Vault.Handlers.{resume_of}
use recovery_guardian_contra.Digest.Inputs.{IsResumeInput, IsKey, ResumeInput}
use recovery_guardian_contra.Veto.{pause, execute, abort}
use recovery_guardian_contra.Vault.Granted.{
  pause_granted, register_granted, initiate_granted, execute_granted, apply_granted, abort_granted,
}
use recovery_guardian_contra.Prelude.Words.{u64_max}
use recovery_guardian_contra.Prelude.Results.{err, ok}
use recovery_guardian_contra.Vault.Confinement.{call-CountersRise, CountersRise}
use recovery_guardian_contra.Vault.Invariant.{
  run_calls-IsSound, call-IsSound, step-IsSound, IsTyped, AllTyped, IsSound,
}
use recovery_guardian_contra.Account.{VetoConfigAccount, Vault}
use recovery_guardian_contra.Prelude.{
  inl, inr, Bytes, ap, refl, ◌≢◌, [], ◌∷◌, ◌<◌, arith, ◌≡◌, ℕ, List,
}
use recovery_guardian_contra.Vault.Steps.{
  transferring, resuming, pausing, registering, vault_after, initiating, executing, aborting,
  run_call, Call, run_calls, step,
}
use recovery_guardian_contra.Vault.Context.{Outcome, Effect, Intent, Transaction, Deployment}

module _ (deployment : Deployment) where
  step-CountersRise :
      (t : Transaction) (call : Call) (vault : Vault)
      → IsSound vault
      → CountersRise vault (step deployment t call vault)
  unfolding step
  step-CountersRise t call vault sound = go (run_call deployment t call vault) refl
    where
      go :
          (outcome : Outcome)
          → run_call deployment t call vault ≡ outcome
          → CountersRise vault (vault_after outcome vault)
      go (ok (after, effect)) h = call-CountersRise deployment t vault call sound.words h
      go (err e) h = omega arith

  run_calls-CountersRise :
      (calls : List (Transaction × Call)) (vault : Vault)
      → AllTyped calls
      → IsSound vault
      → CountersRise vault (run_calls deployment calls vault)
  unfolding run_calls
  run_calls-CountersRise [] vault typed sound = omega arith
  run_calls-CountersRise ((t, call) ∷ calls) vault typed sound = omega (
    arith,
    step-CountersRise t call vault sound,
    run_calls-CountersRise calls (step deployment t call vault) typed.1
        (step-IsSound deployment t call vault typed.0 sound),
  )

  -- A call that ends the attempt.
  abbrev pub IsClosing : Call → Type 0
  IsClosing (aborting authority) = Unit {0}
  IsClosing (executing intent) = Unit {0}
  IsClosing _ = ⊥

  closing_spends :
      (t : Transaction) (call : Call) (vault : Vault) {after : Vault} {effect : Effect}
      → IsClosing call
      → run_call deployment t call vault ≡ ok (after, effect)
      → vault.nonce < u64_max
      → vault.nonce < after.nonce
  unfolding run_call
  closing_spends t (aborting authority) vault closing h room =
      let (reached, _, _, applied, done) = abort_granted deployment t vault authority h in
      ground (arith, apply_granted t vault abort applied)
  closing_spends t (executing intent) vault closing h room =
      let (reached, _, _, _, applied, done) = execute_granted deployment t vault intent h in
      ground (arith, apply_granted t vault execute applied)
  closing_spends t (registering a b c d e) vault closing h room = absurd closing
  closing_spends t (initiating a b) vault closing h room = absurd closing
  closing_spends t (pausing a) vault closing h room = absurd closing
  closing_spends t (resuming a b) vault closing h room = absurd closing
  closing_spends t (transferring a b c d) vault closing h room = absurd closing

  -- An intent opened an attempt on a sound vault, and after any calls an abort or an execution
  -- closed one, while the nonce was not saturated. Then after any further calls, at any time, the
  -- same intent opens no attempt.
  pub closed_intent_never_reopens :
      (intent : Intent) (index : ℕ) (opening_t : Transaction) (vault : Vault)
      → {opened closed after : Vault} {opening_effect closing_effect effect : Effect}
      → (between : List (Transaction × Call)) → (closing_t : Transaction) (closing : Call)
      → (later : List (Transaction × Call)) → (t : Transaction) (index' : ℕ) → IsSound vault
      → AllTyped between
      → AllTyped later
      → run_call deployment opening_t (initiating intent index) vault ≡ ok (opened, opening_effect)
      → IsClosing closing
      → IsTyped closing
      → (run_calls deployment between opened).nonce < u64_max
      → run_call deployment closing_t closing (run_calls deployment between opened)
        ≡ ok (closed, closing_effect)
      → run_call deployment t (initiating intent index') (run_calls deployment later closed)
        ≢ ok (after, effect)
  unfolding run_call
  closed_intent_never_reopens intent index opening_t vault {opened} {closed} between closing_t
        closing later t index' sound typed typed' opens is_closing closing_typed room closes again =
      let opened_sound : IsSound opened =
        call-IsSound deployment opening_t vault (initiating intent index) tt sound opens in
      let met = run_calls deployment between opened in
      let met_sound = run_calls-IsSound deployment between opened typed opened_sound in
      let closed_sound : IsSound closed =
        call-IsSound deployment closing_t met closing closing_typed met_sound closes in
      let first_open = initiate_granted deployment opening_t vault intent index opens in
      let reopened =
        initiate_granted deployment t (run_calls deployment later closed) intent index' again in
      omega (
        arith,
        ap (λ (v : Vault). v.nonce) (first_open.8),
        first_open.5,
        reopened.5,
        run_calls-CountersRise between opened typed opened_sound,
        closing_spends closing_t closing met is_closing closes room,
        run_calls-CountersRise later closed typed' closed_sound,
      )

  -- After a registration on a sound vault whose registration nonce is not saturated, and any
  -- further calls with arguments of their types, no registration under the same nonce succeeds.
  pub registration_spent :
      (t : Transaction) (vault : Vault) (owner key : Bytes) (veto : VetoConfigAccount)
      (nonce index : ℕ)
      → {registered after : Vault} {effect effect' : Effect} → (later : List (Transaction × Call))
      → (t' : Transaction) (owner' key' : Bytes) (veto' : VetoConfigAccount) (index' : ℕ)
      → IsSound vault
      → IsTyped (registering owner key veto nonce index)
      → AllTyped later
      → vault.config_nonce < u64_max
      → run_call deployment t (registering owner key veto nonce index) vault
        ≡ ok (registered, effect)
      → run_call deployment t'
          (registering owner' key' veto' nonce index')
          (run_calls deployment later registered)
        ≢ ok (after, effect')
  unfolding run_call
  registration_spent t vault owner key veto nonce index {registered} later t' owner' key' veto'
        index' sound typed typed' room once again =
      let call = registering owner key veto nonce index in
      let kept : IsSound registered = call-IsSound deployment t vault call typed sound once in
      let was = register_granted deployment t vault owner key veto nonce index once in
      let is_again =
        register_granted deployment t' (run_calls deployment later registered) owner' key' veto'
          nonce index' again in
      omega (
        arith,
        was.4,
        ap (λ (v : Vault). v.config_nonce) was.11,
        is_again.4,
        run_calls-CountersRise later registered typed' kept,
      )

  abbrev resume_input : Vault → ResumeInput
  resume_input vault = record {
    cluster = deployment.cluster;
    program_id = deployment.program_id;
    vault = deployment.vault_key;
    intent_digest = vault.intent_digest;
    attempt_seq = vault.attempt_seq;
  }

  resume_input-sized :
      (vault : Vault)
      → IsKey deployment.program_id
      → IsKey deployment.vault_key
      → IsSound vault
      → IsResumeInput (resume_input vault)
  resume_input-sized vault program key sound = record {
    program_key = program;
    vault_key = key;
    digest_key = sound.digest_sized;
    seq_word = sound.words.attempt_seq_word;
  }

  -- After a pause of a sound vault whose attempt counter is not saturated, with 32-byte program and
  -- vault keys, and any further calls with arguments of their types: if the resume digest is the
  -- one from before the pause, then a collision of the hash function is exhibited.
  pub pause_outdates_endorsements :
      (t : Transaction) (vault : Vault) (authority : Bytes)
      → {stopped : Vault} {effect : Effect} → (later : List (Transaction × Call))
      → IsKey deployment.program_id
      → IsKey deployment.vault_key
      → IsSound vault
      → AllTyped later
      → vault.attempt_seq < u64_max
      → run_call deployment t (pausing authority) vault ≡ ok (stopped, effect)
      → resume_of deployment vault ≡ resume_of deployment (run_calls deployment later stopped)
      → Collision deployment.hasher
  unfolding run_call
  pause_outdates_endorsements t vault authority {stopped} later program key sound typed room paused
        same =
      let kept : IsSound stopped =
        call-IsSound deployment t vault (pausing authority) tt sound paused in
      let after = run_calls deployment later stopped in
      let after_sound = run_calls-IsSound deployment later stopped typed kept in
      let (reached, _, _, applied, done) = pause_granted deployment t vault authority paused in
      let (_, _, _, _, _, moved) = apply_granted t vault pause applied in
      let rises = run_calls-CountersRise later stopped typed kept in
      elim (resume_digest_binds deployment.hasher (resume_input vault) (resume_input after)
        (resume_input-sized vault program key sound)
        (resume_input-sized after program key after_sound) same) [
          | inr collision ↦ collision
          | inl equal ↦ absurd (
              omega (
                arith,
                ap (λ (i : ResumeInput). i.attempt_seq) equal,
                ap (λ (v : Vault). v.attempt_seq) done,
                ap (λ (v : Vault). v.attempt_seq) moved,
                rises,
              ))
        ]
