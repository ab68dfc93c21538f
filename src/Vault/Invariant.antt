-- ===== src/Vault/Invariant.antt =====
-- The invariant of the vault's account, over calls and sequences of them.
use recovery_guardian_contra.Digest.{intent_digest}
use recovery_guardian_contra.Digest.Inputs.{IsKey}
use recovery_guardian_contra.Account.RoundTrip.{to_veto-from_veto}
use mathlib.Core.Path.{sym, subst}
use recovery_guardian_contra.Vault.Granted.{
  transfer_granted, execute_granted, abort_granted, resume_granted, pause_granted, initiate_granted,
  register_granted, apply_granted,
}
use recovery_guardian_contra.Prelude.Results.{err, ok}
use recovery_guardian_contra.Prelude.Int.{ℤ}
use recovery_guardian_contra.Vault.Handlers.{intent_of, create_vault, apply, is_idle}
use recovery_guardian_contra.Prelude.Words.{IsU64, u64_saturating_add, u64_max}
use recovery_guardian_contra.Veto.Attempts.{
  execute-IsValid, abort-IsValid, resume-IsValid, pause-IsValid, start-IsValid, Ensures, IsValid,
  IsTimed,
}
use recovery_guardian_contra.Validation.Independence.{validate_iff, IsIndependent}
use recovery_guardian_contra.Prelude.{
  refl, [], ◌∷◌, ℕ, List, Bytes, ◌∙◌, sym, false, Has, arith, ◌≢◌, ◌≤◌, true, ◌≡◌,
}
use recovery_guardian_contra.Vault.Confinement.{HasWords}
use recovery_guardian_contra.Vault.Context.{Intent, Outcome, Effect, Deployment, Transaction}
use recovery_guardian_contra.Veto.{
  execute, abort, resume, pause, start, default_attempt, State, Attempt, Config, is_terminal,
  Transition, project, state_eq,
}
use recovery_guardian_contra.Vault.Steps.{
  transferring, executing, aborting, vault_after, resuming, run_calls, step, pausing, initiating,
  run_call, registering, Call,
}
use recovery_guardian_contra.Account.{
  attempt_from_veto, attempt_to_veto, VetoConfigAccount, config_to_veto, Vault,
}

-- A registered vault has an independent veto configuration, a recovery key without a veto role, and an
-- attempt whose clock is valid under that configuration; any other vault has no attempt.
pub record IsSound (vault : Vault) : Type 0 where
  pub words : HasWords vault
  pub digest_sized : IsKey vault.intent_digest
  pub independent : vault.registered ≡ true → IsIndependent (config_to_veto vault.veto)
  pub timed : vault.registered ≡ true → IsTimed (config_to_veto vault.veto)
  pub roleless :
      vault.registered ≡ true
      → (vault.recovery_owner ≢ vault.veto.pause_authority)
        × (vault.recovery_owner ≢ vault.veto.abort_authority)
        × (¬ (Has vault.veto.resume_members vault.recovery_owner))
  pub valid :
      vault.registered ≡ true → IsValid (config_to_veto vault.veto) (attempt_to_veto vault.attempt)
  pub quiet : vault.registered ≡ false → (attempt_to_veto vault.attempt).state ≡ State.none

-- The arguments of a call are words of their types.
abbrev pub IsTyped : Call → Type 0
IsTyped (registering owner recovery_owner veto config_nonce index) =
    (veto.timelock_seconds ≤ u64_max) × (veto.pause_ceiling_seconds ≤ u64_max)
IsTyped _ = Unit {0}

idle-IsValid :
    (config : Config) (attempt : Attempt) → is_idle attempt.state ≡ true → IsValid config attempt
unfolding state_eq is_terminal
idle-IsValid config attempt idle = ground arith

-- Whoever is idle once the clock is read was idle before.
pub idle_before :
    (config : Config) (attempt : Attempt) (now : ℤ)
    → is_idle (project config attempt now).state ≡ true
    → is_idle attempt.state ≡ true
unfolding project
idle_before config attempt now idle = ground arith

independent-IsTimed :
    (veto : VetoConfigAccount)
    → IsIndependent (config_to_veto veto)
    → veto.timelock_seconds ≤ u64_max
    → veto.pause_ceiling_seconds ≤ u64_max
    → IsTimed (config_to_veto veto)
unfolding config_to_veto
independent-IsTimed veto free timelock ceiling = ground arith

-- A transition that keeps a valid attempt valid.
abbrev Keeps : Transition → Type 0
Keeps transition =
    (config : Config) (attempt : Attempt) (now : ℤ)
    → IsTimed config
    → IsValid config attempt
    → Ensures (IsValid config) (transition config attempt now)

-- The owner and the counters have no part in the invariant but their words.
recount-IsSound :
    (vault : Vault) (owner : Bytes) (epoch nonce attempt_seq : ℕ)
    → IsU64 epoch
    → IsU64 nonce
    → IsU64 attempt_seq
    → IsSound vault
    → IsSound
        (record vault { owner = owner; epoch = epoch; nonce = nonce; attempt_seq = attempt_seq })
recount-IsSound vault owner epoch nonce attempt_seq e n a sound = record {
  words = omega (arith, sound.words);
  digest_sized = sound.digest_sized;
  independent = sound.independent;
  timed = sound.timed;
  roleless = sound.roleless;
  valid = sound.valid;
  quiet = sound.quiet;
}

pub length-intent_of :
    (deployment : Deployment) (intent : Intent) → IsKey (intent_of deployment intent)
unfolding intent_digest
length-intent_of deployment intent = deployment.hasher.length-hashv _

module _ (t : Transaction) (vault : Vault) where
  apply-IsSound :
      (transition : Transition) {after : Vault}
      → Keeps transition
      → IsSound vault
      → vault.registered ≡ true
      → apply t vault transition ≡ ok after
      → IsSound after × (after.registered ≡ true)
  apply-IsSound transition keeps sound bound h =
      let (now, reached, _, _, moved, done) = apply_granted t vault transition h in
      let kept : IsValid (config_to_veto vault.veto) reached =
        subst (Ensures (IsValid (config_to_veto vault.veto))) moved (
          keeps (config_to_veto vault.veto) (attempt_to_veto vault.attempt) now (sound.timed bound)
            (sound.valid bound)) in
      let stored : IsValid (config_to_veto vault.veto)
          (attempt_to_veto (attempt_from_veto reached)) =
        subst (IsValid (config_to_veto vault.veto)) (sym (to_veto-from_veto reached)) kept in
      rw done (
        record {
          words = omega (arith, sound.words);
          digest_sized = sound.digest_sized;
          independent = sound.independent;
          timed = sound.timed;
          roleless = sound.roleless;
          valid = λ _. stored;
          quiet = λ unbound. absurd (cc (sym bound ∙ unbound));
        },
        bound,
      )

module _ (deployment : Deployment) (t : Transaction) (vault : Vault) {after : Vault}
    {effect : Effect} where
  -- Every call that succeeds keeps the invariant.
  pub call-IsSound :
      (call : Call)
      → IsTyped call
      → IsSound vault
      → run_call deployment t call vault ≡ ok (after, effect)
      → IsSound after
  unfolding run_call
  call-IsSound (registering owner recovery_owner veto config_nonce index) typed sound h =
      let (now, _, _, _, _, idle, accepted, not_pause, not_abort, not_member, _, done) =
        register_granted deployment t vault owner recovery_owner veto config_nonce index h in
      let free = (validate_iff (config_to_veto veto)).0 accepted in
      rw done (record {
        words = ground (arith, sound.words);
        digest_sized = sound.digest_sized;
        independent = λ _. free;
        timed = λ _. independent-IsTimed veto free typed.0 typed.1;
        roleless = λ _. (not_pause, not_abort, not_member);
        valid = λ _.
            idle-IsValid (config_to_veto veto) (attempt_to_veto vault.attempt)
              (idle_before (config_to_veto vault.veto) (attempt_to_veto vault.attempt) now idle);
        quiet = λ unbound. absurd (cc unbound);
      })
  call-IsSound (initiating intent index) typed sound h =
      let (now, _, bound, _, _, _, _, _, done) =
        initiate_granted deployment t vault intent index h in
      let fresh =
        start-IsValid (config_to_veto vault.veto) default_attempt now (sound.timed bound) in
      rw done (record {
        words = ground (arith, sound.words);
        digest_sized = length-intent_of deployment intent;
        independent = sound.independent;
        timed = sound.timed;
        roleless = sound.roleless;
        valid = λ _.
            subst (IsValid (config_to_veto vault.veto))
              (sym (to_veto-from_veto (start default_attempt now))) fresh;
        quiet = λ unbound. absurd (cc (sym bound ∙ unbound));
      })
  call-IsSound (pausing authority) typed sound h =
      let (reached, bound, _, applied, done) = pause_granted deployment t vault authority h in
      let (kept, still) = apply-IsSound t vault pause pause-IsValid sound bound applied in
      rw done (
        recount-IsSound reached reached.owner reached.epoch reached.nonce
          (u64_saturating_add reached.attempt_seq 1) kept.words.epoch_word kept.words.nonce_word
          (omega arith) kept)
  call-IsSound (resuming signers index) typed sound h =
      let (bound, _, _, _, applied) = resume_granted deployment t vault signers index h in
      (apply-IsSound t vault resume resume-IsValid sound bound applied).0
  call-IsSound (aborting authority) typed sound h =
      let (reached, bound, _, applied, done) = abort_granted deployment t vault authority h in
      let (kept, still) = apply-IsSound t vault abort abort-IsValid sound bound applied in
      rw done (
        recount-IsSound reached reached.owner reached.epoch (u64_saturating_add reached.nonce 1)
          reached.attempt_seq kept.words.epoch_word (omega arith) kept.words.attempt_seq_word kept)
  call-IsSound (executing intent) typed sound h =
      let (reached, bound, _, _, applied, done) = execute_granted deployment t vault intent h in
      let (kept, still) = apply-IsSound t vault execute execute-IsValid sound bound applied in
      rw done (
        recount-IsSound reached intent.new_owner (u64_saturating_add reached.epoch 1)
          (u64_saturating_add reached.nonce 1) reached.attempt_seq (omega arith) (omega arith)
          kept.words.attempt_seq_word kept)
  call-IsSound (transferring owner vault_sol destination amount) typed sound h =
      let (_, same, _) = transfer_granted deployment t vault owner vault_sol destination amount h in
      rw same sound

-- A vault that `create_vault` returns is sound, not registered, and owned by its creator.
pub create_vault-IsSound :
    (deployment : Deployment) (creator vault_id : Bytes) (bump sol_bump : ℕ) (vault_sol : Bytes)
    → {vault : Vault} {effect : Effect}
    → create_vault deployment creator vault_id bump sol_bump vault_sol ≡ ok (vault, effect)
    → IsSound vault × (vault.registered ≡ false) × (vault.owner ≡ creator)
unfolding create_vault attempt_to_veto
create_vault-IsSound deployment creator vault_id bump sol_bump vault_sol h = ground arith

-- The arguments of every call are words of their types.
abbrev pub AllTyped : List (Transaction × Call) → Type 0
AllTyped [] = Unit {0}
AllTyped ((t, call) ∷ calls) = IsTyped call × AllTyped calls

module _ (deployment : Deployment) where
  pub step-IsSound :
      (t : Transaction) (call : Call) (vault : Vault)
      → IsTyped call
      → IsSound vault
      → IsSound (step deployment t call vault)
  unfolding step
  step-IsSound t call vault typed sound = go (run_call deployment t call vault) refl
    where
      go :
          (outcome : Outcome)
          → run_call deployment t call vault ≡ outcome
          → IsSound (vault_after outcome vault)
      go (ok (after, effect)) h = call-IsSound deployment t vault call typed sound h
      go (err e) h = sound

  -- Any calls with arguments of their types, whatever clocks they read, keep a vault sound: a
  -- registered vault has an independent veto configuration, a recovery key without a veto role and
  -- a valid attempt, and an unregistered one has no attempt.
  pub run_calls-IsSound :
      (calls : List (Transaction × Call)) (vault : Vault)
      → AllTyped calls
      → IsSound vault
      → IsSound (run_calls deployment calls vault)
  unfolding run_calls
  run_calls-IsSound [] vault typed sound = sound
  run_calls-IsSound ((t, call) ∷ calls) vault typed sound =
      run_calls-IsSound calls (step deployment t call vault) typed.1
        (step-IsSound t call vault typed.0 sound)
