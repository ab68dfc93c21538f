-- ===== src/Vault/Bounds/Calls.antt =====
-- The sizes of the account's fields from its creation on, under any calls.
use recovery_guardian_contra.Prelude.Words.{u64_saturating_add}
use recovery_guardian_contra.Vault.Invariant.{length-intent_of}
use recovery_guardian_contra.Validation.Independence.{validate_iff}
use recovery_guardian_contra.Vault.Granted.{
  transfer_granted, execute_granted, abort_granted, resume_granted, pause_granted, initiate_granted,
  register_granted,
}
use recovery_guardian_contra.Account.RoundTrip.{to_veto-from_veto}
use recovery_guardian_contra.Prelude.Results.{ok}
use mathlib.Core.Path.{sym, subst}
use recovery_guardian_contra.Prelude.{arith, sym, [], ◌∷◌, ◌≡◌, ℕ, List, Bytes}
use recovery_guardian_contra.Account.{config_to_veto, attempt_from_veto, Vault, attempt_to_veto}
use recovery_guardian_contra.Prelude.Int.{IsI64, ℤ}
use recovery_guardian_contra.Vault.Handlers.{create_vault}
use recovery_guardian_contra.Vault.Steps.{
  transferring, executing, aborting, resuming, pausing, initiating, run_call, after_outcome, Call,
  step, run_calls,
}
use recovery_guardian_contra.Vault.Context.{Effect, Transaction, Deployment}
use recovery_guardian_contra.Veto.{ordinal, default_attempt, start}
use recovery_guardian_contra.Veto.Transitions.{Move, run_move}
use recovery_guardian_contra.Vault.Bounds.{
  executing, registering, ordinal, to_veto-from_veto, ok, subst, Call, Bytes, attempt_to_veto,
  Transaction, ℤ, FitsAccount, FitsSeeds, FitsAttempt, AllInRange, HasArguments,
  recount-FitsAccount, apply-FitsAccount,
}

started_fits :
    (now : ℤ)
    → IsI64 now
    → FitsAttempt (attempt_to_veto (attempt_from_veto (start default_attempt now)))
unfolding start
started_fits now word =
    subst FitsAttempt (sym (to_veto-from_veto (start default_attempt now))) (ground arith)

module _ (deployment : Deployment) (t : Transaction) (vault : Vault) {after : Vault}
    {effect : Effect} (words : (now : ℤ) → t.clock ≡ ok now → IsI64 now)
    (fits : FitsAccount vault) where
  call-FitsAccount :
      (call : Call)
      → HasArguments call
      → run_call deployment t call vault ≡ ok (after, effect)
      → FitsAccount after
  unfolding run_call run_move config_to_veto attempt_from_veto ordinal start
  call-FitsAccount (registering owner key veto nonce index) typed h =
      let (now, _, _, _, _, idle, accepted, _, _, _, _, done) =
        register_granted deployment t vault owner key veto nonce index h in
      let free = (validate_iff (config_to_veto veto)).0 accepted in
      let (_, (p, a, m, b, l, c)) = typed in
      rw done (record {
        seeds = fits.seeds;
        owner_key = fits.owner_key;
        recovery_key = typed.0;
        digest_sized = fits.digest_sized;
        words = omega (arith, fits.words);
        vetoes = record {
          pause_key = p;
          abort_key = a;
          member_keys = m;
          members_fit = free.members_fit;
          threshold_byte = b;
          timelock_word = l;
          ceiling_word = c;
        };
        state_byte = fits.state_byte;
        clock = fits.clock;
      })
  call-FitsAccount (initiating intent index) typed h =
      let (now, clocked, _, _, _, _, _, _, done) =
        initiate_granted deployment t vault intent index h in
      rw done (record {
        seeds = fits.seeds;
        owner_key = fits.owner_key;
        recovery_key = fits.recovery_key;
        digest_sized = length-intent_of deployment intent;
        words = omega (arith, fits.words);
        vetoes = fits.vetoes;
        state_byte = omega arith;
        clock = started_fits now (words now clocked);
      })
  call-FitsAccount (pausing authority) typed h =
      let (reached, _, _, applied, done) = pause_granted deployment t vault authority h in
      let kept = apply-FitsAccount vault fits t Move.pausing words applied in
      rw done (
        recount-FitsAccount reached kept reached.owner reached.epoch reached.nonce
          (u64_saturating_add reached.attempt_seq 1) kept.owner_key kept.words.epoch_word
          kept.words.nonce_word (omega arith))
  call-FitsAccount (resuming signers index) typed h =
      let (_, _, _, _, applied) = resume_granted deployment t vault signers index h in
      apply-FitsAccount vault fits t Move.resuming words applied
  call-FitsAccount (aborting authority) typed h =
      let (reached, _, _, applied, done) = abort_granted deployment t vault authority h in
      let kept = apply-FitsAccount vault fits t Move.aborting words applied in
      rw done (
        recount-FitsAccount reached kept reached.owner reached.epoch
          (u64_saturating_add reached.nonce 1) reached.attempt_seq kept.owner_key
          kept.words.epoch_word (omega arith) kept.words.attempt_seq_word)
  call-FitsAccount (executing intent) typed h =
      let (reached, _, _, _, applied, done) = execute_granted deployment t vault intent h in
      let kept = apply-FitsAccount vault fits t Move.executing words applied in
      rw done (
        recount-FitsAccount reached kept intent.new_owner (u64_saturating_add reached.epoch 1)
          (u64_saturating_add reached.nonce 1) reached.attempt_seq typed (omega arith) (omega arith)
          kept.words.attempt_seq_word)
  call-FitsAccount (transferring owner vault_sol destination amount) typed h =
      let (_, same, _) = transfer_granted deployment t vault owner vault_sol destination amount h in
      rw same fits

run_calls-FitsAccount :
    (deployment : Deployment) (calls : List (Transaction × Call)) (vault : Vault)
    → AllInRange calls
    → FitsAccount vault
    → FitsAccount (run_calls deployment calls vault)
unfolding run_calls step
run_calls-FitsAccount deployment [] vault ranged fits = fits
run_calls-FitsAccount deployment ((t, call) ∷ calls) vault ranged fits =
    run_calls-FitsAccount deployment calls (step deployment t call vault) ranged.2 (
      after_outcome {P = FitsAccount} (run_call deployment t call vault) vault fits
        (λ after effect h. call-FitsAccount deployment t vault ranged.0 fits call ranged.1 h))

created-FitsAccount :
    (deployment : Deployment) (creator vault_id : Bytes) (bump sol_bump : ℕ) (vault_sol : Bytes)
    {vault : Vault} {effect : Effect}
    → FitsSeeds creator vault_id bump sol_bump
    → create_vault deployment creator vault_id bump sol_bump vault_sol ≡ ok (vault, effect)
    → FitsAccount vault
unfolding create_vault attempt_to_veto
created-FitsAccount deployment creator vault_id bump sol_bump vault_sol seeds h = ground arith

-- From the creation of a vault with a 32-byte creator, a 16-byte id and bumps that are `u8`s, and
-- through any calls with clock readings that are `i64`s and arguments of the widths of their types:
-- the keys and the digest of the account have 32 bytes and its id 16, the numbers fit their Rust
-- types, the state is at most 5, and the quorum has at most `MAX_RESUME_MEMBERS` members.
pub account_never_outgrows :
    (deployment : Deployment) (creator vault_id : Bytes) (bump sol_bump : ℕ) (vault_sol : Bytes)
    (calls : List (Transaction × Call)) {vault : Vault} {effect : Effect}
    → FitsSeeds creator vault_id bump sol_bump
    → create_vault deployment creator vault_id bump sol_bump vault_sol ≡ ok (vault, effect)
    → AllInRange calls
    → FitsAccount (run_calls deployment calls vault)
account_never_outgrows deployment creator vault_id bump sol_bump vault_sol calls {vault} seeds
      created ranged =
    run_calls-FitsAccount deployment calls vault ranged
      (created-FitsAccount deployment creator vault_id bump sol_bump vault_sol seeds created)
