-- ===== src/Vault/Granted/Moving.antt =====
-- What holds when a recovery in flight is moved, and when lamports are.
use recovery_guardian_contra.Prelude.Words.{u64_saturating_add}
use recovery_guardian_contra.Verify.{runtime, verify_detached}
use recovery_guardian_contra.Vault.Errors.{common}
use recovery_guardian_contra.Prelude.Results.{
  ok_injective, map_err-eq-ok, map_err, require-eq-ok, >>=-eq-ok, ok,
}
use recovery_guardian_contra.Prelude.{
  ◌∙◌, leb→le, leb, map, length, ◌≤◌, ap, ==_iff, ◌==◌, bytes_eq_iff, bytes_eq, List, sym, [], ◌∷◌,
  true, ℕ, Bytes, ◌≡◌,
}
use recovery_guardian_contra.Veto.{resume, execute, abort, pause}
use recovery_guardian_contra.Account.{config_to_veto, Vault}
use recovery_guardian_contra.Vault.Context.{lamports_moved, Intent, Effect, Deployment, Transaction}
use recovery_guardian_contra.Vault.Handlers.{
  resume_of, check_signers, sol_seed, intent_of, execute_transfer, execute_recovery, abort_recovery,
  resume_recovery, pause_recovery, verified, apply,
}

module _ (deployment : Deployment) (t : Transaction) (vault : Vault) {after : Vault}
    {effect : Effect} where
  pub pause_granted :
      (authority : Bytes)
      → pause_recovery deployment t authority vault ≡ ok (after, effect)
      → (reached : Vault) × (vault.registered ≡ true)
        × (authority ≡ vault.veto.pause_authority)
        × (apply t vault pause ≡ ok reached)
        × (after ≡ record reached { attempt_seq = u64_saturating_add reached.attempt_seq 1 })
  unfolding pause_recovery
  pause_granted authority h =
      let (bound, h1) = require-eq-ok vault.registered _ _ h in
      let (held, h2) = require-eq-ok (bytes_eq authority vault.veto.pause_authority) _ _ h1 in
      let (reached, applied, done) = >>=-eq-ok (apply t vault pause) _ h2 in
      (
        reached,
        bound,
        (bytes_eq_iff _ _).0 held,
        applied,
        sym (ap (λ (r : Vault × Effect). r.0) (ok_injective done)),
      )

  pub resume_granted :
      (signers : List Bytes) (index : ℕ)
      → resume_recovery deployment t signers index vault ≡ ok (after, effect)
      → (vault.registered ≡ true)
        × (vault.veto.resume_threshold ≤ length signers)
        × (check_signers (config_to_veto vault.veto) [] signers ≡ ok tt)
        × (verify_detached t.sysvar index
              (map (λ signer. (signer, resume_of deployment vault)) signers)
            ≡ ok tt)
        × (apply t vault resume ≡ ok after)
  unfolding resume_recovery
  resume_granted signers index h =
      let (bound, h1) = require-eq-ok vault.registered _ _ h in
      let (enough, h2) = require-eq-ok (leb vault.veto.resume_threshold (length signers)) _ _ h1 in
      let (_, checked, h3) =
        >>=-eq-ok (check_signers (config_to_veto vault.veto) [] signers) _ h2 in
      let (_, signed, h4) =
        >>=-eq-ok
          (verified deployment t index
            (map (λ signer. (signer, resume_of deployment vault)) signers))
          _ h3 in
      let (reached, applied, done) = >>=-eq-ok (apply t vault resume) _ h4 in
      (
        bound,
        leb→le _ _ enough,
        checked,
        map_err-eq-ok _ _ signed,
        applied ∙ ap ok (ap (λ (r : Vault × Effect). r.0) (ok_injective done)),
      )

  pub abort_granted :
      (authority : Bytes)
      → abort_recovery deployment t authority vault ≡ ok (after, effect)
      → (reached : Vault) × (vault.registered ≡ true)
        × (authority ≡ vault.veto.abort_authority)
        × (apply t vault abort ≡ ok reached)
        × (after ≡ record reached { nonce = u64_saturating_add reached.nonce 1 })
  unfolding abort_recovery
  abort_granted authority h =
      let (bound, h1) = require-eq-ok vault.registered _ _ h in
      let (held, h2) = require-eq-ok (bytes_eq authority vault.veto.abort_authority) _ _ h1 in
      let (reached, applied, done) = >>=-eq-ok (apply t vault abort) _ h2 in
      (
        reached,
        bound,
        (bytes_eq_iff _ _).0 held,
        applied,
        sym (ap (λ (r : Vault × Effect). r.0) (ok_injective done)),
      )

  pub execute_granted :
      (intent : Intent)
      → execute_recovery deployment t intent vault ≡ ok (after, effect)
      → (reached : Vault) × (vault.registered ≡ true)
        × (intent_of deployment intent ≡ vault.intent_digest)
        × (intent.epoch ≡ vault.epoch)
        × (apply t vault execute ≡ ok reached)
        × (after ≡ record reached {
          owner = intent.new_owner;
          epoch = u64_saturating_add reached.epoch 1;
          nonce = u64_saturating_add reached.nonce 1;
        })
  unfolding execute_recovery
  execute_granted intent h =
      let (bound, h1) = require-eq-ok vault.registered _ _ h in
      let (known, h2) =
        require-eq-ok (bytes_eq (intent_of deployment intent) vault.intent_digest) _ _ h1 in
      let (epoch, h3) = require-eq-ok (intent.epoch == vault.epoch) _ _ h2 in
      let (reached, applied, done) = >>=-eq-ok (apply t vault execute) _ h3 in
      (
        reached,
        bound,
        (bytes_eq_iff _ _).0 known,
        (==_iff _ _).0 epoch,
        applied,
        sym (ap (λ (r : Vault × Effect). r.0) (ok_injective done)),
      )

  pub transfer_granted :
      (owner vault_sol destination : Bytes) (amount : ℕ)
      → execute_transfer deployment t owner vault_sol destination amount vault ≡ ok (after, effect)
      → (owner ≡ vault.owner)
        × (after ≡ vault)
        × (effect ≡ lamports_moved vault_sol destination amount)
  unfolding execute_transfer
  transfer_granted owner vault_sol destination amount h =
      let (_, h1) =
        require-eq-ok
          (bytes_eq vault_sol
            (deployment.derive (sol_seed ∷ deployment.vault_key ∷ (vault.sol_bump ∷ []) ∷ [])))
          _ _ h in
      let (held, h2) = require-eq-ok (bytes_eq owner vault.owner) _ _ h1 in
      let (_, _, done) =
        >>=-eq-ok
          (map_err (λ code. common (runtime code)) (t.invoke_transfer vault_sol destination amount))
          _ h2 in
      (
        (bytes_eq_iff _ _).0 held,
        sym (ap (λ (r : Vault × Effect). r.0) (ok_injective done)),
        sym (ap (λ (r : Vault × Effect). r.1) (ok_injective done)),
      )

  pub transfer_paid :
      (owner vault_sol destination : Bytes) (amount : ℕ)
      → execute_transfer deployment t owner vault_sol destination amount vault ≡ ok (after, effect)
      → (vault_sol
          ≡ deployment.derive (sol_seed ∷ deployment.vault_key ∷ (vault.sol_bump ∷ []) ∷ []))
        × (t.invoke_transfer vault_sol destination amount ≡ ok tt)
  unfolding execute_transfer
  transfer_paid owner vault_sol destination amount h =
      let (derived, h1) =
        require-eq-ok
          (bytes_eq vault_sol
            (deployment.derive (sol_seed ∷ deployment.vault_key ∷ (vault.sol_bump ∷ []) ∷ [])))
          _ _ h in
      let (_, h2) = require-eq-ok (bytes_eq owner vault.owner) _ _ h1 in
      let (_, paid, _) =
        >>=-eq-ok
          (map_err (λ code. common (runtime code)) (t.invoke_transfer vault_sol destination amount))
          _ h2 in
      ((bytes_eq_iff _ _).0 derived, map_err-eq-ok _ _ paid)
