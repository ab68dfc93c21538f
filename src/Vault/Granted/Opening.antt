-- ===== src/Vault/Granted/Opening.antt =====
-- What holds when a registration or an opening of a recovery succeeds.
use recovery_guardian_contra.Prelude.Words.{u64_saturating_add}
use recovery_guardian_contra.Verify.{verify_detached}
use recovery_guardian_contra.Validation.{validate}
use recovery_guardian_contra.Vault.Errors.{map_veto_error}
use recovery_guardian_contra.Prelude.Int.{ltb_ℤ, ◌<ℤ◌, ℤ}
use recovery_guardian_contra.Prelude.Results.{
  ok_injective, map_err-eq-ok, map_err, require-eq-ok, >>=-eq-ok, ok,
}
use recovery_guardian_contra.Prelude.{
  ltb→lt, ap, ==_iff, ◌==◌, contains_iff, contains, bytes_eq_iff, ◌&&◌, arith, bytes_eq, List, not,
  sym, [], ◌∷◌, Has, true, ℕ, Bytes, ◌≢◌, ◌≡◌,
}
use recovery_guardian_contra.Veto.{default_attempt, start}
use recovery_guardian_contra.Account.{VetoConfigAccount, attempt_from_veto, config_to_veto, Vault}
use recovery_guardian_contra.Vault.Context.{Intent, Effect, Deployment, Transaction}
use recovery_guardian_contra.Vault.Handlers.{
  intent_of, initiate_recovery, verified, registration_of, projected, is_idle, default_key,
  register, unix_timestamp,
}

not-bytes_eq : (a b : Bytes) → not (bytes_eq a b) ≡ true → a ≢ b
not-bytes_eq a b h = ground (arith, bytes_eq_iff a b)

role_free :
    (key pause_authority abort_authority : Bytes) (members : List Bytes)
    → (not (bytes_eq key pause_authority)
        && not (bytes_eq key abort_authority)
        && not (contains members key))
      ≡ true
    → (key ≢ pause_authority) × (key ≢ abort_authority) × (¬ (Has members key))
role_free key pause_authority abort_authority members h = ground (
  arith,
  bytes_eq_iff key pause_authority,
  bytes_eq_iff key abort_authority,
  contains_iff members key,
)

module _ (deployment : Deployment) (t : Transaction) (vault : Vault) {after : Vault}
    {effect : Effect} where
  pub register_granted :
      (owner recovery_owner : Bytes) (veto : VetoConfigAccount) (config_nonce index : ℕ)
      → register deployment t owner recovery_owner veto config_nonce index vault
        ≡ ok (after, effect)
      → (now : ℤ) × (t.clock ≡ ok now)
        × (owner ≡ vault.owner)
        × (recovery_owner ≢ default_key)
        × (config_nonce ≡ vault.config_nonce)
        × (is_idle (projected vault now).state ≡ true)
        × (validate (config_to_veto veto) ≡ ok tt)
        × (recovery_owner ≢ veto.pause_authority)
        × (recovery_owner ≢ veto.abort_authority)
        × (¬ (Has veto.resume_members recovery_owner))
        × (verify_detached t.sysvar index (
              (recovery_owner, registration_of deployment vault recovery_owner veto config_nonce)
              ∷ [])
            ≡ ok tt)
        × (after ≡ record vault {
          recovery_owner = recovery_owner;
          veto = veto;
          registered = true;
          config_nonce = u64_saturating_add vault.config_nonce 1;
        })
  unfolding register
  register_granted owner recovery_owner veto config_nonce index h =
      let (by_owner, h1) = require-eq-ok (bytes_eq owner vault.owner) _ _ h in
      let (named, h2) = require-eq-ok (not (bytes_eq recovery_owner default_key)) _ _ h1 in
      let (counted, h3) = require-eq-ok (config_nonce == vault.config_nonce) _ _ h2 in
      let (now, clocked, h4) = >>=-eq-ok (unix_timestamp t) _ h3 in
      let (idle, h5) = require-eq-ok (is_idle (projected vault now).state) _ _ h4 in
      let (_, valid, h6) =
        >>=-eq-ok (map_err map_veto_error (validate (config_to_veto veto))) _ h5 in
      let (apart, h7) =
        require-eq-ok
          (not (bytes_eq recovery_owner veto.pause_authority)
            && not (bytes_eq recovery_owner veto.abort_authority)
            && not (contains veto.resume_members recovery_owner))
          _ _ h6 in
      let (_, signed, done) =
        >>=-eq-ok
          (verified deployment t index (
            (recovery_owner, registration_of deployment vault recovery_owner veto config_nonce)
            ∷ []))
          _ h7 in
      let roles =
        role_free recovery_owner veto.pause_authority veto.abort_authority veto.resume_members
          apart in
      (
        now,
        map_err-eq-ok _ _ clocked,
        (bytes_eq_iff _ _).0 by_owner,
        not-bytes_eq _ _ named,
        (==_iff _ _).0 counted,
        idle,
        map_err-eq-ok _ _ valid,
        roles.0,
        roles.1,
        roles.2,
        map_err-eq-ok _ _ signed,
        sym (ap (λ (r : Vault × Effect). r.0) (ok_injective done)),
      )

  pub initiate_granted :
      (intent : Intent) (index : ℕ)
      → initiate_recovery deployment t intent index vault ≡ ok (after, effect)
      → (now : ℤ) × (t.clock ≡ ok now)
        × (vault.registered ≡ true)
        × (now <ℤ intent.expiry)
        × (intent.epoch ≡ vault.epoch)
        × (intent.nonce ≡ vault.nonce)
        × (is_idle (projected vault now).state ≡ true)
        × (verify_detached t.sysvar index ((vault.recovery_owner, intent_of deployment intent) ∷ [])
            ≡ ok tt)
        × (after ≡ record vault {
          attempt = attempt_from_veto (start default_attempt now);
          intent_digest = intent_of deployment intent;
          attempt_seq = u64_saturating_add vault.attempt_seq 1;
        })
  unfolding initiate_recovery
  initiate_granted intent index h =
      let (bound, h1) = require-eq-ok vault.registered _ _ h in
      let (named, h2) = require-eq-ok (not (bytes_eq intent.new_owner default_key)) _ _ h1 in
      let (now, clocked, h3) = >>=-eq-ok (unix_timestamp t) _ h2 in
      let (fresh, h4) = require-eq-ok (ltb_ℤ now intent.expiry) _ _ h3 in
      let (epoch, h5) = require-eq-ok (intent.epoch == vault.epoch) _ _ h4 in
      let (nonce, h6) = require-eq-ok (intent.nonce == vault.nonce) _ _ h5 in
      let (idle, h7) = require-eq-ok (is_idle (projected vault now).state) _ _ h6 in
      let (_, signed, done) =
        >>=-eq-ok
          (verified deployment t index ((vault.recovery_owner, intent_of deployment intent) ∷ [])) _
          h7 in
      (
        now,
        map_err-eq-ok _ _ clocked,
        bound,
        ltb→lt _ _ fresh,
        (==_iff _ _).0 epoch,
        (==_iff _ _).0 nonce,
        idle,
        map_err-eq-ok _ _ signed,
        sym (ap (λ (r : Vault × Effect). r.0) (ok_injective done)),
      )

  pub initiate_named :
      (intent : Intent) (index : ℕ)
      → initiate_recovery deployment t intent index vault ≡ ok (after, effect)
      → intent.new_owner ≢ default_key
  unfolding initiate_recovery
  initiate_named intent index h =
      let (_, h1) = require-eq-ok vault.registered _ _ h in
      let (named, _) = require-eq-ok (not (bytes_eq intent.new_owner default_key)) _ _ h1 in
      not-bytes_eq _ _ named
