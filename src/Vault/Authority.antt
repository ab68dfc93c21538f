-- ===== src/Vault/Authority.antt =====
-- Whose signatures an instruction needs.
use recovery_guardian_contra.Vault.Granted.{initiate_granted, register_granted, resume_granted}
use recovery_guardian_contra.Prelude.Seen.{IsFresh, IsFresh-narrow}
use recovery_guardian_contra.Prelude.Int.{◌<ℤ◌, ℤ}
use recovery_guardian_contra.Verify.Soundness.{verify_detached_loaded}
use recovery_guardian_contra.Prelude.Results.{require-eq-ok, ok}
use mathlib.Core.Path.{ap}
use recovery_guardian_contra.Account.{VetoConfigAccount, config_to_veto, Vault}
use recovery_guardian_contra.Verify.Signatures.{verify_detached_sound, Precompile}
use recovery_guardian_contra.Veto.{Config, is_resume_member}
use recovery_guardian_contra.Vault.Context.{Effect, Intent, Transaction, Deployment}
use recovery_guardian_contra.Verify.{isize_max, verify_detached, Instruction, Sysvar}
use recovery_guardian_contra.Vault.Handlers.{
  intent_of, projected, is_idle, registration_of, resume_of, register, initiate_recovery,
  resume_recovery, check_signers,
}
use recovery_guardian_contra.Prelude.{
  ap, true, contains_iff, contains, not, ◌≤◌, length, AllDistinct, ◌≡◌, [], map, ◌∷◌, ℕ, ◌++◌, All,
  Has, Bytes, List,
}

pub check_signers_sound :
    (veto : Config) (seen signers : List Bytes)
    → check_signers veto seen signers ≡ ok tt
    → All (λ signer. Has veto.resume_members signer) signers
      × IsFresh seen signers
      × AllDistinct signers
unfolding check_signers is_resume_member
check_signers_sound veto seen [] h = (tt, tt, tt)
check_signers_sound veto seen (s ∷ signers) h =
    let (member, h1) = require-eq-ok (is_resume_member veto s) _ _ h in
    let (unseen, h2) = require-eq-ok (not (contains seen s)) _ _ h1 in
    let (members, fresh, distinct) = check_signers_sound veto (seen ++ (s ∷ [])) signers h2 in
    let (fresh', absent) = IsFresh-narrow seen s signers fresh in
    (
      ((contains_iff _ _).0 member, members),
      ((λ was. cc (rw ((contains_iff seen s).1 was) at unseen)), fresh'),
      (absent, distinct),
    )

-- What is assumed of the runtime: its precompile checks what it declares to have checked, and a
-- loaded instruction is a Rust value.
pub record IsRuntime (sysvar : Sysvar) (Signed : Bytes → Bytes → Type 0) : Type 0 where
  pub precompile : Precompile sysvar Signed
  pub payload_fits :
      (index : ℕ) (ix : Instruction)
      → sysvar.load_instruction index ≡ ok ix
      → length ix.payload ≤ isize_max

verified_signed :
    (sysvar : Sysvar) (Signed : Bytes → Bytes → Type 0) (index : ℕ)
    (expected : List (Bytes × Bytes))
    → IsRuntime sysvar Signed
    → verify_detached sysvar index expected ≡ ok tt
    → All (λ e. Signed e.0 e.1) expected
verified_signed sysvar Signed index expected real h =
    let (ix, loaded) = verify_detached_loaded sysvar index expected h in
    verify_detached_sound sysvar Signed index ix expected real.precompile loaded
      (real.payload_fits index ix loaded) h

All-map_pair :
    (Signed : Bytes → Bytes → Type 0) (digest : Bytes) (signers : List Bytes)
    → All (λ (e : Bytes × Bytes). Signed e.0 e.1) (map (λ signer. (signer, digest)) signers)
    → All (λ signer. Signed signer digest) signers
All-map_pair Signed digest [] h = tt
All-map_pair Signed digest (s ∷ signers) h = (h.0, All-map_pair Signed digest signers h.1)

module _ (deployment : Deployment) (t : Transaction) (Signed : Bytes → Bytes → Type 0)
    (real : IsRuntime t.sysvar Signed) (vault : Vault) where
  -- Given what the precompile checks: a resume that succeeds was given at least the threshold of
  -- signers, all distinct, all members of the quorum, and each has signed the vault's current
  -- resume digest.
  pub resume_needs_quorum :
      (signers : List Bytes) (index : ℕ) {after : Vault} {effect : Effect}
      → resume_recovery deployment t signers index vault ≡ ok (after, effect)
      → (vault.veto.resume_threshold ≤ length signers)
        × AllDistinct signers
        × All (λ signer. Has vault.veto.resume_members signer) signers
        × All (λ signer. Signed signer (resume_of deployment vault)) signers
  unfolding config_to_veto
  resume_needs_quorum signers index h =
      let (_, enough, checked, verified, _) = resume_granted deployment t vault signers index h in
      let (members, _, distinct) =
        check_signers_sound (config_to_veto vault.veto) [] signers checked in
      (
        enough,
        distinct,
        members,
        All-map_pair Signed (resume_of deployment vault) signers
            (verified_signed t.sysvar Signed index _ real verified),
      )

  -- Given what the precompile checks: a recovery that is opened has the recovery key's signature
  -- over the intent's digest, at a time before its expiry, for the vault's epoch and nonce, and
  -- while no attempt is open. The vault then commits to that digest.
  pub initiate_needs_recovery_key :
      (intent : Intent) (index : ℕ) {after : Vault} {effect : Effect}
      → initiate_recovery deployment t intent index vault ≡ ok (after, effect)
      → (now : ℤ) × (t.clock ≡ ok now)
        × (now <ℤ intent.expiry)
        × (intent.epoch ≡ vault.epoch)
        × (intent.nonce ≡ vault.nonce)
        × (is_idle (projected vault now).state ≡ true)
        × Signed vault.recovery_owner (intent_of deployment intent)
        × (after.intent_digest ≡ intent_of deployment intent)
  initiate_needs_recovery_key intent index h =
      let (now, clocked, _, fresh, epoch, nonce, idle, verified, done) =
        initiate_granted deployment t vault intent index h in
      (
        now,
        clocked,
        fresh,
        epoch,
        nonce,
        idle,
        (verified_signed t.sysvar Signed index _ real verified).0,
        ap (λ (v : Vault). v.intent_digest) done,
      )

  -- Given what the precompile checks: a registration that succeeds was made by the owner, has the
  -- new key's signature over the configuration under the vault's registration nonce, and came while
  -- no attempt was open. The vault then has that key and that configuration.
  pub register_needs_both :
      (owner key : Bytes) (veto : VetoConfigAccount) (nonce index : ℕ) {after : Vault}
      {effect : Effect}
      → register deployment t owner key veto nonce index vault ≡ ok (after, effect)
      → (now : ℤ) × (t.clock ≡ ok now)
        × (owner ≡ vault.owner)
        × Signed key (registration_of deployment vault key veto vault.config_nonce)
        × (is_idle (projected vault now).state ≡ true)
        × (after.recovery_owner ≡ key)
        × (after.veto ≡ veto)
  register_needs_both owner key veto nonce index h =
      let (now, clocked, by_owner, _, counted, idle, _, _, _, _, verified, done) =
        register_granted deployment t vault owner key veto nonce index h in
      (
        now,
        clocked,
        by_owner,
        rw (← counted) ((verified_signed t.sysvar Signed index _ real verified).0),
        idle,
        ap (λ (v : Vault). v.recovery_owner) done,
        ap (λ (v : Vault). v.veto) done,
      )
