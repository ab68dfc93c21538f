-- ===== src/Client/Quorum.antt =====
-- The client, the verifier and the vault together: a quorum that signs with the client's packer.
use recovery_guardian_contra.Verify.{verify_detached}
use mathlib.Core.Path.{subst}
use recovery_guardian_contra.Vault.Steps.{resuming, run_call}
use recovery_guardian_contra.Veto.{State}
use recovery_guardian_contra.Vault.Handlers.{resume_of, projected}
use recovery_guardian_contra.Prelude.Results.{ok}
use recovery_guardian_contra.Prelude.Int.{ℤ}
use recovery_guardian_contra.Account.{Vault}
use recovery_guardian_contra.Digest.Inputs.{IsKey}
use recovery_guardian_contra.Vault.Context.{Effect, Transaction, Deployment}
use recovery_guardian_contra.Digest.{resume_digest}
use recovery_guardian_contra.Prelude.{
  some, ◌≤◌, Has, AllDistinct, true, ℕ, refl, ap, [], ◌∷◌, All, ◌≡◌, length, map, Bytes, List,
}
use recovery_guardian_contra.Client.{Entry, sign_all}
use recovery_guardian_contra.Client.Packing.{IsEntry}
use recovery_guardian_contra.Client.RoundTrip.{expected_of}
use recovery_guardian_contra.Client.Total.{verify_detached-pack}
use recovery_guardian_contra.Vault.Allowed.Exact.{run_call_iff}

-- The public keys of the signers.
abbrev pub public_keys : List (Bytes × Bytes) → List Bytes
public_keys signers = map (λ (s : Bytes × Bytes). s.0) signers

-- The entries that `signAll` packs.
abbrev entries_of : (Bytes → Bytes → Bytes) → List (Bytes × Bytes) → Bytes → List Entry
entries_of detached signers message =
    map
      (λ (public_key, secret_key). record {
        public_key = public_key;
        signature = detached message secret_key;
        message = message;
      })
      signers

module _ (detached : Bytes → Bytes → Bytes) (message : Bytes)
    (signs : (m k : Bytes) → length (detached m k) ≡ 64) (sized : length message ≡ 32) where
  entries_fit :
      (signers : List (Bytes × Bytes))
      → All IsKey (public_keys signers)
      → All IsEntry (entries_of detached signers message)
  entries_fit [] keys = tt
  entries_fit ((public_key, secret_key) ∷ signers) keys = (
    record {
      key_sized = keys.0;
      signature_sized = signs message secret_key;
      message_sized = sized;
    },
    entries_fit signers keys.1,
  )

expected-entries_of :
    (detached : Bytes → Bytes → Bytes) (message : Bytes) (signers : List (Bytes × Bytes))
    → expected_of (entries_of detached signers message)
      ≡ map (λ signer. (signer, message)) (public_keys signers)
expected-entries_of detached message [] = refl
expected-entries_of detached message ((public_key, secret_key) ∷ signers) =
    ap (λ rest. (public_key, message) ∷ rest) (expected-entries_of detached message signers)

-- Let the attempt of a registered vault be paused at the clock, and let distinct quorum members
-- with 32-byte keys, at least the threshold, sign the current resume digest with a function that
-- gives 64 bytes. If the client packs their signatures, and that instruction is loaded at the
-- index, then the resume succeeds.
pub quorum_lifts_pause :
    (deployment : Deployment) (t : Transaction) (vault : Vault) (now : ℤ)
    (detached : Bytes → Bytes → Bytes) (signers : List (Bytes × Bytes)) (index : ℕ)
    {payload : Bytes}
    → ((m k : Bytes) → length (detached m k) ≡ 64)
    → vault.registered ≡ true
    → t.clock ≡ ok now
    → (projected vault now).state ≡ State.paused
    → All IsKey (public_keys signers)
    → AllDistinct (public_keys signers)
    → All (λ key. Has vault.veto.resume_members key) (public_keys signers)
    → vault.veto.resume_threshold ≤ length (public_keys signers)
    → sign_all detached signers (resume_of deployment vault) ≡ some payload
    → t.sysvar.load_instruction index
      ≡ ok (record { program_id = t.sysvar.ed25519_id; payload = payload })
    → (after : Vault) × (effect : Effect) × (run_call deployment t
          (resuming (public_keys signers) index)
          vault
        ≡ ok (after, effect))
unfolding sign_all resume_digest
quorum_lifts_pause deployment t vault now detached signers index signs bound clocked paused keys
      distinct members enough packed loaded =
    let message = resume_of deployment vault in
    let fit = entries_fit detached message signs (deployment.hasher.length-hashv _) signers keys in
    let carried =
      subst (λ expected. verify_detached t.sysvar index expected ≡ ok tt)
        (expected-entries_of detached message signers)
        (verify_detached-pack t.sysvar index (entries_of detached signers message) packed fit
          loaded) in
    let ((after, effect), ran) =
      (run_call_iff deployment t vault (resuming (public_keys signers) index)).1
        (bound, enough, members, distinct, carried, (now, clocked, paused)) in
    (after, effect, ran)
