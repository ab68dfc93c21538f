-- ===== src/Account/Fingerprint.antt =====
-- The commitment to a veto configuration, and the registration that carries it.
use recovery_guardian_contra.Digest.Binding.{registration_digest_binds}
use recovery_guardian_contra.Digest.Collision.{same_bytes, Collision}
use recovery_guardian_contra.Digest.{Hasher}
use recovery_guardian_contra.Prelude.Words.{IsU64}
use recovery_guardian_contra.Encoding.Injective.{
  u64_bytes_injective, concat_injective, length-to_le_bytes, to_le_bytes_injective, SameShape,
  append_split,
}
use recovery_guardian_contra.Encoding.{to_le_bytes, concat}
use recovery_guardian_contra.Prelude.{
  ap, inr, inl, ◌⊎◌, arith, ◌^◌, [], ◌<◌, ◌++◌, ◌%◌, ◌∷◌, All, length, ◌≡◌, Bytes, List,
}
use recovery_guardian_contra.Digest.Inputs.{
  registration_digest_of, IsRegistrationInput, RegistrationInput, IsKey,
}
use recovery_guardian_contra.Account.{
  fingerprint, Hasher, [], to_le_bytes, length, Bytes, List, VetoConfigAccount, fingerprint_parts,
}

-- The widths that the types of the source give, and fewer members than a `u32` counts.
pub record IsVetoConfig (veto : VetoConfigAccount) : Type 0 where
  pub pause_key : IsKey veto.pause_authority
  pub abort_key : IsKey veto.abort_authority
  pub member_keys : All IsKey veto.resume_members
  pub counted : length veto.resume_members < 2 ^ 32
  pub timelock_word : IsU64 veto.timelock_seconds
  pub ceiling_word : IsU64 veto.pause_ceiling_seconds

-- What follows the members.
abbrev settings : VetoConfigAccount → List Bytes
settings veto =
    (veto.resume_threshold ∷ [])
    ∷ to_le_bytes 8 veto.timelock_seconds
    ∷ to_le_bytes 8 veto.pause_ceiling_seconds
    ∷ []

abbrev count_bytes : VetoConfigAccount → Bytes
count_bytes veto = to_le_bytes 4 (length veto.resume_members % 2 ^ 32)

SameShape-members :
    (xs ys us vs : List Bytes)
    → All IsKey xs
    → All IsKey ys
    → length xs ≡ length ys
    → SameShape us vs
    → SameShape (xs ++ us) (ys ++ vs)
SameShape-members [] [] us vs kx ky l s = s
SameShape-members [] (y ∷ ys) us vs kx ky l s = absurd (omega arith)
SameShape-members (x ∷ xs) [] us vs kx ky l s = absurd (omega arith)
SameShape-members (x ∷ xs) (y ∷ ys) us vs kx ky l s =
    (omega arith, SameShape-members xs ys us vs kx.1 ky.1 (omega arith) s)

module _ (a b : VetoConfigAccount) (fa : IsVetoConfig a) (fb : IsVetoConfig b) where
  same_count : count_bytes a ≡ count_bytes b → length a.resume_members ≡ length b.resume_members
  same_count h =
      let na = length a.resume_members in
      let nb = length b.resume_members in
      let e : na % 2 ^ 32 ≡ nb % 2 ^ 32 =
        to_le_bytes_injective 4 (na % 2 ^ 32) (nb % 2 ^ 32) (omega arith) (omega arith) h in
      omega (arith, e, fa.counted, fb.counted)

  same_settings :
      length a.resume_members ≡ length b.resume_members
      → concat (a.resume_members ++ settings a) ≡ concat (b.resume_members ++ settings b)
      → (a.resume_members ≡ b.resume_members) × (settings a ≡ settings b)
  same_settings l h =
      let shape =
        SameShape-members a.resume_members b.resume_members (settings a) (settings b) fa.member_keys
          fb.member_keys l (omega (arith, length-to_le_bytes)) in
      append_split a.resume_members b.resume_members (settings a) (settings b) l
        (concat_injective _ _ shape h)

  -- The bytes that are hashed determine the configuration.
  fingerprint_parts_injective : concat (fingerprint_parts a) ≡ concat (fingerprint_parts b) → a ≡ b
  unfolding fingerprint_parts concat
  fingerprint_parts_injective h =
      let (pause, h1) =
        append_split a.pause_authority b.pause_authority _ _
          (omega (arith, fa.pause_key, fb.pause_key)) h in
      let (aborter, h2) =
        append_split a.abort_authority b.abort_authority _ _
          (omega (arith, fa.abort_key, fb.abort_key)) h1 in
      let (count, h3) =
        append_split (count_bytes a) (count_bytes b) _ _ (omega (arith, length-to_le_bytes)) h2 in
      let (members, set) = same_settings (same_count count) h3 in
      ground (
        arith,
        u64_bytes_injective a.timelock_seconds b.timelock_seconds,
        u64_bytes_injective a.pause_ceiling_seconds b.pause_ceiling_seconds,
        fa.timelock_word,
        fb.timelock_word,
        fa.ceiling_word,
        fb.ceiling_word,
      )

module _ (hasher : Hasher) where
  fingerprint_binds :
      (a b : VetoConfigAccount)
      → IsVetoConfig a
      → IsVetoConfig b
      → fingerprint hasher a ≡ fingerprint hasher b
      → (a ≡ b) ⊎ Collision hasher
  unfolding fingerprint
  fingerprint_binds a b fa fb h =
      elim (same_bytes hasher (fingerprint_parts a) (fingerprint_parts b) h) [
        | inl e ↦ inl (fingerprint_parts_injective a b fa fb e)
        | inr c ↦ inr c
      ]

  -- The registration for a whole configuration, as the vault program makes it.
  abbrev pub registration_for : RegistrationInput → VetoConfigAccount → RegistrationInput
  registration_for i veto = record i { veto_fingerprint = fingerprint hasher veto }

  registration_for-sized :
      (i : RegistrationInput) (veto : VetoConfigAccount)
      → IsRegistrationInput i
      → IsRegistrationInput (registration_for i veto)
  unfolding fingerprint
  registration_for-sized i veto w = record {
    program_key = w.program_key;
    vault_key = w.vault_key;
    owner_key = w.owner_key;
    recovery_key = w.recovery_key;
    fingerprint_key = hasher.length-hashv (fingerprint_parts veto);
    nonce_word = w.nonce_word;
  }

  -- If two registration digests, each over the fingerprint of a veto configuration, are equal for
  -- inputs and configurations of their Rust widths with fewer than `2 ^ 32` members, then both the
  -- inputs and the configurations are equal, or a collision of the hash function is exhibited.
  pub registration_binds_veto :
      (i j : RegistrationInput) (a b : VetoConfigAccount)
      → IsRegistrationInput i
      → IsRegistrationInput j
      → IsVetoConfig a
      → IsVetoConfig b
      → registration_digest_of hasher (registration_for i a)
        ≡ registration_digest_of hasher (registration_for j b)
      → ((registration_for i a ≡ registration_for j b) × (a ≡ b)) ⊎ Collision hasher
  registration_binds_veto i j a b wi wj fa fb h =
      elim (registration_digest_binds hasher (registration_for i a) (registration_for j b)
        (registration_for-sized i a wi) (registration_for-sized j b wj) h) [
          | inr c ↦ inr c
          | inl e ↦
              elim (fingerprint_binds a b fa fb
                (ap (λ (r : RegistrationInput). r.veto_fingerprint) e)) [
                  | inr c ↦ inr c
                  | inl same ↦ inl (e, same)
                ]
        ]
