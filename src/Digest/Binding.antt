-- ===== src/Digest/Binding.antt =====
-- What each digest of digest.rs is made of, and whether two inputs can share one.
use recovery_guardian_contra.Digest.Collision.{same_config, same_parts, Collision}
use recovery_guardian_contra.Digest.Inputs.{
  resume_digest_of, registration_digest_of, intent_digest_of, IsResumeInput, IsRegistrationInput,
  IsIntentInput, ResumeInput, RegistrationInput, IntentInput,
}
use recovery_guardian_contra.Encoding.Injective.{
  i64_word_injective, i64_word-lt, u64_bytes_injective, length-to_le_bytes, SameShape,
}
use recovery_guardian_contra.Encoding.{i64_word}
use recovery_guardian_contra.Cluster.{cluster_tag_injective, length-cluster_tag}
use recovery_guardian_contra.Prelude.{inr, inl, arith, [], ◌⊎◌, ◌∷◌, ◌≡◌}
use recovery_guardian_contra.Digest.{
  i64_word, resume_parts, registration_parts, [], intent_parts, resume_digest, registration_digest,
  intent_digest, Hasher,
}

module _ (hasher : Hasher) where
  intent_shape :
      (i j : IntentInput)
      → IsIntentInput i
      → IsIntentInput j
      → SameShape
          (intent_parts hasher i.cluster i.program_id i.vault i.epoch i.nonce i.new_owner
            i.new_owner_config i.expiry)
          (intent_parts hasher j.cluster j.program_id j.vault j.epoch j.nonce j.new_owner
            j.new_owner_config j.expiry)
  unfolding intent_parts
  intent_shape i j wi wj =
      omega (arith, length-cluster_tag, length-to_le_bytes, hasher.length-hashv)

  intent_parts_injective :
      (i j : IntentInput)
      → IsIntentInput i
      → IsIntentInput j
      → i.new_owner_config ≡ j.new_owner_config
      → intent_parts hasher i.cluster i.program_id i.vault i.epoch i.nonce i.new_owner
          i.new_owner_config i.expiry
        ≡ intent_parts hasher j.cluster j.program_id j.vault j.epoch j.nonce j.new_owner
            j.new_owner_config j.expiry
      → i ≡ j
  unfolding intent_parts
  intent_parts_injective i j wi wj same e = ground (
    arith,
    cluster_tag_injective i.cluster j.cluster,
    u64_bytes_injective i.epoch j.epoch,
    u64_bytes_injective i.nonce j.nonce,
    u64_bytes_injective (i64_word i.expiry) (i64_word j.expiry),
    i64_word-lt i.expiry,
    i64_word-lt j.expiry,
    i64_word_injective i.expiry j.expiry,
  )

  intent_config_hash :
      (i j : IntentInput)
      → intent_parts hasher i.cluster i.program_id i.vault i.epoch i.nonce i.new_owner
          i.new_owner_config i.expiry
        ≡ intent_parts hasher j.cluster j.program_id j.vault j.epoch j.nonce j.new_owner
            j.new_owner_config j.expiry
      → hasher.hashv (i.new_owner_config ∷ []) ≡ hasher.hashv (j.new_owner_config ∷ [])
  unfolding intent_parts
  intent_config_hash i j e = cc

  -- If two intent digests over inputs of their Rust widths are equal, then the inputs are equal in
  -- every field, or a collision of the hash function is exhibited.
  pub intent_digest_binds :
      (i j : IntentInput)
      → IsIntentInput i
      → IsIntentInput j
      → intent_digest_of hasher i ≡ intent_digest_of hasher j
      → (i ≡ j) ⊎ Collision hasher
  unfolding intent_digest
  intent_digest_binds i j wi wj h = elim (same_parts hasher _ _ (intent_shape i j wi wj) h) [
    | inr c ↦ inr c
    | inl e ↦ elim (same_config hasher _ _ (intent_config_hash i j e)) [
      | inr c ↦ inr c
      | inl same ↦ inl (intent_parts_injective i j wi wj same e)
    ]
  ]

  registration_binding :
      (i j : RegistrationInput)
      → IsRegistrationInput i
      → IsRegistrationInput j
      → let xs =
          registration_parts hasher i.cluster i.program_id i.vault i.owner i.recovery_owner
            i.veto_fingerprint i.config_nonce in
        let ys =
          registration_parts hasher j.cluster j.program_id j.vault j.owner j.recovery_owner
            j.veto_fingerprint j.config_nonce in
        SameShape xs ys × (xs ≡ ys → i ≡ j)
  unfolding registration_parts
  registration_binding i j wi wj = (
    omega (arith, length-cluster_tag, length-to_le_bytes),
    λ e. ground (
      arith,
      cluster_tag_injective i.cluster j.cluster,
      u64_bytes_injective i.config_nonce j.config_nonce,
    ),
  )

  -- If two registration digests over inputs of their Rust widths are equal, then the inputs are
  -- equal in every field, or a collision of the hash function is exhibited.
  pub registration_digest_binds :
      (i j : RegistrationInput)
      → IsRegistrationInput i
      → IsRegistrationInput j
      → registration_digest_of hasher i ≡ registration_digest_of hasher j
      → (i ≡ j) ⊎ Collision hasher
  unfolding registration_digest
  registration_digest_binds i j wi wj h =
      let (shape, equal) = registration_binding i j wi wj in
      elim (same_parts hasher _ _ shape h) [ inr c ↦ inr c | inl e ↦ inl (equal e) ]

  resume_binding :
      (i j : ResumeInput)
      → IsResumeInput i
      → IsResumeInput j
      → let xs = resume_parts hasher i.cluster i.program_id i.vault i.intent_digest i.attempt_seq in
        let ys = resume_parts hasher j.cluster j.program_id j.vault j.intent_digest j.attempt_seq in
        SameShape xs ys × (xs ≡ ys → i ≡ j)
  unfolding resume_parts
  resume_binding i j wi wj = (
    omega (arith, length-cluster_tag, length-to_le_bytes),
    λ e. ground (
      arith,
      cluster_tag_injective i.cluster j.cluster,
      u64_bytes_injective i.attempt_seq j.attempt_seq,
    ),
  )

  -- If two resume digests over inputs of their Rust widths are equal, then the inputs are equal in
  -- every field, or a collision of the hash function is exhibited.
  pub resume_digest_binds :
      (i j : ResumeInput)
      → IsResumeInput i
      → IsResumeInput j
      → resume_digest_of hasher i ≡ resume_digest_of hasher j
      → (i ≡ j) ⊎ Collision hasher
  unfolding resume_digest
  resume_digest_binds i j wi wj h =
      let (shape, equal) = resume_binding i j wi wj in
      elim (same_parts hasher _ _ shape h) [ inr c ↦ inr c | inl e ↦ inl (equal e) ]
