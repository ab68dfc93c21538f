-- ===== src/Digest/Domains.antt =====
-- The domain separation of the three digests of digest.rs.
use recovery_guardian_contra.Digest.Collision.{same_bytes, Collision}
use recovery_guardian_contra.Prelude.{inr, arith, inl, ◌⊎◌, ◌≡◌}
use recovery_guardian_contra.Digest.Inputs.{
  resume_digest_of, ResumeInput, intent_digest_of, registration_digest_of, IntentInput,
  RegistrationInput,
}
use recovery_guardian_contra.Encoding.{to_le_bytes, concat}
use recovery_guardian_contra.Digest.{
  resume_parts, resume_digest, ◌≡◌, to_le_bytes, length_prefixed, intent_parts, intent_digest,
  registration_parts, registration_digest, Hasher,
}

module _ (hasher : Hasher) where
  -- A registration digest that is also an intent digest is a collision.
  register_intent_apart :
      (i : RegistrationInput) (j : IntentInput)
      → registration_digest_of hasher i ≡ intent_digest_of hasher j
      → Collision hasher
  unfolding registration_digest registration_parts intent_digest intent_parts concat length_prefixed
      to_le_bytes
  register_intent_apart i j h = elim (same_bytes hasher _ _ h) [ inl e ↦ ground arith | inr c ↦ c ]

  register_resume_apart :
      (i : RegistrationInput) (k : ResumeInput)
      → registration_digest_of hasher i ≡ resume_digest_of hasher k
      → Collision hasher
  unfolding registration_digest registration_parts resume_digest resume_parts concat length_prefixed
      to_le_bytes
  register_resume_apart i k h = elim (same_bytes hasher _ _ h) [ inl e ↦ ground arith | inr c ↦ c ]

  intent_resume_apart :
      (j : IntentInput) (k : ResumeInput)
      → intent_digest_of hasher j ≡ resume_digest_of hasher k
      → Collision hasher
  unfolding intent_digest intent_parts resume_digest resume_parts concat length_prefixed to_le_bytes
  intent_resume_apart j k h = elim (same_bytes hasher _ _ h) [ inl e ↦ ground arith | inr c ↦ c ]

  -- If two of a registration, an intent and a resume digest are equal, for whatever inputs, then a
  -- collision of the hash function is exhibited.
  pub domains_disjoint :
      (i : RegistrationInput) (j : IntentInput) (k : ResumeInput)
      → (registration_digest_of hasher i ≡ intent_digest_of hasher j)
        ⊎ (registration_digest_of hasher i ≡ resume_digest_of hasher k)
        ⊎ (intent_digest_of hasher j ≡ resume_digest_of hasher k)
      → Collision hasher
  domains_disjoint i j k (inl h) = register_intent_apart i j h
  domains_disjoint i j k (inr (inl h)) = register_resume_apart i k h
  domains_disjoint i j k (inr (inr h)) = intent_resume_apart j k h
