-- ===== src/Digest.antt =====
-- What a signature commits to: solana/crates/nihilium-recovery-common/src/digest.rs.
pub mod Inputs
pub mod Collision
pub mod Binding
pub mod Domains
mod Tests
use recovery_guardian_contra.Prelude.Int.{ℤ}
use recovery_guardian_contra.Encoding.{i64_word, to_le_bytes, codes}
use recovery_guardian_contra.Cluster.{cluster_tag, Cluster}
use recovery_guardian_contra.Prelude.{◌++◌, [], ◌^◌, ◌∷◌, ◌%◌, ◌≡◌, ℕ, length, Bytes, List}

-- `hashv` of the Solana SDK, which is SHA-256 of the concatenation. Only what the documentation says
-- of its type is assumed: the digest has 32 bytes.
pub record Hasher : Type 0 where
  pub hashv : List Bytes → Bytes
  pub length-hashv : (parts : List Bytes) → length (hashv parts) ≡ 32

abbrev pub domain_register : Bytes
domain_register = codes "nihilium-recovery-solana-register-v1"

abbrev pub domain_intent : Bytes
domain_intent = codes "nihilium-recovery-solana-intent-v1"

abbrev pub domain_resume : Bytes
domain_resume = codes "nihilium-recovery-solana-resume-v1"

unfoldable pub length_prefixed : Bytes → Bytes
length_prefixed value = to_le_bytes 4 (length value % 2 ^ 32) ++ value

module _ (hasher : Hasher) (cluster : Cluster) where
  open hasher use {hashv}

  -- The parts that each digest hashes.
  pub registration_parts : Bytes → Bytes → Bytes → Bytes → Bytes → ℕ → List Bytes
  registration_parts program_id vault owner recovery_owner veto_fingerprint config_nonce =
      length_prefixed domain_register
      ∷ cluster_tag cluster
      ∷ program_id
      ∷ vault
      ∷ owner
      ∷ recovery_owner
      ∷ veto_fingerprint
      ∷ to_le_bytes 8 config_nonce
      ∷ []

  unfoldable pub registration_digest : Bytes → Bytes → Bytes → Bytes → Bytes → ℕ → Bytes
  unfolding registration_parts
  registration_digest program_id vault owner recovery_owner veto_fingerprint config_nonce =
      hashv (registration_parts program_id vault owner recovery_owner veto_fingerprint config_nonce)

  pub intent_parts : Bytes → Bytes → ℕ → ℕ → Bytes → Bytes → ℤ → List Bytes
  intent_parts program_id vault epoch nonce new_owner new_owner_config expiry =
      let config_hash = hashv (new_owner_config ∷ []) in
      length_prefixed domain_intent
      ∷ cluster_tag cluster
      ∷ program_id
      ∷ vault
      ∷ to_le_bytes 8 epoch
      ∷ to_le_bytes 8 nonce
      ∷ new_owner
      ∷ config_hash
      ∷ to_le_bytes 8 (i64_word expiry)
      ∷ []

  unfoldable pub intent_digest : Bytes → Bytes → ℕ → ℕ → Bytes → Bytes → ℤ → Bytes
  unfolding intent_parts
  intent_digest program_id vault epoch nonce new_owner new_owner_config expiry =
      hashv (intent_parts program_id vault epoch nonce new_owner new_owner_config expiry)

  pub resume_parts : Bytes → Bytes → Bytes → ℕ → List Bytes
  resume_parts program_id vault intent_digest attempt_seq =
      length_prefixed domain_resume
      ∷ cluster_tag cluster
      ∷ program_id
      ∷ vault
      ∷ intent_digest
      ∷ to_le_bytes 8 attempt_seq
      ∷ []

  unfoldable pub resume_digest : Bytes → Bytes → Bytes → ℕ → Bytes
  unfolding resume_parts
  resume_digest program_id vault intent_digest attempt_seq =
      hashv (resume_parts program_id vault intent_digest attempt_seq)
