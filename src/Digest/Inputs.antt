-- ===== src/Digest/Inputs.antt =====
-- The inputs of each digest as one record, with the widths that the types of the source give.
use recovery_guardian_contra.Prelude.Int.{ℤ, IsI64}
use recovery_guardian_contra.Prelude.Words.{IsU64}
use recovery_guardian_contra.Cluster.{Cluster}
use recovery_guardian_contra.Prelude.{◌≡◌, ℕ, length, Bytes}
use recovery_guardian_contra.Digest.{
  ℤ, ℕ, length, resume_digest, registration_digest, intent_digest, Hasher,
}

-- A 32-byte value: a public key or a digest.
abbrev pub IsKey : Bytes → Type 0
IsKey key = length key ≡ 32

pub record IntentInput : Type 0 where
  pub cluster : Cluster
  pub program_id : Bytes
  pub vault : Bytes
  pub epoch : ℕ
  pub nonce : ℕ
  pub new_owner : Bytes
  pub new_owner_config : Bytes
  pub expiry : ℤ

pub record RegistrationInput : Type 0 where
  pub cluster : Cluster
  pub program_id : Bytes
  pub vault : Bytes
  pub owner : Bytes
  pub recovery_owner : Bytes
  pub veto_fingerprint : Bytes
  pub config_nonce : ℕ

pub record ResumeInput : Type 0 where
  pub cluster : Cluster
  pub program_id : Bytes
  pub vault : Bytes
  pub intent_digest : Bytes
  pub attempt_seq : ℕ

-- The widths that the types of the source give: 32-byte keys, `u64` counters and an `i64` time.
pub record IsIntentInput (i : IntentInput) : Type 0 where
  pub program_key : IsKey i.program_id
  pub vault_key : IsKey i.vault
  pub epoch_word : IsU64 i.epoch
  pub nonce_word : IsU64 i.nonce
  pub owner_key : IsKey i.new_owner
  pub expiry_word : IsI64 i.expiry

pub record IsRegistrationInput (i : RegistrationInput) : Type 0 where
  pub program_key : IsKey i.program_id
  pub vault_key : IsKey i.vault
  pub owner_key : IsKey i.owner
  pub recovery_key : IsKey i.recovery_owner
  pub fingerprint_key : IsKey i.veto_fingerprint
  pub nonce_word : IsU64 i.config_nonce

pub record IsResumeInput (i : ResumeInput) : Type 0 where
  pub program_key : IsKey i.program_id
  pub vault_key : IsKey i.vault
  pub digest_key : IsKey i.intent_digest
  pub seq_word : IsU64 i.attempt_seq

module _ (hasher : Hasher) where
  abbrev pub intent_digest_of : IntentInput → Bytes
  intent_digest_of i =
      intent_digest hasher i.cluster i.program_id i.vault i.epoch i.nonce i.new_owner
        i.new_owner_config i.expiry

  abbrev pub registration_digest_of : RegistrationInput → Bytes
  registration_digest_of i =
      registration_digest hasher i.cluster i.program_id i.vault i.owner i.recovery_owner
        i.veto_fingerprint i.config_nonce

  abbrev pub resume_digest_of : ResumeInput → Bytes
  resume_digest_of i =
      resume_digest hasher i.cluster i.program_id i.vault i.intent_digest i.attempt_seq
