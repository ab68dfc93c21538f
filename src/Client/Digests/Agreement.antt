-- ===== src/Client/Digests/Agreement.antt =====
-- The client's digests beside those of the program.
use recovery_guardian_contra.Encoding.{to_le_bytes, i64_word}
use recovery_guardian_contra.Client.{◌>>=◌}
use recovery_guardian_contra.Cluster.{Cluster, mainnet}
use recovery_guardian_contra.Cluster
use recovery_guardian_contra.Digest
use recovery_guardian_contra.Digest.{Hasher}
use recovery_guardian_contra.Account.{fingerprint}
use recovery_guardian_contra.Client.Digests.{
  ClusterName, localnet, devnet, mainnet_beta, cluster_tag, u32, u64, i64, uint8, length_prefixed,
  VetoConfig, Intent, Digests, veto_fingerprint, registration_digest_with, intent_digest_with,
  resume_digest_with, digests_for,
}
use recovery_guardian_contra.Prelude.Int.{ℤ, pos, negsuc}
use recovery_guardian_contra.Prelude.Words.{u64_max, i64_max}
use recovery_guardian_contra.Prelude.{
  ℕ, ◌+◌, ◌-◌, ◌*◌, ◌/◌, ◌≡◌, ◌^◌, List, [], ◌∷◌, Bytes, length, leb, ltb, ◌%◌, Option, some,
  if◌then◌else◌, refl, ap, arith, inl, inr, Bool-cases, Option-cases,
}

abbrev pub cluster_of : ClusterName → Cluster
cluster_of localnet = Cluster.localnet
cluster_of devnet = Cluster.devnet
cluster_of mainnet_beta = mainnet

-- The numbers that the program's types hold.
abbrev pub as_u64 : ℤ → Option ℕ
as_u64 (pos n) = if leb n u64_max then some n else Option.none
as_u64 (negsuc n) = Option.none

abbrev pub as_i64 : ℤ → Option ℤ
as_i64 (pos n) = if leb n i64_max then some (pos n) else Option.none
as_i64 (negsuc n) = if leb n i64_max then some (negsuc n) else Option.none

cluster_tag_agrees :
    (cluster : ClusterName) → cluster_tag cluster ≡ some (Cluster.cluster_tag (cluster_of cluster))
unfolding cluster_tag Cluster.cluster_tag
cluster_tag_agrees localnet = refl
cluster_tag_agrees devnet = refl
cluster_tag_agrees mainnet_beta = refl

u64_agrees : (value : ℤ) → u64 value ≡ (as_u64 value >>= λ n. some (to_le_bytes 8 n))
unfolding u64
u64_agrees (pos n) = ground arith
u64_agrees (negsuc n) = refl

-- The length of a JavaScript array fits.
abbrev pub as_u32 : ℕ → Option ℕ
as_u32 n = if ltb n (2 ^ 32) then some n else Option.none

u32_agrees : (value : ℕ) → u32 value ≡ (as_u32 value >>= λ n. some (to_le_bytes 4 n))
unfolding u32
u32_agrees value = ground arith

as_u32-eq-some : (value : ℕ) {n : ℕ} → as_u32 value ≡ some n → n ≡ value % 2 ^ 32
as_u32-eq-some value e = ground arith

-- The remainder of a whole number by 256.
abbrev pub remainder_256 : ℤ → ℕ
remainder_256 (pos n) = n % 256
remainder_256 (negsuc n) = 256 * (n / 256 + 1) - (n + 1)

uint8_agrees : (value : ℤ) → uint8 value ≡ remainder_256 value
unfolding uint8
uint8_agrees (pos n) = refl
uint8_agrees (negsuc n) = omega arith

i64_agrees : (value : ℤ) → i64 value ≡ (as_i64 value >>= λ n. some (to_le_bytes 8 (i64_word n)))
unfolding i64
i64_agrees (pos n) = ground arith
i64_agrees (negsuc n) = ground arith

module _ (hasher : Hasher) (cluster : Cluster) where
  -- The digest of an intent whose numbers the program's types hold.
  abbrev pub intent_digest_of : Bytes → Bytes → Intent → Option Bytes
  intent_digest_of program_id vault intent = do
    epoch ← as_u64 intent.epoch
    nonce ← as_u64 intent.nonce
    expiry ← as_i64 intent.expiry
    some (
        Digest.intent_digest hasher cluster program_id vault epoch nonce intent.new_owner
          intent.new_owner_config expiry)

module _ (hasher : Hasher) where
  -- The fingerprint of the account that the client's configuration becomes. Its threshold is reduced to
  -- a byte, without an exception.
  abbrev pub fingerprint_of : VetoConfig → Option Bytes
  fingerprint_of veto = do
    count ← as_u32 (length veto.resume_members)
    timelock_seconds ← as_u64 veto.timelock_seconds
    pause_ceiling_seconds ← as_u64 veto.pause_ceiling_seconds
    some (
        fingerprint hasher (record {
          pause_authority = veto.pause_authority;
          abort_authority = veto.abort_authority;
          resume_members = veto.resume_members;
          resume_threshold = remainder_256 veto.resume_threshold;
          timelock_seconds = timelock_seconds;
          pause_ceiling_seconds = pause_ceiling_seconds;
        }))

module _ (hasher : Hasher) (sha256 : List Bytes → Bytes)
    (same : (parts : List Bytes) → sha256 parts ≡ hasher.hashv parts) (cluster : Cluster) where
  resume_lem :
      (program_id vault intent_digest : Bytes) (attempt_seq : ℤ)
      → resume_digest_with sha256
          (Cluster.cluster_tag cluster)
          program_id
          vault
          intent_digest
          attempt_seq
        ≡ (as_u64 attempt_seq >>= λ seq.
            some (Digest.resume_digest hasher cluster program_id vault intent_digest seq))
  unfolding resume_digest_with Digest.resume_digest length_prefixed Digest.length_prefixed u64
  resume_lem program_id vault intent_digest (negsuc n) = refl
  resume_lem program_id vault intent_digest (pos n) = elim (Bool-cases (leb n u64_max)) [
    | inl e ↦ rw e (ap (λ d. some d) (same _))
    | inr e ↦ rw e
  ]

  registration_lem :
      (program_id vault owner recovery_owner fingerprint : Bytes) (config_nonce : ℤ)
      → registration_digest_with sha256
          (Cluster.cluster_tag cluster)
          program_id
          vault
          owner
          recovery_owner
          fingerprint
          config_nonce
        ≡ (as_u64 config_nonce >>= λ nonce. some (
            Digest.registration_digest hasher cluster program_id vault owner recovery_owner
              fingerprint nonce))
  unfolding registration_digest_with Digest.registration_digest length_prefixed
      Digest.length_prefixed u64
  registration_lem program_id vault owner recovery_owner fingerprint (negsuc n) = refl
  registration_lem program_id vault owner recovery_owner fingerprint (pos n) =
      elim (Bool-cases (leb n u64_max)) [ inl e ↦ rw e (ap (λ d. some d) (same _)) | inr e ↦ rw e ]

  intent_lem :
      (program_id vault : Bytes) (intent : Intent)
      → intent_digest_with sha256 (Cluster.cluster_tag cluster) program_id vault intent
        ≡ intent_digest_of hasher cluster program_id vault intent
  unfolding intent_digest_with Digest.intent_digest length_prefixed Digest.length_prefixed
  intent_lem program_id vault intent =
      rw (u64_agrees intent.epoch, u64_agrees intent.nonce, i64_agrees intent.expiry)
        (elim (Option-cases (as_u64 intent.epoch)) [
          | inl e ↦ rw e
          | inr (epoch, e) ↦ rw e (elim (Option-cases (as_u64 intent.nonce)) [
            | inl e1 ↦ rw e1
            | inr (nonce, e1) ↦ rw e1 (elim (Option-cases (as_i64 intent.expiry)) [
              | inl e2 ↦ rw e2
              | inr (expiry, e2) ↦
                  rw e2 (ap (λ d. some d) (rw (same (intent.new_owner_config ∷ [])) (same _)))
            ])
          ])
        ])

  fingerprint_lem : (veto : VetoConfig) → veto_fingerprint sha256 veto ≡ fingerprint_of hasher veto
  unfolding veto_fingerprint fingerprint
  fingerprint_lem veto =
      rw
        (
          u32_agrees (length veto.resume_members),
          u64_agrees veto.timelock_seconds,
          u64_agrees veto.pause_ceiling_seconds,
          uint8_agrees veto.resume_threshold,
        )
        (elim (Option-cases (as_u32 (length veto.resume_members))) [
          | inl e ↦ rw e
          | inr (count, e) ↦ rw e (elim (Option-cases (as_u64 veto.timelock_seconds)) [
            | inl e1 ↦ rw e1
            | inr (timelock, e1) ↦ rw e1 (elim (Option-cases (as_u64 veto.pause_ceiling_seconds)) [
              | inl e2 ↦ rw e2
              | inr (ceiling, e2) ↦ rw (e2, as_u32-eq-some _ e) (ap (λ d. some d) (same _))
            ])
          ])
        ])

-- The client's digests on a cluster are the program's, wherever the program's types hold the counters,
-- the times and the durations, and an exception elsewhere.
pub record AllAgree (hasher : Hasher) (sha256 : List Bytes → Bytes) (cluster : Cluster)
    (digests : Digests) : Type 0 where
  pub tag_agrees : digests.tag ≡ Cluster.cluster_tag cluster
  pub registration_agrees :
      (program_id vault owner recovery_owner fingerprint : Bytes) (config_nonce : ℤ)
      → digests.registration_digest program_id vault owner recovery_owner fingerprint config_nonce
        ≡ (as_u64 config_nonce >>= λ nonce. some (
            Digest.registration_digest hasher cluster program_id vault owner recovery_owner
              fingerprint nonce))
  pub intent_agrees :
      (program_id vault : Bytes) (intent : Intent)
      → digests.intent_digest program_id vault intent
        ≡ intent_digest_of hasher cluster program_id vault intent
  pub resume_agrees :
      (program_id vault intent_digest : Bytes) (attempt_seq : ℤ)
      → digests.resume_digest program_id vault intent_digest attempt_seq ≡ (
          as_u64 attempt_seq >>= λ seq.
          some (Digest.resume_digest hasher cluster program_id vault intent_digest seq))
  pub fingerprint_agrees :
      (veto : VetoConfig) → veto_fingerprint sha256 veto ≡ fingerprint_of hasher veto

-- Where the client's SHA-256 and the program's give one digest, `digestsFor` a cluster gives the
-- cluster tag of the program and the digests of its registrations, intents and resumes, and
-- `vetoFingerprint` the fingerprint of the account, wherever the program's types hold the counters,
-- the expiry, the durations and the number of members. At other values of these they throw. The
-- resume threshold of a fingerprint is reduced modulo 256, and never makes it throw.
pub digests_agree :
    (hasher : Hasher) (sha256 : List Bytes → Bytes) (cluster : ClusterName)
    → ((parts : List Bytes) → sha256 parts ≡ hasher.hashv parts)
    → (digests : Digests) × (digests_for sha256 cluster ≡ some digests)
      × AllAgree hasher sha256 (cluster_of cluster) digests
unfolding digests_for
digests_agree hasher sha256 cluster same =
    let chain = cluster_of cluster in
    let tag = Cluster.cluster_tag chain in
    (
      record {
        tag = tag;
        registration_digest = registration_digest_with sha256 tag;
        intent_digest = intent_digest_with sha256 tag;
        resume_digest = resume_digest_with sha256 tag;
      },
      rw (cluster_tag_agrees cluster),
      record {
        tag_agrees = refl;
        registration_agrees = registration_lem hasher sha256 same chain;
        intent_agrees = intent_lem hasher sha256 same chain;
        resume_agrees = resume_lem hasher sha256 same chain;
        fingerprint_agrees = fingerprint_lem hasher sha256 same chain;
      },
    )
