-- ===== src/Client/Digests.antt =====
-- The digests that the client signs: solana/bindings/digest.ts. An exception is `none`, as the
-- RangeError of Node's Buffer at a value that does not fit. A `number` or a `bigint` is a whole number.
-- `sha256` of @noble/hashes is a parameter, over the parts that it is updated with.
pub mod Agreement
use Prim.Native.String.{String}
use recovery_guardian_contra.Encoding.{to_le_bytes, i64_word, codes}
use recovery_guardian_contra.Client.{◌>>=◌}
use recovery_guardian_contra.Prelude.Int.{ℤ, pos, negsuc}
use recovery_guardian_contra.Prelude.Words.{u64_max, i64_max}
use recovery_guardian_contra.Prelude.{
  ℕ, ◌-◌, ◌%◌, ◌^◌, List, [], ◌∷◌, ◌++◌, Bytes, length, replicate, ltb, leb, Option, some,
  if◌then◌else◌,
}

pub data ClusterName : Type 0 where
  localnet devnet mainnet_beta : ClusterName

abbrev pub cluster_text : ClusterName → Bytes
cluster_text localnet = codes "localnet"
cluster_text devnet = codes "devnet"
cluster_text mainnet_beta = codes "mainnet-beta"

unfoldable pub cluster_tag : ClusterName → Option Bytes
cluster_tag cluster =
    let name = codes "nihilium-cluster:" ++ cluster_text cluster in
    if ltb 32 (length name) then Option.none else some (name ++ replicate (32 - length name) 0)

-- `writeUInt32LE`, `writeBigUInt64LE` and `writeBigInt64LE`
unfoldable pub u32 : ℕ → Option Bytes
u32 value = if ltb value (2 ^ 32) then some (to_le_bytes 4 value) else Option.none

unfoldable pub u64 : ℤ → Option Bytes
u64 (pos value) = if leb value u64_max then some (to_le_bytes 8 value) else Option.none
u64 (negsuc value) = Option.none

unfoldable pub i64 : ℤ → Option Bytes
i64 (pos value) =
    if leb value i64_max then some (to_le_bytes 8 (i64_word (pos value))) else Option.none
i64 (negsuc value) =
    if leb value i64_max then some (to_le_bytes 8 (i64_word (negsuc value))) else Option.none

-- An element of `Buffer.from([value])`.
unfoldable pub uint8 : ℤ → ℕ
uint8 (pos value) = value % 256
uint8 (negsuc value) = 255 - value % 256

unfoldable pub length_prefixed : String → Option Bytes
unfolding u32
length_prefixed value = do
  let bytes = codes value
  prefix ← u32 (length bytes)
  some (prefix ++ bytes)

pub record VetoConfig : Type 0 where
  pub pause_authority : Bytes
  pub abort_authority : Bytes
  pub resume_members : List Bytes
  pub resume_threshold : ℤ
  pub timelock_seconds : ℤ
  pub pause_ceiling_seconds : ℤ

pub record Intent : Type 0 where
  pub new_owner : Bytes
  pub new_owner_config : Bytes
  pub epoch : ℤ
  pub nonce : ℤ
  pub expiry : ℤ

-- What `digestsFor` returns, the name aside.
pub record Digests : Type 0 where
  pub tag : Bytes
  pub registration_digest : Bytes → Bytes → Bytes → Bytes → Bytes → ℤ → Option Bytes
  pub intent_digest : Bytes → Bytes → Intent → Option Bytes
  pub resume_digest : Bytes → Bytes → Bytes → ℤ → Option Bytes

module _ (sha256 : List Bytes → Bytes) where
  unfoldable pub veto_fingerprint : VetoConfig → Option Bytes
  unfolding u32 u64 uint8
  veto_fingerprint veto = do
    count ← u32 (length veto.resume_members)
    timelock_seconds ← u64 veto.timelock_seconds
    pause_ceiling_seconds ← u64 veto.pause_ceiling_seconds
    some (
        sha256 (
          veto.pause_authority
          ∷ veto.abort_authority
          ∷ count
          ∷ (veto.resume_members
              ++ ((uint8 veto.resume_threshold ∷ [])
                  ∷ timelock_seconds
                  ∷ pause_ceiling_seconds
                  ∷ []))))

  unfoldable pub registration_digest_with :
      Bytes → Bytes → Bytes → Bytes → Bytes → Bytes → ℤ → Option Bytes
  unfolding length_prefixed u64
  registration_digest_with tag program_id vault owner recovery_owner fingerprint config_nonce = do
    domain ← length_prefixed "nihilium-recovery-solana-register-v1"
    nonce ← u64 config_nonce
    some (
        sha256
          (domain ∷ tag ∷ program_id ∷ vault ∷ owner ∷ recovery_owner ∷ fingerprint ∷ nonce ∷ []))

  unfoldable pub intent_digest_with : Bytes → Bytes → Bytes → Intent → Option Bytes
  unfolding length_prefixed u64 i64
  intent_digest_with tag program_id vault intent = do
    domain ← length_prefixed "nihilium-recovery-solana-intent-v1"
    epoch ← u64 intent.epoch
    nonce ← u64 intent.nonce
    expiry ← i64 intent.expiry
    some (
        sha256 (
          domain
          ∷ tag
          ∷ program_id
          ∷ vault
          ∷ epoch
          ∷ nonce
          ∷ intent.new_owner
          ∷ sha256 (intent.new_owner_config ∷ [])
          ∷ expiry
          ∷ []))

  unfoldable pub resume_digest_with : Bytes → Bytes → Bytes → Bytes → ℤ → Option Bytes
  unfolding length_prefixed u64
  resume_digest_with tag program_id vault intent_digest attempt_seq = do
    domain ← length_prefixed "nihilium-recovery-solana-resume-v1"
    seq ← u64 attempt_seq
    some (sha256 (domain ∷ tag ∷ program_id ∷ vault ∷ intent_digest ∷ seq ∷ []))

  unfoldable pub digests_for : ClusterName → Option Digests
  unfolding cluster_tag
  digests_for cluster = do
    tag ← cluster_tag cluster
    some (record {
      tag = tag;
      registration_digest = registration_digest_with tag;
      intent_digest = intent_digest_with tag;
      resume_digest = resume_digest_with tag;
    })
