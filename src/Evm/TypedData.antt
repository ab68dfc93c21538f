-- ===== src/Evm/TypedData.antt =====
-- What the recovery key and the quorum sign on the EVM: `hashIntent`, `resumeDigest` and
-- `_domainSeparator` of evm/src/RecoveryModule.sol. `keccak256` is a parameter, over the concatenation
-- of its parts.
pub mod Binding
use recovery_guardian_contra.Prelude.{
  ℕ, zero, suc, ◌/◌, ◌%◌, ◌++◌, List, [], ◌∷◌, Bytes, replicate, Option,
}
use recovery_guardian_contra.Encoding.{codes}
use recovery_guardian_contra.Digest.{Hasher}

pub record Intent : Type 0 where
  pub account : Bytes  -- address
  pub epoch : ℕ  -- uint256
  pub nonce : ℕ  -- uint256
  pub new_validator : Bytes  -- address
  pub new_validator_init_data : Bytes
  pub expiry : ℕ  -- uint48

-- `keccak256`, ECDSA.recoverCalldata of a digest and a signature (`none` where it reverts),
-- `block.chainid` and `address(this)`.
pub record Deployment : Type 0 where
  pub keccak : Hasher
  pub recover : Bytes → Bytes → Option Bytes
  pub chain_id : ℕ
  pub contract : Bytes

unfoldable pub to_be_bytes : ℕ → ℕ → Bytes
to_be_bytes zero value = []
to_be_bytes (suc width) value = to_be_bytes width (value / 256) ++ ((value % 256) ∷ [])

-- A static value in `abi.encode`: 32 bytes, the most significant first.
unfoldable pub word : ℕ → Bytes
unfolding to_be_bytes
word value = to_be_bytes 32 value

-- An address in `abi.encode`.
unfoldable pub address_word : Bytes → Bytes
address_word address = replicate 12 0 ++ address

abbrev pub intent_type : Bytes
intent_type =
    codes
      "Intent(address account,uint256 epoch,uint256 nonce,address newValidator,bytes newValidatorInitData,uint48 expiry)"

abbrev pub resume_type : Bytes
resume_type = codes "Resume(address account,bytes32 intentHash,uint256 attemptSeq)"

abbrev pub domain_type : Bytes
domain_type =
    codes "EIP712Domain(string name,string version,uint256 chainId,address verifyingContract)"

-- `abi.encodePacked("\x19\x01", …)`
abbrev pub prefix : Bytes
prefix = 0x19 ∷ 0x01 ∷ []

module _ (deployment : Deployment) where
  abbrev pub keccak256 : List Bytes → Bytes
  keccak256 parts = deployment.keccak.hashv parts

  pub domain_words : List Bytes
  domain_words =
      keccak256 (domain_type ∷ [])
      ∷ keccak256 (codes "NihiliumRecoveryModule" ∷ [])
      ∷ keccak256 (codes "4.0.0" ∷ [])
      ∷ word deployment.chain_id
      ∷ address_word deployment.contract
      ∷ []

  unfoldable pub domain_separator : Bytes
  unfolding domain_words
  domain_separator = keccak256 domain_words

  -- `abi.encode` of the fields of an intent.
  pub intent_words : Intent → List Bytes
  intent_words intent =
      keccak256 (intent_type ∷ [])
      ∷ address_word intent.account
      ∷ word intent.epoch
      ∷ word intent.nonce
      ∷ address_word intent.new_validator
      ∷ keccak256 (intent.new_validator_init_data ∷ [])
      ∷ word intent.expiry
      ∷ []

  unfoldable pub hash_intent : Intent → Bytes
  unfolding domain_separator intent_words
  hash_intent intent = keccak256 (prefix ∷ domain_separator ∷ keccak256 (intent_words intent) ∷ [])

  pub resume_words : Bytes → Bytes → ℕ → List Bytes
  resume_words account intent_hash attempt_seq =
      keccak256 (resume_type ∷ []) ∷ address_word account ∷ intent_hash ∷ word attempt_seq ∷ []

  -- `resumeDigest`, with the counter that it reads from the account's configuration.
  unfoldable pub resume_digest : Bytes → Bytes → ℕ → Bytes
  unfolding domain_separator resume_words
  resume_digest account intent_hash attempt_seq =
      keccak256
        (prefix ∷ domain_separator ∷ keccak256 (resume_words account intent_hash attempt_seq) ∷ [])
