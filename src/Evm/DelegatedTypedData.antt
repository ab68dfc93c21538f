-- ===== src/Evm/DelegatedTypedData.antt =====
-- What is signed for a delegated account: hashIntent, hashRegister, hashExecute and resumeDigest of
-- evm/src/Eip7702RecoveryAccount.sol, and its structs. `keccak256` and the `_hashTypedData` of Solady's
-- EIP712 are parameters.
use recovery_guardian_contra.Prelude.{ℕ, ◌++◌, List, [], ◌∷◌, Bytes, Option, map}
use recovery_guardian_contra.Encoding.{codes}
use recovery_guardian_contra.Digest.{Hasher}
use recovery_guardian_contra.Evm.GradualVeto.{Address, Config}
use recovery_guardian_contra.Evm.TypedData.{word, address_word}

pub record Intent : Type 0 where
  pub epoch : ℕ  -- uint256
  pub nonce : ℕ  -- uint256
  pub new_owner : Address
  pub expiry : ℕ  -- uint48

pub record RegisterMessage : Type 0 where
  pub recovery_owner : Address
  pub veto : Config
  pub nonce : ℕ  -- uint256

-- The struct `Call` of a batch.
pub record BatchCall : Type 0 where
  pub target : Address
  pub value : ℕ  -- uint256
  pub payload : Bytes

-- The account that delegates, and what it calls of the libraries: keccak256, `_hashTypedData`,
-- ECDSA.recoverCalldata (`none` where it reverts) and ECDSA.tryRecoverCalldata (zero where it fails).
pub record Account : Type 0 where
  pub address : Address  -- address(this)
  pub keccak : Hasher
  pub hash_typed_data : Bytes → Bytes
  pub recover : Bytes → Bytes → Option Address
  pub try_recover : Bytes → Bytes → Address

abbrev pub intent_type : Bytes
intent_type = codes "Intent(uint256 epoch,uint256 nonce,address newOwner,uint48 expiry)"

abbrev pub veto_config_type : Bytes
veto_config_type =
    codes
      "VetoConfig(address pauseAuthority,address abortAuthority,address[] resumeMembers,uint8 resumeThreshold,uint64 timelockSeconds,uint64 pauseCeilingSeconds)"

abbrev pub register_type : Bytes
register_type =
    codes "Register(address recoveryOwner,VetoConfig veto,uint256 nonce)" ++ veto_config_type

abbrev pub call_type : Bytes
call_type = codes "Call(address target,uint256 value,bytes data)"

abbrev pub execute_type : Bytes
execute_type = codes "Execute(Call[] calls,uint256 execNonce,uint48 expiry)" ++ call_type

abbrev pub resume_type : Bytes
resume_type = codes "Resume(bytes32 intentHash,uint256 attemptSeq)"

module _ (account : Account) where
  abbrev pub keccak256 : List Bytes → Bytes
  keccak256 parts = account.keccak.hashv parts

  unfoldable pub hash_intent : Intent → Bytes
  hash_intent intent = account.hash_typed_data (
      keccak256 (
        keccak256 (intent_type ∷ [])
        ∷ word intent.epoch
        ∷ word intent.nonce
        ∷ address_word intent.new_owner
        ∷ word intent.expiry
        ∷ []))

  unfoldable pub hash_veto_config : Config → Bytes
  hash_veto_config veto = keccak256 (
      keccak256 (veto_config_type ∷ [])
      ∷ address_word veto.pause_authority
      ∷ address_word veto.abort_authority
      ∷ keccak256 (map address_word veto.resume_members)
      ∷ word veto.resume_threshold
      ∷ word veto.timelock_seconds
      ∷ word veto.pause_ceiling_seconds
      ∷ [])

  unfoldable pub hash_register : RegisterMessage → Bytes
  unfolding hash_veto_config
  hash_register message = account.hash_typed_data (
      keccak256 (
        keccak256 (register_type ∷ [])
        ∷ address_word message.recovery_owner
        ∷ hash_veto_config message.veto
        ∷ word message.nonce
        ∷ []))

  unfoldable pub hash_call : BatchCall → Bytes
  hash_call call = keccak256 (
      keccak256 (call_type ∷ [])
      ∷ address_word call.target
      ∷ word call.value
      ∷ keccak256 (call.payload ∷ [])
      ∷ [])

  -- The nonce is the one in storage.
  unfoldable pub hash_execute : List BatchCall → ℕ → ℕ → Bytes
  unfolding hash_call
  hash_execute calls exec_nonce expiry = account.hash_typed_data (
      keccak256 (
        keccak256 (execute_type ∷ [])
        ∷ keccak256 (map hash_call calls)
        ∷ word exec_nonce
        ∷ word expiry
        ∷ []))

  -- The counter is the one in storage.
  unfoldable pub resume_digest : Bytes → ℕ → Bytes
  resume_digest intent_hash attempt_seq =
      account.hash_typed_data
        (keccak256 (keccak256 (resume_type ∷ []) ∷ intent_hash ∷ word attempt_seq ∷ []))
