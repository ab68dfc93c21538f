-- ===== src/Evm/Eip7702RecoveryAccount.antt =====
-- An account that delegates to the recovery contract: evm/src/Eip7702RecoveryAccount.sol. The storage is
-- the account's own layout, and a revert undoes what a call wrote.
pub mod Calls
pub mod Running
pub mod Opened
pub mod Timelock
pub mod Ownership
use recovery_guardian_contra.Prelude.{
  ℕ, zero, suc, ◌+◌, ◌^◌, Bool, true, false, not, ◌&&◌, List, [], ◌∷◌, ◌++◌, Bytes, bytes_eq,
  contains, length, replicate, ltb, leb, ◌==◌, if◌then◌else◌, Option, some,
}
use recovery_guardian_contra.Prelude.Results.{
  Result, ok, err, ◌>>=◌, ◌>>◌, require, ok_or, map_err, map_ok,
}
use recovery_guardian_contra.Evm.GradualVeto
use recovery_guardian_contra.Evm.GradualVeto.{State, Config, Revert, Address, zero_address}
use recovery_guardian_contra.Evm.DelegatedTypedData.{
  Intent, RegisterMessage, BatchCall, Account, hash_intent, hash_register, hash_execute,
  resume_digest,
}

pub record Attempt : Type 0 where
  pub intent_hash : Bytes
  pub attempt_seq : ℕ  -- uint256
  pub veto : GradualVeto.Attempt

pub record Layout : Type 0 where
  pub registered : Bool
  pub owner : Address
  pub recovery_owner : Address
  pub epoch : ℕ  -- uint256
  pub nonce : ℕ  -- uint256
  pub config_nonce : ℕ  -- uint256
  pub exec_nonce : ℕ  -- uint256
  pub veto : Config
  pub attempt : Attempt

pub data AccountError : Type 0 where
  not_registered attempt_in_flight no_attempt unknown_intent bad_signature : AccountError
  wrong_config_nonce wrong_epoch wrong_nonce : (expected supplied : ℕ) → AccountError
  intent_expired not_pause_authority not_abort_authority not_resume_quorum : AccountError
  duplicate_resume_signer : (signer : Address) → AccountError
  zero_owner zero_recovery_owner execution_expired : AccountError
  call_reverted : (index : ℕ) (returned : Bytes) → AccountError
  -- An error of the library, one of Solady's ECDSA, and the panic of checked arithmetic.
  gradual_veto : (revert : Revert) → AccountError
  invalid_signature panic : AccountError

pub data Effect : Type 0 where
  registered recovery_config_updated : (recovery_owner : Address) (epoch : ℕ) → Effect
  recovery_initiated : (intent_hash : Bytes) (epoch : ℕ) → Effect
  recovery_paused recovery_resumed recovery_aborted : (intent_hash : Bytes) → Effect
  recovery_executed : (intent_hash : Bytes) (new_epoch : ℕ) (new_owner : Address) → Effect
  executed : (exec_nonce call_count : ℕ) → Effect

-- What the chain gives a call. `is_valid_signature` is SignatureCheckerLib's answer for a contract.
-- `call_target` is a call to another contract with a value and data: it fails with what it returned, or
-- leaves the layout that calls back into the account have made of this one, and returns data.
pub record Environment : Type 0 where
  pub sender : Address
  pub timestamp : ℕ
  pub is_valid_signature : Address → Bytes → Bytes → Bool
  pub call_target : Address → ℕ → Bytes → Layout → Result Bytes (Layout × Bytes)

abbrev pub Outcome : Type 0
Outcome = Result AccountError (Layout × List Effect)

abbrev pub increment : ℕ → Result AccountError ℕ
increment value = if ltb (value + 1) (2 ^ 256) then ok (value + 1) else err panic

abbrev pub in_veto {ℓ} : {A : Type ℓ} → Result Revert A → Result AccountError A
in_veto result = map_err gradual_veto result

abbrev pub require_registered : Layout → Result AccountError (Unit {0})
require_registered layout = require layout.registered not_registered

abbrev pub require_attempt : Layout → Result AccountError (Unit {0})
require_attempt layout =
    require (not (GradualVeto.state_eq layout.attempt.veto.state State.none)) no_attempt

-- Whether an attempt is running, at this block.
unfoldable pub in_flight : ℕ → Layout → Result AccountError Bool
in_flight timestamp layout =
    if GradualVeto.state_eq layout.attempt.veto.state State.none
    then ok false
    else in_veto (GradualVeto.project layout.veto layout.attempt.veto timestamp) >>= λ projected.
        ok (not (GradualVeto.is_terminal projected.state))

-- `_currentOwner`
unfoldable pub current_owner : Account → Layout → Address
current_owner account layout =
    if bytes_eq layout.owner zero_address then account.address else layout.owner

module _ (account : Account) (environment : Environment) where
  open environment use {sender, timestamp, is_valid_signature, call_target}
  open account use {recover, try_recover}

  -- `_isOwnerSignature`
  unfoldable pub is_owner_signature : Layout → Bytes → Bytes → Bool
  unfolding current_owner
  is_owner_signature layout digest signature =
      let owner = current_owner account layout in
      if bytes_eq (try_recover digest signature) owner
      then true
      else if bytes_eq owner account.address
      then false
      else is_valid_signature owner digest signature

  unfoldable pub register : RegisterMessage → Bytes → Bytes → Layout → Outcome
  unfolding in_flight is_owner_signature
  register message recovery_owner_signature owner_signature layout = do
    require (message.nonce == layout.config_nonce)
        (wrong_config_nonce layout.config_nonce message.nonce)
    require (not (bytes_eq message.recovery_owner zero_address)) zero_recovery_owner
    running ← in_flight timestamp layout
    require (not running) attempt_in_flight
    in_veto (GradualVeto.validate message.veto)
    in_veto (GradualVeto.validate_recovery_owner message.veto message.recovery_owner)
    let digest = hash_register account message
    signer ← ok_or (recover digest recovery_owner_signature) invalid_signature
    require (bytes_eq signer message.recovery_owner) bad_signature
    require (is_owner_signature layout digest owner_signature) bad_signature
    config_nonce ← increment layout.config_nonce
    ok (
      record layout {
        registered = true;
        recovery_owner = message.recovery_owner;
        config_nonce = config_nonce;
        veto = message.veto;
      },
      (if layout.registered
            then recovery_config_updated message.recovery_owner layout.epoch
            else registered message.recovery_owner layout.epoch)
          ∷ [],
    )

  unfoldable pub initiate_recovery : Intent → Bytes → Layout → Outcome
  unfolding in_flight
  initiate_recovery intent signature layout = do
    require layout.registered not_registered
    require (not (bytes_eq intent.new_owner zero_address)) zero_owner
    require (not (leb intent.expiry timestamp)) intent_expired
    require (intent.epoch == layout.epoch) (wrong_epoch layout.epoch intent.epoch)
    require (intent.nonce == layout.nonce) (wrong_nonce layout.nonce intent.nonce)
    running ← in_flight timestamp layout
    require (not running) attempt_in_flight
    let intent_hash = hash_intent account intent
    signer ← ok_or (recover intent_hash signature) invalid_signature
    require (bytes_eq signer layout.recovery_owner) bad_signature
    attempt_seq ← increment layout.attempt.attempt_seq
    ok (
      record layout {
        attempt = record {
          intent_hash = intent_hash;
          attempt_seq = attempt_seq;
          veto = GradualVeto.start layout.attempt.veto timestamp;
        };
      },
      recovery_initiated intent_hash layout.epoch ∷ [],
    )

  unfoldable pub pause : Layout → Outcome
  pause layout = do
    require_registered layout
    require (bytes_eq sender layout.veto.pause_authority) not_pause_authority
    require_attempt layout
    paused ← in_veto (GradualVeto.pause layout.veto layout.attempt.veto timestamp)
    attempt_seq ← increment layout.attempt.attempt_seq
    ok (
      record layout {
        attempt = record layout.attempt { attempt_seq = attempt_seq; veto = paused };
      },
      recovery_paused layout.attempt.intent_hash ∷ [],
    )

  -- The loop of `resume`, with the signers before this one; the lists are equally long.
  unfoldable pub check_signers :
      Config → Bytes → List Address → List Address → List Bytes → ℕ → Result AccountError ℕ
  check_signers config digest seen [] signatures counted = ok counted
  check_signers config digest seen (signer ∷ signers) [] counted = err panic
  check_signers config digest seen (signer ∷ signers) (signature ∷ signatures) counted = do
    require (GradualVeto.is_resume_member config signer) not_resume_quorum
    require (not (contains seen signer)) (duplicate_resume_signer signer)
    recovered ← ok_or (recover digest signature) invalid_signature
    require (bytes_eq recovered signer) bad_signature
    check_signers config digest (seen ++ (signer ∷ [])) signers signatures (counted + 1)

  unfoldable pub resume : List Address → List Bytes → Layout → Outcome
  unfolding check_signers
  resume signers signatures layout = do
    require_registered layout
    require_attempt layout
    require (length signers == length signatures) not_resume_quorum
    require (leb layout.veto.resume_threshold (length signers)) not_resume_quorum
    let digest = resume_digest account layout.attempt.intent_hash layout.attempt.attempt_seq
    counted ← check_signers layout.veto digest [] signers signatures 0
    require (leb layout.veto.resume_threshold counted) not_resume_quorum
    resumed ← in_veto (GradualVeto.resume layout.veto layout.attempt.veto timestamp)
    ok (
      record layout { attempt = record layout.attempt { veto = resumed } },
      recovery_resumed layout.attempt.intent_hash ∷ [],
    )

  unfoldable pub abort : Layout → Outcome
  abort layout = do
    require_registered layout
    require (bytes_eq sender layout.veto.abort_authority) not_abort_authority
    require_attempt layout
    aborted ← in_veto (GradualVeto.abort layout.veto layout.attempt.veto timestamp)
    nonce ← increment layout.nonce
    ok (
      record layout { nonce = nonce; attempt = record layout.attempt { veto = aborted } },
      recovery_aborted layout.attempt.intent_hash ∷ [],
    )

  unfoldable pub execute_recovery : Intent → Layout → Outcome
  execute_recovery intent layout = do
    require_registered layout
    require_attempt layout
    require (bytes_eq (hash_intent account intent) layout.attempt.intent_hash) unknown_intent
    require (intent.epoch == layout.epoch) (wrong_epoch layout.epoch intent.epoch)
    closed ← in_veto (GradualVeto.execute layout.veto layout.attempt.veto timestamp)
    epoch ← increment layout.epoch
    nonce ← increment layout.nonce
    ok (
      record layout {
        owner = intent.new_owner;
        epoch = epoch;
        nonce = nonce;
        attempt = record layout.attempt { veto = closed };
      },
      recovery_executed layout.attempt.intent_hash epoch intent.new_owner ∷ [],
    )

  -- `execute` up to its calls.
  unfoldable pub open_batch : List BatchCall → ℕ → Bytes → Layout → Result AccountError Layout
  unfolding is_owner_signature
  open_batch calls expiry signature layout = do
    require (not (ltb expiry timestamp)) execution_expired
    let digest = hash_execute account calls layout.exec_nonce expiry
    require (is_owner_signature layout digest signature) bad_signature
    exec_nonce ← increment layout.exec_nonce
    ok (record layout { exec_nonce = exec_nonce })

  -- The loop of `execute`, from this index on.
  unfoldable pub run_batch : List BatchCall → ℕ → Layout → Result AccountError (Layout × List Bytes)
  run_batch [] index layout = ok (layout, [])
  run_batch (call ∷ calls) index layout = do
    answered ←
        map_err (call_reverted index) (call_target call.target call.value call.payload layout)
    rest ← run_batch calls (index + 1) answered.0
    ok (rest.0, answered.1 ∷ rest.1)

  unfoldable pub execute :
      List BatchCall → ℕ → Bytes → Layout → Result AccountError (Layout × List Effect × List Bytes)
  unfolding open_batch run_batch
  execute calls expiry signature layout = do
    opened ← open_batch calls expiry signature layout
    ran ← run_batch calls 0 opened
    ok (ran.0, executed layout.exec_nonce (length calls) ∷ [], ran.1)

-- `stateOf`
unfoldable pub state_of : ℕ → Layout → Result Revert State
state_of timestamp layout =
    if GradualVeto.state_eq layout.attempt.veto.state State.none
    then ok State.none
    else GradualVeto.project layout.veto layout.attempt.veto timestamp >>= λ projected.
        ok projected.state
