-- ===== src/Evm/RecoveryModule.antt =====
-- The executor module of the EVM: evm/src/RecoveryModule.sol. A call is a function of the storage, and
-- of the environment that the chain gives; a revert undoes it. `abi.decode` has given `on_install`
-- its arguments.
pub mod Slots
pub mod Calls
pub mod Slotwise
pub mod Counters
pub mod Replay
pub mod Signers
pub mod Authority
pub mod Invariant
pub mod Opening
pub mod Opened
pub mod Timelock
use recovery_guardian_contra.Prelude.{
  ℕ, zero, suc, ◌+◌, ◌^◌, Bool, true, false, not, ◌&&◌, List, [], ◌∷◌, ◌++◌, Bytes, bytes_eq,
  contains, length, replicate, ltb, leb, ◌==◌, if◌then◌else◌, Option, some,
}
use recovery_guardian_contra.Prelude.Results.{Result, ok, err, ◌>>=◌, ◌>>◌, require, ok_or, map_err}
use recovery_guardian_contra.Evm.GradualVeto
use recovery_guardian_contra.Evm.GradualVeto.{State, Config, Revert, Address, zero_address}
use recovery_guardian_contra.Evm.TypedData.{Intent, Deployment, hash_intent, resume_digest}

pub record AccountConfig : Type 0 where
  pub installed : Bool
  pub recovery_owner : Address
  pub epoch : ℕ  -- uint256
  pub nonce : ℕ  -- uint256
  pub attempt_seq : ℕ  -- uint256
  pub veto : Config

pub record Attempt : Type 0 where
  pub intent_hash : Bytes
  pub veto : GradualVeto.Attempt

-- What the two mappings `_configs` and `_attempts` hold for one account.
pub record Slot : Type 0 where
  pub config : AccountConfig
  pub attempt : Attempt

abbrev pub Storage : Type 0
Storage = Address → Slot

pub data ModuleError : Type 0 where
  not_installed already_installed attempt_in_flight no_attempt : (account : Address) → ModuleError
  unknown_intent bad_signature intent_expired : ModuleError
  wrong_epoch wrong_nonce : (expected supplied : ℕ) → ModuleError
  wrong_account not_pause_authority not_abort_authority not_resume_quorum : ModuleError
  duplicate_resume_signer : (signer : Address) → ModuleError
  zero_validator zero_recovery_owner : ModuleError
  -- An error of the library, one of Solady's ECDSA, the panic of checked arithmetic or of an index, and
  -- a call to the account that reverts.
  gradual_veto : (revert : Revert) → ModuleError
  invalid_signature panic call_failed : ModuleError

-- The events, and the one call that the module makes.
pub data Effect : Type 0 where
  recovery_registered : (account recovery_owner : Address) (epoch : ℕ) → Effect
  recovery_initiated : (account : Address) (intent_hash : Bytes) (epoch : ℕ) → Effect
  recovery_paused recovery_resumed recovery_aborted :
      (account : Address) (intent_hash : Bytes) → Effect
  recovery_executed : (account : Address) (intent_hash : Bytes) (new_epoch : ℕ) → Effect
  validator_installed : (account validator : Address) (init_data : Bytes) → Effect

-- What the chain gives a call. `install_module` is the call to `installModule` of an account, with a validator and
-- its data: it reverts, or leaves the storage that calls back into the module have made of this one.
pub record Environment : Type 0 where
  pub sender : Address
  pub timestamp : ℕ
  pub install_module : Address → Address → Bytes → Storage → Option Storage

abbrev pub Outcome : Type 0
Outcome = Result ModuleError (Storage × List Effect)

abbrev pub SlotOutcome : Type 0
SlotOutcome = Result ModuleError (Slot × List Effect)

-- Checked `+= 1` on a `uint256`.
abbrev pub increment : ℕ → Result ModuleError ℕ
increment value = if ltb (value + 1) (2 ^ 256) then ok (value + 1) else err panic

abbrev pub in_veto {ℓ} : {A : Type ℓ} → Result Revert A → Result ModuleError A
in_veto result = map_err gradual_veto result

unfoldable pub write : Storage → Address → Slot → Storage
write storage account slot other = if bytes_eq other account then slot else storage other

-- The storage references of a function are to one account's entries, which it writes as it ends.
unfoldable pub on_slot : Address → (Slot → SlotOutcome) → Storage → Outcome
unfolding write
on_slot account body storage = do
  written ← body (storage account)
  ok (write storage account written.0, written.1)

-- `delete config.veto` and `delete _attempts[…]`
abbrev pub empty_veto : Config
empty_veto = record {
  pause_authority = zero_address;
  abort_authority = zero_address;
  resume_members = [];
  resume_threshold = 0;
  timelock_seconds = 0;
  pause_ceiling_seconds = 0;
}

abbrev pub empty_attempt : Attempt
empty_attempt = record {
  intent_hash = replicate 32 0;
  veto = record {
    state = State.none;
    accrued_seconds = 0;
    paused_seconds = 0;
    checkpoint_time = 0;
  };
}

abbrev pub require_installed : Slot → Address → Result ModuleError (Unit {0})
require_installed slot account = require slot.config.installed (not_installed account)

abbrev pub require_attempt : Slot → Address → Result ModuleError (Unit {0})
require_attempt slot account =
    require (not (GradualVeto.state_eq slot.attempt.veto.state State.none)) (no_attempt account)

module _ (environment : Environment) where
  open environment use {sender, timestamp}

  unfoldable pub on_install : Address → Config → Slot → SlotOutcome
  on_install recovery_owner veto slot = do
    let config = slot.config
    require (not config.installed) (already_installed sender)
    require (not (bytes_eq recovery_owner zero_address)) zero_recovery_owner
    in_veto (GradualVeto.validate veto)
    in_veto (GradualVeto.validate_recovery_owner veto recovery_owner)
    ok (
      record slot {
        config = record config { installed = true; recovery_owner = recovery_owner; veto = veto };
      },
      recovery_registered sender recovery_owner config.epoch ∷ [],
    )

  unfoldable pub on_uninstall : Slot → SlotOutcome
  on_uninstall slot = do
    let config = slot.config
    require config.installed (not_installed sender)
    ok (
      record {
        config = record config {
          installed = false;
          recovery_owner = zero_address;
          veto = empty_veto;
        };
        attempt = empty_attempt;
      },
      [],
    )

  -- Whether an attempt is running, at this block.
  unfoldable pub in_flight : Config → Attempt → Result ModuleError Bool
  in_flight veto attempt =
      if GradualVeto.state_eq attempt.veto.state State.none
      then ok false
      else in_veto (GradualVeto.project veto attempt.veto timestamp) >>= λ projected.
          ok (not (GradualVeto.is_terminal projected.state))

module _ (deployment : Deployment) (environment : Environment) where
  open environment use {sender, timestamp, install_module}
  open deployment use {recover}

  unfoldable pub initiate_recovery : Intent → Bytes → Slot → SlotOutcome
  unfolding in_flight
  initiate_recovery intent signature slot = do
    let config = slot.config
    require config.installed (not_installed intent.account)
    require (not (bytes_eq intent.new_validator zero_address)) zero_validator
    require (not (leb intent.expiry timestamp)) intent_expired
    require (intent.epoch == config.epoch) (wrong_epoch config.epoch intent.epoch)
    require (intent.nonce == config.nonce) (wrong_nonce config.nonce intent.nonce)
    running ← in_flight environment config.veto slot.attempt
    require (not running) (attempt_in_flight intent.account)
    let intent_hash = hash_intent deployment intent
    signer ← ok_or (recover intent_hash signature) invalid_signature
    require (bytes_eq signer config.recovery_owner) bad_signature
    attempt_seq ← increment config.attempt_seq
    ok (
      record {
        config = record config { attempt_seq = attempt_seq };
        attempt = record {
          intent_hash = intent_hash;
          veto = GradualVeto.start slot.attempt.veto timestamp;
        };
      },
      recovery_initiated intent.account intent_hash config.epoch ∷ [],
    )

  unfoldable pub pause : Address → Slot → SlotOutcome
  pause account slot = do
    let config = slot.config
    require_installed slot account
    require (bytes_eq sender config.veto.pause_authority) not_pause_authority
    require_attempt slot account
    paused ← in_veto (GradualVeto.pause config.veto slot.attempt.veto timestamp)
    attempt_seq ← increment config.attempt_seq
    ok (
      record {
        config = record config { attempt_seq = attempt_seq };
        attempt = record { intent_hash = slot.attempt.intent_hash; veto = paused };
      },
      recovery_paused account slot.attempt.intent_hash ∷ [],
    )

  -- The loop of `resume`, with the signers before this one; the lists are equally long.
  unfoldable pub check_signers :
      Config → Bytes → List Address → List Address → List Bytes → ℕ → Result ModuleError ℕ
  check_signers config digest seen [] signatures counted = ok counted
  check_signers config digest seen (signer ∷ signers) [] counted = err panic
  check_signers config digest seen (signer ∷ signers) (signature ∷ signatures) counted = do
    require (GradualVeto.is_resume_member config signer) not_resume_quorum
    require (not (contains seen signer)) (duplicate_resume_signer signer)
    recovered ← ok_or (recover digest signature) invalid_signature
    require (bytes_eq recovered signer) bad_signature
    check_signers config digest (seen ++ (signer ∷ [])) signers signatures (counted + 1)

  unfoldable pub resume : Address → List Address → List Bytes → Slot → SlotOutcome
  unfolding check_signers
  resume account signers signatures slot = do
    let config = slot.config
    require_installed slot account
    require_attempt slot account
    require (length signers == length signatures) not_resume_quorum
    require (leb config.veto.resume_threshold (length signers)) not_resume_quorum
    let digest = resume_digest deployment account slot.attempt.intent_hash config.attempt_seq
    counted ← check_signers config.veto digest [] signers signatures 0
    require (leb config.veto.resume_threshold counted) not_resume_quorum
    resumed ← in_veto (GradualVeto.resume config.veto slot.attempt.veto timestamp)
    ok (
      record slot { attempt = record { intent_hash = slot.attempt.intent_hash; veto = resumed } },
      recovery_resumed account slot.attempt.intent_hash ∷ [],
    )

  unfoldable pub abort : Address → Slot → SlotOutcome
  abort account slot = do
    let config = slot.config
    require_installed slot account
    require (bytes_eq sender config.veto.abort_authority) not_abort_authority
    require_attempt slot account
    aborted ← in_veto (GradualVeto.abort config.veto slot.attempt.veto timestamp)
    nonce ← increment config.nonce
    ok (
      record {
        config = record config { nonce = nonce };
        attempt = record { intent_hash = slot.attempt.intent_hash; veto = aborted };
      },
      recovery_aborted account slot.attempt.intent_hash ∷ [],
    )

  -- `executeRecovery` up to its call to the account.
  unfoldable pub close_recovery : Intent → Slot → Result ModuleError Slot
  close_recovery intent slot = do
    let config = slot.config
    require_installed slot intent.account
    require_attempt slot intent.account
    require (bytes_eq (hash_intent deployment intent) slot.attempt.intent_hash) unknown_intent
    require (intent.epoch == config.epoch) (wrong_epoch config.epoch intent.epoch)
    executed ← in_veto (GradualVeto.execute config.veto slot.attempt.veto timestamp)
    epoch ← increment config.epoch
    nonce ← increment config.nonce
    ok (record {
      config = record config { epoch = epoch; nonce = nonce };
      attempt = record { intent_hash = slot.attempt.intent_hash; veto = executed };
    })

  -- The event is emitted after the call, and reads the storage again.
  unfoldable pub execute_recovery : Intent → Storage → Outcome
  unfolding close_recovery write
  execute_recovery intent storage = do
    let account = intent.account
    closed ← close_recovery intent (storage account)
    after ←
        ok_or
          (install_module account intent.new_validator intent.new_validator_init_data
            (write storage account closed))
          call_failed
    ok (
      after,
      validator_installed account intent.new_validator intent.new_validator_init_data
          ∷ recovery_executed account (after account).attempt.intent_hash
              (after account).config.epoch
          ∷ [],
    )

-- `stateOf`
unfoldable pub state_of : ℕ → Slot → Result Revert State
state_of timestamp slot =
    if GradualVeto.state_eq slot.attempt.veto.state State.none
    then ok State.none
    else GradualVeto.project slot.config.veto slot.attempt.veto timestamp >>= λ projected.
        ok projected.state
