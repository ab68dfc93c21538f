-- ===== src/Vault/Handlers.antt =====
-- The instructions of the vault program, each a function of the deployment, the transaction, its
-- signer where it has one, its arguments and the vault.
use recovery_guardian_contra.Prelude.Words.{u64_saturating_add}
use recovery_guardian_contra.Verify.{verify_detached, runtime}
use recovery_guardian_contra.Digest.{intent_digest, registration_digest, resume_digest}
use recovery_guardian_contra.Prelude.Int.{ltb_ℤ, pos, ℤ}
use recovery_guardian_contra.Vault.Errors.{
  account_constraint, map_veto_error, recovery, common, Error, RecoveryError,
}
use recovery_guardian_contra.Prelude.Results.{◌>>◌, ◌>>=◌, ok, require, map_err, Result}
use recovery_guardian_contra.Validation.{validate, zero_address}
use recovery_guardian_contra.Encoding.{codes}
use recovery_guardian_contra.Account.{
  attempt_from_veto, attempt_to_veto, config_to_veto, fingerprint, AttemptAccount,
  VetoConfigAccount, Vault,
}
use recovery_guardian_contra.Veto.{
  default_attempt, start, execute, abort, pause, ordinal, is_resume_member, project, is_terminal,
  Attempt, resume, Transition, state_eq, Config, State,
}
use recovery_guardian_contra.Vault.Context.{
  recovery_registered, recovery_key_rotated, recovery_initiated, recovery_executed,
  recovery_aborted, recovery_resumed, recovery_paused, lamports_moved, vault_created, Outcome,
  Intent, Deployment, Transaction,
}
use recovery_guardian_contra.Prelude.{
  if◌then◌else◌, true, ◌&&◌, map, ◌++◌, length, ◌==◌, contains, leb, bytes_eq, not, ◌∷◌, false,
  replicate, ◌||◌, List, ℕ, [], Bool, Bytes,
}

abbrev pub vault_seed : Bytes
vault_seed = codes "vault"

abbrev pub sol_seed : Bytes
sol_seed = codes "sol"

-- `Pubkey::default()`
abbrev pub default_key : Bytes
default_key = zero_address

-- `Clock::get()?.unix_timestamp`
abbrev pub unix_timestamp : Transaction → Result Error ℤ
unix_timestamp transaction = map_err (λ code. common (runtime code)) transaction.clock

abbrev pub guard : Bool → RecoveryError → Result Error (Unit {0})
guard test error = require test (recovery error)

-- No attempt, or one that is over.
abbrev pub is_idle : State → Bool
is_idle state = state_eq state State.none || is_terminal state

abbrev pub projected : Vault → ℤ → Attempt
projected vault now = project (config_to_veto vault.veto) (attempt_to_veto vault.attempt) now

abbrev pub empty_veto : VetoConfigAccount
empty_veto = record {
  pause_authority = default_key;
  abort_authority = default_key;
  resume_members = [];
  resume_threshold = 0;
  timelock_seconds = 0;
  pause_ceiling_seconds = 0;
}

-- `AttemptAccount::default()`
abbrev pub empty_attempt : AttemptAccount
empty_attempt = record {
  state = 0;
  accrued_seconds = 0;
  paused_seconds = 0;
  checkpoint_time = pos 0;
}

-- Anchor has created the account afresh, and has checked both addresses against their seeds.
unfoldable pub create_vault : Deployment → Bytes → Bytes → ℕ → ℕ → Bytes → Outcome
create_vault deployment creator vault_id bump sol_bump vault_sol = do
  require
      (bytes_eq deployment.vault_key
        (deployment.derive (vault_seed ∷ creator ∷ vault_id ∷ (bump ∷ []) ∷ [])))
      account_constraint
  require
      (bytes_eq vault_sol
        (deployment.derive (sol_seed ∷ deployment.vault_key ∷ (sol_bump ∷ []) ∷ [])))
      account_constraint
  ok (
    record {
      creator = creator;
      vault_id = vault_id;
      owner = creator;
      recovery_owner = default_key;
      epoch = 0;
      nonce = 0;
      attempt_seq = 0;
      config_nonce = 0;
      veto = empty_veto;
      attempt = empty_attempt;
      intent_digest = replicate 32 0;
      registered = false;
      bump = bump;
      sol_bump = sol_bump;
    },
    vault_created deployment.vault_key creator creator,
  )

-- Run one veto transition against the stored attempt.
unfoldable pub apply : Transaction → Vault → Transition → Result Error Vault
apply transaction vault transition = do
  now ← unix_timestamp transaction
  let config = config_to_veto vault.veto
  let attempt = attempt_to_veto vault.attempt
  guard (not (state_eq attempt.state State.none)) RecoveryError.no_attempt
  after ← map_err map_veto_error (transition config attempt now)
  ok (record vault { attempt = attempt_from_veto after })

-- The loop of `resume` over the signers, with those already seen.
unfoldable pub check_signers : Config → List Bytes → List Bytes → Result Error (Unit {0})
check_signers veto seen [] = ok tt
check_signers veto seen (signer ∷ signers) = do
  guard (is_resume_member veto signer) RecoveryError.not_resume_quorum
  guard (not (contains seen signer)) RecoveryError.duplicate_resume_signer
  check_signers veto (seen ++ (signer ∷ [])) signers

module _ (deployment : Deployment) where
  open deployment use {hasher, cluster, program_id, vault_key}

  -- The digest that the recovery owner signs for a registration.
  abbrev pub registration_of : Vault → Bytes → VetoConfigAccount → ℕ → Bytes
  registration_of vault recovery_owner veto config_nonce =
      registration_digest hasher cluster program_id vault_key vault.owner recovery_owner
        (fingerprint hasher veto) config_nonce

  abbrev pub intent_of : Intent → Bytes
  intent_of intent =
      intent_digest hasher cluster program_id vault_key intent.epoch intent.nonce intent.new_owner
        intent.new_owner_config intent.expiry

  abbrev pub resume_of : Vault → Bytes
  resume_of vault =
      resume_digest hasher cluster program_id vault_key vault.intent_digest vault.attempt_seq

module _ (deployment : Deployment) (transaction : Transaction) where
  open deployment use {vault_key, derive}
  open transaction use {sysvar}

  abbrev pub verified : ℕ → List (Bytes × Bytes) → Result Error (Unit {0})
  verified ed25519_index expected = map_err common (verify_detached sysvar ed25519_index expected)

  unfoldable pub register : Bytes → Bytes → VetoConfigAccount → ℕ → ℕ → Vault → Outcome
  register owner recovery_owner veto config_nonce ed25519_index vault = do
    guard (bytes_eq owner vault.owner) RecoveryError.not_owner
    guard (not (bytes_eq recovery_owner default_key)) RecoveryError.zero_recovery_owner
    guard (config_nonce == vault.config_nonce) RecoveryError.wrong_config_nonce
    now ← unix_timestamp transaction
    guard (is_idle (projected vault now).state) RecoveryError.attempt_in_flight
    map_err map_veto_error (validate (config_to_veto veto))
    guard
        (not (bytes_eq recovery_owner veto.pause_authority)
          && not (bytes_eq recovery_owner veto.abort_authority)
          && not (contains veto.resume_members recovery_owner))
        RecoveryError.recovery_owner_holds_veto_role
    verified ed25519_index
        ((recovery_owner, registration_of deployment vault recovery_owner veto config_nonce) ∷ [])
    let next = u64_saturating_add vault.config_nonce 1
    ok (
      record vault {
        recovery_owner = recovery_owner;
        veto = veto;
        registered = true;
        config_nonce = next;
      },
      if vault.registered
          then recovery_key_rotated vault_key vault.recovery_owner recovery_owner next
          else recovery_registered vault_key recovery_owner vault.epoch,
    )

  unfoldable pub initiate_recovery : Intent → ℕ → Vault → Outcome
  initiate_recovery intent ed25519_index vault = do
    guard vault.registered RecoveryError.not_registered
    guard (not (bytes_eq intent.new_owner default_key)) RecoveryError.zero_new_owner
    now ← unix_timestamp transaction
    guard (ltb_ℤ now intent.expiry) RecoveryError.intent_expired
    guard (intent.epoch == vault.epoch) RecoveryError.wrong_epoch
    guard (intent.nonce == vault.nonce) RecoveryError.wrong_nonce
    guard (is_idle (projected vault now).state) RecoveryError.attempt_in_flight
    let digest = intent_of deployment intent
    verified ed25519_index ((vault.recovery_owner, digest) ∷ [])
    ok (
      record vault {
        attempt = attempt_from_veto (start default_attempt now);
        intent_digest = digest;
        attempt_seq = u64_saturating_add vault.attempt_seq 1;
      },
      recovery_initiated vault_key digest vault.epoch,
    )

  unfoldable pub pause_recovery : Bytes → Vault → Outcome
  pause_recovery pause_authority vault = do
    guard vault.registered RecoveryError.not_registered
    guard (bytes_eq pause_authority vault.veto.pause_authority) RecoveryError.not_pause_authority
    after ← apply transaction vault pause
    ok (
      record after { attempt_seq = u64_saturating_add after.attempt_seq 1 },
      recovery_paused vault_key after.intent_digest,
    )

  unfoldable pub resume_recovery : List Bytes → ℕ → Vault → Outcome
  unfolding check_signers
  resume_recovery signers ed25519_index vault = do
    guard vault.registered RecoveryError.not_registered
    guard (leb vault.veto.resume_threshold (length signers)) RecoveryError.below_resume_threshold
    check_signers (config_to_veto vault.veto) [] signers
    verified ed25519_index (map (λ signer. (signer, resume_of deployment vault)) signers)
    after ← apply transaction vault resume
    ok (after, recovery_resumed vault_key after.intent_digest)

  unfoldable pub abort_recovery : Bytes → Vault → Outcome
  abort_recovery abort_authority vault = do
    guard vault.registered RecoveryError.not_registered
    guard (bytes_eq abort_authority vault.veto.abort_authority) RecoveryError.not_abort_authority
    after ← apply transaction vault abort
    ok (
      record after { nonce = u64_saturating_add after.nonce 1 },
      recovery_aborted vault_key after.intent_digest,
    )

  unfoldable pub execute_recovery : Intent → Vault → Outcome
  execute_recovery intent vault = do
    guard vault.registered RecoveryError.not_registered
    let digest = intent_of deployment intent
    guard (bytes_eq digest vault.intent_digest) RecoveryError.unknown_intent
    guard (intent.epoch == vault.epoch) RecoveryError.wrong_epoch
    after ← apply transaction vault execute
    let next = u64_saturating_add after.epoch 1
    ok (
      record after {
        owner = intent.new_owner;
        epoch = next;
        nonce = u64_saturating_add after.nonce 1;
      },
      recovery_executed vault_key digest intent.new_owner next,
    )

  -- Anchor checks the address of `vault_sol` against the seeds before the handler runs.
  unfoldable pub execute_transfer : Bytes → Bytes → Bytes → ℕ → Vault → Outcome
  execute_transfer owner vault_sol destination amount vault = do
    require (bytes_eq vault_sol (derive (sol_seed ∷ vault_key ∷ (vault.sol_bump ∷ []) ∷ [])))
        account_constraint
    guard (bytes_eq owner vault.owner) RecoveryError.not_owner
    map_err (λ code. common (runtime code))
        (transaction.invoke_transfer vault_sol destination amount)
    ok (vault, lamports_moved vault_sol destination amount)

unfoldable pub projected_state : Transaction → Vault → Result Error ℕ
projected_state transaction vault = do
  now ← unix_timestamp transaction
  ok (ordinal (projected vault now).state)
