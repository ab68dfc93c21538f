-- ===== src/Vault/Errors.antt =====
-- The errors of the vault program, in the order of their codes, and the mapping of the veto machine's.
use recovery_guardian_contra.Veto.{VetoError}
use recovery_guardian_contra.Verify.{Failure}

pub data RecoveryError : Type 0 where
  wrong_config_nonce not_registered not_owner : RecoveryError
  zero_recovery_owner zero_new_owner intent_expired : RecoveryError
  wrong_epoch wrong_nonce attempt_in_flight : RecoveryError
  no_attempt unknown_intent not_pause_authority : RecoveryError
  not_abort_authority not_resume_quorum below_resume_threshold : RecoveryError
  duplicate_resume_signer not_initiated not_paused : RecoveryError
  not_executable already_terminal pause_authority_is_zero : RecoveryError
  abort_authority_is_zero resume_quorum_is_empty resume_threshold_is_zero : RecoveryError
  resume_threshold_exceeds_membership timelock_is_zero pause_ceiling_is_zero : RecoveryError
  pause_and_abort_held_by_one_party pause_and_resume_held_by_one_party
        resume_and_abort_held_by_one_party :
      RecoveryError
  resume_quorum_contains_zero_address resume_quorum_contains_duplicate too_many_resume_members :
      RecoveryError
  pause_budget_exhausted recovery_owner_holds_veto_role : RecoveryError

-- An Anchor error, as the program returns one. `account_constraint` is Anchor's refusal of an
-- account before a handler runs.
pub data Error : Type 0 where
  recovery : RecoveryError → Error
  common : Failure → Error
  account_constraint : Error

unfoldable pub map_veto_error : VetoError → Error
map_veto_error VetoError.not_initiated = recovery RecoveryError.not_initiated
map_veto_error VetoError.not_paused = recovery RecoveryError.not_paused
map_veto_error VetoError.not_executable = recovery RecoveryError.not_executable
map_veto_error VetoError.already_terminal = recovery RecoveryError.already_terminal
map_veto_error VetoError.pause_budget_exhausted = recovery RecoveryError.pause_budget_exhausted
map_veto_error VetoError.pause_authority_is_zero = recovery RecoveryError.pause_authority_is_zero
map_veto_error VetoError.abort_authority_is_zero = recovery RecoveryError.abort_authority_is_zero
map_veto_error VetoError.resume_quorum_is_empty = recovery RecoveryError.resume_quorum_is_empty
map_veto_error VetoError.resume_threshold_is_zero = recovery RecoveryError.resume_threshold_is_zero
map_veto_error VetoError.resume_threshold_exceeds_membership =
    recovery RecoveryError.resume_threshold_exceeds_membership
map_veto_error VetoError.timelock_is_zero = recovery RecoveryError.timelock_is_zero
map_veto_error VetoError.pause_ceiling_is_zero = recovery RecoveryError.pause_ceiling_is_zero
map_veto_error VetoError.pause_and_abort_held_by_one_party =
    recovery RecoveryError.pause_and_abort_held_by_one_party
map_veto_error VetoError.pause_and_resume_held_by_one_party =
    recovery RecoveryError.pause_and_resume_held_by_one_party
map_veto_error VetoError.resume_and_abort_held_by_one_party =
    recovery RecoveryError.resume_and_abort_held_by_one_party
map_veto_error VetoError.resume_quorum_contains_zero_address =
    recovery RecoveryError.resume_quorum_contains_zero_address
map_veto_error VetoError.resume_quorum_contains_duplicate =
    recovery RecoveryError.resume_quorum_contains_duplicate
map_veto_error VetoError.too_many_resume_members = recovery RecoveryError.too_many_resume_members
