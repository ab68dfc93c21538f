-- ===== src/Validation.antt =====
-- `validate` of solana/crates/gradual-veto/src/lib.rs: the independence of the veto authorities.
pub mod Independence
pub mod Errors
mod Tests
use recovery_guardian_contra.Prelude.{
  List, [], ◌∷◌, bytes_eq, contains, length, replicate, ltb, ◌==◌, if◌then◌else◌,
}
use recovery_guardian_contra.Prelude.Results.{Result, ok, err}
use recovery_guardian_contra.Veto.{
  Address, Config, max_resume_members, VetoError, pause_authority_is_zero, abort_authority_is_zero,
  resume_quorum_is_empty, resume_threshold_is_zero, resume_threshold_exceeds_membership,
  timelock_is_zero, pause_ceiling_is_zero, pause_and_abort_held_by_one_party,
  pause_and_resume_held_by_one_party, resume_and_abort_held_by_one_party,
  resume_quorum_contains_zero_address, resume_quorum_contains_duplicate, too_many_resume_members,
}

-- `const ZERO: Address = [0u8; 32]`
abbrev pub zero_address : Address
zero_address = replicate 32 0

-- The loop of `validate` over the members, with those that follow each one.
unfoldable pub validate_members : Config → List Address → Result VetoError (Unit {0})
validate_members config [] = ok tt
validate_members config (member ∷ rest) =
    let later = validate_members config rest in
    if bytes_eq member zero_address
    then err resume_quorum_contains_zero_address
    else if bytes_eq member config.pause_authority
    then err pause_and_resume_held_by_one_party
    else if bytes_eq member config.abort_authority
    then err resume_and_abort_held_by_one_party
    else if contains rest member
    then err resume_quorum_contains_duplicate
    else later

unfoldable pub validate : Config → Result VetoError (Unit {0})
unfolding validate_members
validate config =
    if bytes_eq config.pause_authority zero_address
    then err pause_authority_is_zero
    else if bytes_eq config.abort_authority zero_address
    then err abort_authority_is_zero
    else if length config.resume_members == 0
    then err resume_quorum_is_empty
    else if ltb max_resume_members (length config.resume_members)
    then err too_many_resume_members
    else if config.resume_threshold == 0
    then err resume_threshold_is_zero
    else if ltb (length config.resume_members) config.resume_threshold
    then err resume_threshold_exceeds_membership
    else if config.timelock_seconds == 0
    then err timelock_is_zero
    else if config.pause_ceiling_seconds == 0
    then err pause_ceiling_is_zero
    else if bytes_eq config.abort_authority config.pause_authority
    then err pause_and_abort_held_by_one_party
    else validate_members config config.resume_members
