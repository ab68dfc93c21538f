-- ===== src/Validation/Independence.antt =====
-- The independence of the veto authorities as a predicate, beside `validate`.
use recovery_guardian_contra.Prelude.Results.{ok}
use recovery_guardian_contra.Prelude.{
  [], contains_iff, bytes_eq_iff, ◌∷◌, ◌≤◌, length, ◌<◌, arith, AllDistinct, ◌↔◌, Has, ◌≡◌, List,
  ◌≢◌,
}
use recovery_guardian_contra.Validation.{
  max_resume_members, zero_address, validate, validate_members,
}
use recovery_guardian_contra.Veto.{max_resume_members, Address, Config}

-- The independence invariant, as what it says of the authorities and of the intervals.
pub record IsIndependent (config : Config) : Type 0 where
  pub pause_named : config.pause_authority ≢ zero_address
  pub abort_named : config.abort_authority ≢ zero_address
  pub apart : config.abort_authority ≢ config.pause_authority
  pub members_named : ¬ (Has config.resume_members zero_address)
  pub members_not_pause : ¬ (Has config.resume_members config.pause_authority)
  pub members_not_abort : ¬ (Has config.resume_members config.abort_authority)
  pub members_distinct : AllDistinct config.resume_members
  pub some_member : 0 < length config.resume_members
  pub members_fit : length config.resume_members ≤ max_resume_members
  pub threshold_pos : 0 < config.resume_threshold
  pub threshold_met : config.resume_threshold ≤ length config.resume_members
  pub timelock_pos : 0 < config.timelock_seconds
  pub ceiling_pos : 0 < config.pause_ceiling_seconds

-- What the loop over the members establishes.
abbrev HasNoRole : Config → List Address → Type 0
HasNoRole config members =
    (¬ (Has members zero_address))
    × (¬ (Has members config.pause_authority))
    × (¬ (Has members config.abort_authority))
    × AllDistinct members

validate_members_iff :
    (config : Config) (members : List Address)
    → (validate_members config members ≡ ok tt) ↔ HasNoRole config members
unfolding validate_members
validate_members_iff config [] = ground arith
validate_members_iff config (member ∷ rest) = ground (
  arith,
  bytes_eq_iff member zero_address,
  bytes_eq_iff member config.pause_authority,
  bytes_eq_iff member config.abort_authority,
  contains_iff rest member,
  validate_members_iff config rest,
)

-- `validate` accepts a configuration exactly when its authorities and members are named, pairwise
-- distinct and within bounds, its threshold is between 1 and the number of members, and both
-- durations are positive.
pub validate_iff : (config : Config) → (validate config ≡ ok tt) ↔ IsIndependent config
unfolding validate
validate_iff config = ground (
  arith,
  bytes_eq_iff config.pause_authority zero_address,
  bytes_eq_iff config.abort_authority zero_address,
  bytes_eq_iff config.abort_authority config.pause_authority,
  validate_members_iff config config.resume_members,
)
