-- ===== src/Validation/Tests.antt =====
-- `validate` at concrete configurations.
use recovery_guardian_contra.Validation.Errors.{validate_explains}
use recovery_guardian_contra.Validation.Independence.{validate_iff, IsIndependent}
use recovery_guardian_contra.Prelude.Results.{err, ok}
use recovery_guardian_contra.Prelude.{
  refl, ◌↔◌, [], contains, ◌∷◌, ◌≡◌, bytes_eq, replicate, AllDistinct,
}
use recovery_guardian_contra.Validation.{
  resume_quorum_contains_duplicate, ok, bytes_eq, replicate, validate,
}
use recovery_guardian_contra.Veto.{resume_quorum_contains_duplicate, Config}

abbrev config : Config
config = record {
  pause_authority = replicate 32 1;
  abort_authority = replicate 32 2;
  resume_members = replicate 32 3 ∷ replicate 32 4 ∷ [];
  resume_threshold = 2;
  timelock_seconds = 100;
  pause_ceiling_seconds = 30;
}

accepted : validate config ≡ ok tt
unfolding validate bytes_eq contains
accepted = refl

duplicate_refused :
    validate (record config { resume_members = replicate 32 3 ∷ replicate 32 3 ∷ [] })
    ≡ err resume_quorum_contains_duplicate
unfolding validate bytes_eq contains
duplicate_refused = refl

validate_iff_example : (validate config ≡ ok tt) ↔ IsIndependent config
validate_iff_example = validate_iff config

validate_explains_example : ¬ (AllDistinct (replicate 32 3 ∷ replicate 32 3 ∷ []))
validate_explains_example =
    validate_explains (record config { resume_members = replicate 32 3 ∷ replicate 32 3 ∷ [] })
      resume_quorum_contains_duplicate duplicate_refused
