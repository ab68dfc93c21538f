-- ===== src/Evm/GradualVeto/Validation.antt =====
-- `validate` in Solidity beside `validate` of the Rust crate.
use recovery_guardian_contra.Prelude.{
  ◌≡◌, ◌≤◌, arith, List, [], ◌∷◌, map, refl, Bytes, bytes_eq, contains, length, if◌then◌else◌,
}
use recovery_guardian_contra.Prelude.Results.{ok, err, Result}
use recovery_guardian_contra.Veto
use recovery_guardian_contra.Validation
use recovery_guardian_contra.Evm.GradualVeto.{
  Config, Revert, validate, validate_members, require_distinct, zero_address, invalid_config,
  Address,
}
use recovery_guardian_contra.Evm.GradualVeto.Translation.{config_of, widened, Agrees}

widened_eq : (a b : Bytes) → bytes_eq (widened a) (widened b) ≡ bytes_eq a b
unfolding widened bytes_eq
widened_eq a b = refl

widened_zero : (a : Bytes) → bytes_eq (widened a) Validation.zero_address ≡ bytes_eq a zero_address
unfolding widened bytes_eq
widened_zero a = refl

contains-widened :
    (members : List Address) (a : Address)
    → contains (map widened members) (widened a) ≡ contains members a
unfolding contains
contains-widened [] a = refl
contains-widened (member ∷ members) a = rw (widened_eq member a) (rw (contains-widened members a))

length-widened : (members : List Address) → length (map widened members) ≡ length members
length-widened [] = refl
length-widened (member ∷ members) = omega (arith, length-widened members)

require_distinct_lem :
    (member : Address) (rest : List Address)
    → require_distinct member rest ≡ (
        if contains rest member
        then err (invalid_config "resumeQuorum contains a duplicate")
        else ok tt)
unfolding require_distinct contains
require_distinct_lem member [] = refl
require_distinct_lem member (later ∷ rest) = ground (arith, require_distinct_lem member rest)

abbrev pub Same : Result Revert (Unit {0}) → Result Veto.VetoError (Unit {0}) → Type 0
Same = Agrees (λ (done : Unit {0}). done)

module _ (config : Config) where
  validate_members_agree :
      (members : List Address)
      → Same
          (validate_members config members)
          (Validation.validate_members (config_of config) (map widened members))
  unfolding validate_members Validation.validate_members
  validate_members_agree [] = refl
  validate_members_agree (member ∷ rest) = ground (
    arith,
    widened_zero member,
    widened_eq member config.pause_authority,
    widened_eq member config.abort_authority,
    contains-widened rest member,
    require_distinct_lem member rest,
    validate_members_agree rest,
  )

  -- At no more members than `MAX_RESUME_MEMBERS`, the Solidity `validate` accepts a configuration
  -- exactly when the Rust `validate` does, and reverts with the reason that names the same
  -- condition.
  pub validate_agrees :
      length config.resume_members ≤ Veto.max_resume_members
      → Same (validate config) (Validation.validate (config_of config))
  unfolding validate Validation.validate
  validate_agrees few = ground (
    arith,
    widened_zero config.pause_authority,
    widened_zero config.abort_authority,
    widened_eq config.abort_authority config.pause_authority,
    length-widened config.resume_members,
    validate_members_agree config.resume_members,
  )
