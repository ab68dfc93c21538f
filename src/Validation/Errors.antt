-- ===== src/Validation/Errors.antt =====
-- What each error of `validate` says of the configuration that it refuses.
use mathlib.Core.Path.{subst}
use recovery_guardian_contra.Veto.{
  VetoError, Config, Address, max_resume_members, pause_authority_is_zero, abort_authority_is_zero,
  resume_quorum_is_empty, too_many_resume_members, resume_threshold_is_zero,
  resume_threshold_exceeds_membership, timelock_is_zero, pause_ceiling_is_zero,
  pause_and_abort_held_by_one_party, resume_quorum_contains_zero_address,
  pause_and_resume_held_by_one_party, resume_and_abort_held_by_one_party,
  resume_quorum_contains_duplicate,
}
use recovery_guardian_contra.Prelude.Results.{Result, err}
use recovery_guardian_contra.Prelude.{
  false, ==_iff, ltb→lt, contains_iff, ◌⊎◌, ◌==◌, contains, true, refl, ltb, bytes_eq_iff,
  if◌then◌else◌, arith, Bool, inl, length, bytes_eq, ◌<◌, inr, AllDistinct, ◌∷◌, Has, [], List, ◌≡◌,
}
use recovery_guardian_contra.Validation.{
  max_resume_members, err, Address, List, Config, validate, validate_members, zero_address,
}

-- The condition that an error names; the errors of the transitions name none here.
abbrev pub Violates : VetoError → Config → Type 0
Violates pause_authority_is_zero config = config.pause_authority ≡ zero_address
Violates abort_authority_is_zero config = config.abort_authority ≡ zero_address
Violates resume_quorum_is_empty config = config.resume_members ≡ []
Violates too_many_resume_members config = max_resume_members < length config.resume_members
Violates resume_threshold_is_zero config = config.resume_threshold ≡ 0
Violates resume_threshold_exceeds_membership config =
    length config.resume_members < config.resume_threshold
Violates timelock_is_zero config = config.timelock_seconds ≡ 0
Violates pause_ceiling_is_zero config = config.pause_ceiling_seconds ≡ 0
Violates pause_and_abort_held_by_one_party config = config.abort_authority ≡ config.pause_authority
Violates resume_quorum_contains_zero_address config = Has config.resume_members zero_address
Violates pause_and_resume_held_by_one_party config =
    Has config.resume_members config.pause_authority
Violates resume_and_abort_held_by_one_party config =
    Has config.resume_members config.abort_authority
Violates resume_quorum_contains_duplicate config = ¬ (AllDistinct config.resume_members)
Violates _ config = ⊥

-- The same for the errors of the loop, at any members.
abbrev ViolatesAt : VetoError → Config → List Address → Type 0
ViolatesAt resume_quorum_contains_zero_address config members = Has members zero_address
ViolatesAt pause_and_resume_held_by_one_party config members = Has members config.pause_authority
ViolatesAt resume_and_abort_held_by_one_party config members = Has members config.abort_authority
ViolatesAt resume_quorum_contains_duplicate config members = ¬ (AllDistinct members)
ViolatesAt _ config members = ⊥

-- A violation stays one with a member in front.
ViolatesAt-cons :
    (error : VetoError) (config : Config) (member : Address) (rest : List Address)
    → ViolatesAt error config rest
    → ViolatesAt error config (member ∷ rest)
ViolatesAt-cons resume_quorum_contains_zero_address config member rest h = inr h
ViolatesAt-cons pause_and_resume_held_by_one_party config member rest h = inr h
ViolatesAt-cons resume_and_abort_held_by_one_party config member rest h = inr h
ViolatesAt-cons resume_quorum_contains_duplicate config member rest h = λ distinct. h distinct.1
ViolatesAt-cons _ config member rest h = absurd h

-- One test of a chain that ends in an error.
failed_at :
    (test : Bool) (named error : VetoError) (later : Result VetoError (Unit {0}))
    → (if test then err named else later) ≡ err error
    → ((test ≡ true) × (named ≡ error)) ⊎ ((test ≡ false) × (later ≡ err error))
failed_at true named error later h = inl (refl, ground arith)
failed_at false named error later h = inr (refl, h)

members_explained :
    (config : Config) (members : List Address) (error : VetoError)
    → validate_members config members ≡ err error
    → ViolatesAt error config members
unfolding validate_members
members_explained config [] error h = cc
members_explained config (member ∷ rest) error h =
    let at = λ (e : VetoError). ViolatesAt e config (member ∷ rest) in
    elim (failed_at (bytes_eq member zero_address) _ error _ h) [
      | inl (t, e) ↦ subst at e (inl ((bytes_eq_iff _ _).0 t))
      | inr (_, h1) ↦ elim (failed_at (bytes_eq member config.pause_authority) _ error _ h1) [
        | inl (t, e) ↦ subst at e (inl ((bytes_eq_iff _ _).0 t))
        | inr (_, h2) ↦ elim (failed_at (bytes_eq member config.abort_authority) _ error _ h2) [
          | inl (t, e) ↦ subst at e (inl ((bytes_eq_iff _ _).0 t))
          | inr (_, h3) ↦ elim (failed_at (contains rest member) _ error _ h3) [
            | inl (t, e) ↦ subst at e (λ distinct. distinct.0 ((contains_iff _ _).0 t))
            | inr (_, h4) ↦
                ViolatesAt-cons error config member rest (members_explained config rest error h4)
          ]
        ]
      ]
    ]

ViolatesAt-Violates :
    (error : VetoError) (config : Config)
    → ViolatesAt error config config.resume_members
    → Violates error config
ViolatesAt-Violates resume_quorum_contains_zero_address config h = h
ViolatesAt-Violates pause_and_resume_held_by_one_party config h = h
ViolatesAt-Violates resume_and_abort_held_by_one_party config h = h
ViolatesAt-Violates resume_quorum_contains_duplicate config h = h
ViolatesAt-Violates _ config h = absurd h

empty_members : (members : List Address) → length members ≡ 0 → members ≡ []
empty_members [] h = refl
empty_members (member ∷ rest) h = absurd (omega arith)

-- The tests from the number of members on.
sized_explained :
    (config : Config) (error : VetoError)
    → (if ltb max_resume_members (length config.resume_members)
        then err too_many_resume_members
        else if config.resume_threshold == 0
        then err resume_threshold_is_zero
        else if ltb (length config.resume_members) config.resume_threshold
        then err resume_threshold_exceeds_membership
        else if config.timelock_seconds == 0
        then err timelock_is_zero
        else if config.pause_ceiling_seconds == 0
        then err pause_ceiling_is_zero
        else if bytes_eq config.abort_authority config.pause_authority
        then err pause_and_abort_held_by_one_party
        else validate_members config config.resume_members)
      ≡ err error
    → Violates error config
sized_explained config error h =
    let at = λ (e : VetoError). Violates e config in
    let members = length config.resume_members in
    elim (failed_at (ltb max_resume_members members) _ error _ h) [
      | inl (t, e) ↦ subst at e (ltb→lt _ _ t)
      | inr (_, h1) ↦ elim (failed_at (config.resume_threshold == 0) _ error _ h1) [
        | inl (t, e) ↦ subst at e ((==_iff _ _).0 t)
        | inr (_, h2) ↦ elim (failed_at (ltb members config.resume_threshold) _ error _ h2) [
          | inl (t, e) ↦ subst at e (ltb→lt _ _ t)
          | inr (_, h3) ↦ elim (failed_at (config.timelock_seconds == 0) _ error _ h3) [
            | inl (t, e) ↦ subst at e ((==_iff _ _).0 t)
            | inr (_, h4) ↦ elim (failed_at (config.pause_ceiling_seconds == 0) _ error _ h4) [
              | inl (t, e) ↦ subst at e ((==_iff _ _).0 t)
              | inr (_, h5) ↦
                  elim (failed_at (bytes_eq config.abort_authority config.pause_authority) _ error _
                    h5) [
                      | inl (t, e) ↦ subst at e ((bytes_eq_iff _ _).0 t)
                      | inr (_, h6) ↦
                          ViolatesAt-Violates error config
                            (members_explained config config.resume_members error h6)
                    ]
            ]
          ]
        ]
      ]
    ]

-- An error of `validate` is true of the configuration: the condition that the error names is
-- violated, and `validate` gives no error of the transitions.
pub validate_explains :
    (config : Config) (error : VetoError) → validate config ≡ err error → Violates error config
unfolding validate
validate_explains config error h =
    let at = λ (e : VetoError). Violates e config in
    elim (failed_at (bytes_eq config.pause_authority zero_address) _ error _ h) [
      | inl (t, e) ↦ subst at e ((bytes_eq_iff _ _).0 t)
      | inr (_, h1) ↦ elim (failed_at (bytes_eq config.abort_authority zero_address) _ error _ h1) [
        | inl (t, e) ↦ subst at e ((bytes_eq_iff _ _).0 t)
        | inr (_, h2) ↦ elim (failed_at (length config.resume_members == 0) _ error _ h2) [
          | inl (t, e) ↦ subst at e (empty_members config.resume_members ((==_iff _ _).0 t))
          | inr (_, h3) ↦ sized_explained config error h3
        ]
      ]
    ]
