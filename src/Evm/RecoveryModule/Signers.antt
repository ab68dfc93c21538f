-- ===== src/Evm/RecoveryModule/Signers.antt =====
-- The loop over the signers of a resume.
use recovery_guardian_contra.Prelude.{
  ℕ, List, [], ◌∷◌, ◌++◌, Bytes, ◌≡◌, ◌+◌, some, All, AllDistinct, Has, ap, ◌∙◌, bytes_eq_iff,
  contains_iff, contains, bytes_eq, not,
}
use recovery_guardian_contra.Prelude.Results.{ok, ok_or, ok_or-eq-ok, require-eq-ok, >>=-eq-ok}
use recovery_guardian_contra.Prelude.Seen.{IsFresh, IsFresh-narrow}
use recovery_guardian_contra.Evm.GradualVeto.{Address, Config, is_resume_member}
use recovery_guardian_contra.Evm.TypedData.{Deployment}
use recovery_guardian_contra.Evm.RecoveryModule.{Environment, check_signers, invalid_signature}

module _ (deployment : Deployment) where
  open deployment use {recover}

  -- Each signer's signature over the digest is at its place.
  abbrev pub AllSigned : Bytes → List Address → List Bytes → Type 0
  AllSigned digest [] signatures = Unit {0}
  AllSigned digest (signer ∷ signers) [] = ⊥
  AllSigned digest (signer ∷ signers) (signature ∷ signatures) =
      (recover digest signature ≡ some signer) × AllSigned digest signers signatures

  module _ (environment : Environment) where
    -- The signers are members, none has been seen, and they are distinct.
    pub check_signers_lem :
        (config : Config) (digest : Bytes) (seen signers : List Address) (signatures : List Bytes)
        (counted total : ℕ)
        → check_signers deployment environment config digest seen signers signatures counted
          ≡ ok total
        → All (λ signer. Has config.resume_members signer) signers
          × IsFresh seen signers
          × AllDistinct signers
          × AllSigned digest signers signatures
    unfolding check_signers is_resume_member
    check_signers_lem config digest seen [] signatures counted total h = (tt, tt, tt, tt)
    check_signers_lem config digest seen (signer ∷ signers) [] counted total h = cc
    check_signers_lem config digest seen (signer ∷ signers) (signature ∷ signatures) counted total
          h =
        let (member, h1) = require-eq-ok (is_resume_member config signer) _ _ h in
        let (unseen, h2) = require-eq-ok (not (contains seen signer)) _ _ h1 in
        let (recovered, ran, h3) =
          >>=-eq-ok (ok_or (recover digest signature) invalid_signature) _ h2 in
        let (signed, h4) = require-eq-ok (bytes_eq recovered signer) _ _ h3 in
        let (members, fresh, distinct, all_signed) =
          check_signers_lem config digest (seen ++ (signer ∷ [])) signers signatures (counted + 1)
            total h4 in
        let (fresh', absent) = IsFresh-narrow seen signer signers fresh in
        (
          ((contains_iff _ _).0 member, members),
          ((λ was. cc (rw ((contains_iff seen signer).1 was) at unseen)), fresh'),
          (absent, distinct),
          (
            ok_or-eq-ok _ invalid_signature ran
                ∙ ap (λ a. some a) ((bytes_eq_iff recovered signer).0 signed),
            all_signed,
          ),
        )
