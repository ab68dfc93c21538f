-- ===== src/Prelude/Seen.antt =====
-- Lists read from the left, with what has been seen of them.
use mathlib.Core.Path.{refl, sym, subst}
use mathlib.Core.Logic.{inl, inr}
use mathlib.Core.List.{List, [], ◌∷◌, ◌++◌}
use recovery_guardian_contra.Prelude.Lists.{All, Bytes, Has}

Has-append_left : (xs ys : List Bytes) (a : Bytes) → Has xs a → Has (xs ++ ys) a
Has-append_left [] ys a h = absurd h
Has-append_left (x ∷ xs) ys a (inl e) = inl e
Has-append_left (x ∷ xs) ys a (inr h) = inr (Has-append_left xs ys a h)

Has-append_last : (xs : List Bytes) (a : Bytes) → Has (xs ++ (a ∷ [])) a
Has-append_last [] a = inl refl
Has-append_last (x ∷ xs) a = inr (Has-append_last xs a)

-- What the loop over the signers has checked of each of them.
abbrev pub IsFresh : List Bytes → List Bytes → Type 0
IsFresh seen signers = All (λ signer. ¬ (Has seen signer)) signers

pub IsFresh-narrow :
    (seen : List Bytes) (s : Bytes) (signers : List Bytes)
    → IsFresh (seen ++ (s ∷ [])) signers
    → IsFresh seen signers × (¬ (Has signers s))
IsFresh-narrow seen s [] fresh = (tt, λ h. h)
IsFresh-narrow seen s (r ∷ signers) fresh =
    let (rest, absent) = IsFresh-narrow seen s signers fresh.1 in
    (
      (λ h. fresh.0 (Has-append_left seen (s ∷ []) r h), rest),
      λ h. elim h [
        | inl e ↦ fresh.0 (subst (Has (seen ++ (s ∷ []))) (sym e) (Has-append_last seen s))
        | inr later ↦ absent later
      ],
    )
