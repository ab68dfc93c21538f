-- ===== src/Vault/Allowed/Signers.antt =====
-- The loop of `resume` over its signers, beside what it checks of the whole list.
use recovery_guardian_contra.Prelude.Results.{ok}
use recovery_guardian_contra.Veto.{is_resume_member, Config}
use recovery_guardian_contra.Vault.Handlers.{check_signers}
use recovery_guardian_contra.Prelude.{
  refl, contains_iff, arith, false, sym, ◌↔◌, contains, inr, inl, ◌⊎◌, ◌∷◌, ◌≡◌, AllDistinct, ◌++◌,
  [], All, Has, Bytes, List,
}
use recovery_guardian_contra.Vault.Authority.{check_signers_sound}
use recovery_guardian_contra.Prelude.Seen.{IsFresh}

Has-append_inv : (xs : List Bytes) (s a : Bytes) → Has (xs ++ (s ∷ [])) a → Has xs a ⊎ (s ≡ a)
Has-append_inv [] s a (inl e) = inr e
Has-append_inv [] s a (inr h) = absurd h
Has-append_inv (x ∷ xs) s a (inl e) = inl (inl e)
Has-append_inv (x ∷ xs) s a (inr h) = elim (Has-append_inv xs s a h) [
  | inl there ↦ inl (inr there)
  | inr last ↦ inr last
]

IsFresh-widen :
    (seen : List Bytes) (s : Bytes) (signers : List Bytes)
    → IsFresh seen signers
    → ¬ (Has signers s)
    → IsFresh (seen ++ (s ∷ [])) signers
IsFresh-widen seen s [] fresh absent = tt
IsFresh-widen seen s (r ∷ signers) fresh absent = (
  λ h. elim (Has-append_inv seen s r h) [
    | inl there ↦ fresh.0 there
    | inr e ↦ absent (inl (sym e))
  ],
  IsFresh-widen seen s signers fresh.1 (λ later. absent (inr later)),
)

check_signers_complete :
    (veto : Config) (seen signers : List Bytes)
    → All (λ signer. Has veto.resume_members signer) signers
    → IsFresh seen signers
    → AllDistinct signers
    → check_signers veto seen signers ≡ ok tt
unfolding check_signers is_resume_member
check_signers_complete veto seen [] members fresh distinct = refl
check_signers_complete veto seen (s ∷ signers) members fresh distinct =
    let rest =
      check_signers_complete veto (seen ++ (s ∷ [])) signers members.1
        (IsFresh-widen seen s signers fresh.1 distinct.0) distinct.1 in
    let unseen : contains seen s ≡ false = ground (arith, contains_iff seen s, fresh.0) in
    rw ((contains_iff _ _).1 members.0) (rw unseen rest)

IsFresh-nil : (signers : List Bytes) → IsFresh [] signers
IsFresh-nil [] = tt
IsFresh-nil (s ∷ signers) = ((λ h. h), IsFresh-nil signers)

-- Every signer is a member of the quorum, and none is given twice.
pub check_signers_iff :
    (veto : Config) (signers : List Bytes)
    → (check_signers veto [] signers ≡ ok tt)
      ↔ (All (λ signer. Has veto.resume_members signer) signers × AllDistinct signers)
check_signers_iff veto signers = (
  λ h. let (members, _, distinct) = check_signers_sound veto [] signers h in (members, distinct),
  λ h. check_signers_complete veto [] signers h.0 (IsFresh-nil signers) h.1,
)
