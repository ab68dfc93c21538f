-- ===== src/Digest/Collision.antt =====
-- Collisions of the hash function, and what equal hashes come from.
use mathlib.Core.List.{append-nil}
use recovery_guardian_contra.Encoding.Injective.{concat_injective, SameShape}
use recovery_guardian_contra.Encoding.{concat}
use recovery_guardian_contra.Prelude.{
  ◌∙◌, inr, bytes_eq_iff, sym, bytes_eq, inl, Bool-cases, [], ◌⊎◌, ◌∷◌, ◌≡◌, ◌≢◌, List, Bytes,
}
use recovery_guardian_contra.Digest.{[], List, Hasher}

-- Two different byte strings with one hash.
abbrev pub Collision : Hasher → Type 0
Collision hasher =
    (xs : List Bytes) × (ys : List Bytes) × (concat xs ≢ concat ys)
    × (hasher.hashv xs ≡ hasher.hashv ys)

module _ (hasher : Hasher) where
  -- Equal hashes come from equal bytes, or are a collision.
  pub same_bytes :
      (xs ys : List Bytes)
      → hasher.hashv xs ≡ hasher.hashv ys
      → (concat xs ≡ concat ys) ⊎ Collision hasher
  same_bytes xs ys h = elim (Bool-cases (bytes_eq (concat xs) (concat ys))) [
    | inl e ↦ inl ((bytes_eq_iff (concat xs) (concat ys)).0 e)
    | inr e ↦ inr (xs, ys, (λ p. cc ((bytes_eq_iff (concat xs) (concat ys)).1 p)), h)
  ]

  pub same_parts :
      (xs ys : List Bytes)
      → SameShape xs ys
      → hasher.hashv xs ≡ hasher.hashv ys
      → (xs ≡ ys) ⊎ Collision hasher
  same_parts xs ys shape h = elim (same_bytes xs ys h) [
    | inl e ↦ inl (concat_injective xs ys shape e)
    | inr c ↦ inr c
  ]

  pub same_config :
      (x y : Bytes) → hasher.hashv (x ∷ []) ≡ hasher.hashv (y ∷ []) → (x ≡ y) ⊎ Collision hasher
  unfolding concat
  same_config x y h = elim (same_bytes (x ∷ []) (y ∷ []) h) [
    | inl e ↦ inl (sym (append-nil x) ∙ e ∙ append-nil y)
    | inr c ↦ inr c
  ]
