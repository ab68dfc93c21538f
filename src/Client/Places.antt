-- ===== src/Client/Places.antt =====
-- Pieces of a byte string and where they stand in it.
use mathlib.Core.List.{◌∷◌, append_assoc}
use recovery_guardian_contra.Verify.{slice}
use recovery_guardian_contra.Prelude.{
  [], length-append, ap, refl, arith, ◌≤◌, ◌+◌, length, ◌≡◌, ◌++◌, take, drop, ℕ, Bytes,
}

-- The piece stands in the bytes from the offset on.
pub record Holds (bytes : Bytes) (offset : ℕ) (piece : Bytes) : Type 0 where
  pub before : Bytes
  pub behind : Bytes
  pub split : bytes ≡ before ++ (piece ++ behind)
  pub at : length before ≡ offset

drop-append : (xs ys : Bytes) → drop (length xs) (xs ++ ys) ≡ ys
drop-append [] ys = refl
drop-append (x ∷ xs) ys = drop-append xs ys

take-append : (xs ys : Bytes) → take (length xs) (xs ++ ys) ≡ xs
take-append [] ys = refl
take-append (x ∷ xs) ys = ap (λ zs. x ∷ zs) (take-append xs ys)

module _ {bytes piece : Bytes} {offset : ℕ} (h : Holds bytes offset piece) where
  pub Holds-slice : slice bytes offset (length piece) ≡ piece
  Holds-slice =
      rw h.split
        (rw (← h.at) (rw (drop-append h.before (piece ++ h.behind)) (take-append piece h.behind)))

  pub Holds-inside : offset + length piece ≤ length bytes
  Holds-inside = omega (
    arith,
    h.at,
    ap (λ (xs : Bytes). length xs) h.split,
    length-append h.before (piece ++ h.behind),
    length-append piece h.behind,
  )

  pub Holds-grow : (more : Bytes) → Holds (bytes ++ more) offset piece
  Holds-grow more = record {
    before = h.before;
    behind = h.behind ++ more;
    split = rw h.split (simp append_assoc);
    at = h.at;
  }

  pub Holds-within :
      {outer : Bytes} {start : ℕ} → Holds outer start bytes → Holds outer (start + offset) piece
  Holds-within {outer} {start} o = record {
    before = o.before ++ h.before;
    behind = h.behind ++ o.behind;
    split = rw o.split (rw h.split (simp append_assoc));
    at = omega (arith, length-append o.before h.before, o.at, h.at);
  }

pub Holds-here :
    (before piece behind : Bytes) → Holds (before ++ (piece ++ behind)) (length before) piece
Holds-here before piece behind = record {
  before = before;
  behind = behind;
  split = refl;
  at = refl;
}
