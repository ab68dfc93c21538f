-- ===== src/Encoding/Injective.antt =====
-- Equal bytes of one width and the values that they encode.
use native.Mathlib.Nat.{pow-suc}
use recovery_guardian_contra.Prelude.Int.{IsI64, ℤ}
use recovery_guardian_contra.Prelude.Words.{IsU64}
use recovery_guardian_contra.Prelude.{
  [], ◌∷◌, refl, zero, ◌*◌, ◌/◌, arith, ap, ◌++◌, ◌^◌, suc, ◌≡◌, ◌<◌, length, List, Bytes, ℕ,
}
use recovery_guardian_contra.Encoding.{suc, ℤ, concat, i64_word, to_le_bytes}

pub length-to_le_bytes : (width value : ℕ) → length (to_le_bytes width value) ≡ width
unfolding to_le_bytes
length-to_le_bytes zero value = refl
length-to_le_bytes (suc width) value = ap suc (length-to_le_bytes width (value / 256))

pub to_le_bytes_injective :
    (width a b : ℕ)
    → a < 256 ^ width
    → b < 256 ^ width
    → to_le_bytes width a ≡ to_le_bytes width b
    → a ≡ b
unfolding to_le_bytes
to_le_bytes_injective zero a b ha hb h = omega arith
to_le_bytes_injective (suc width) a b ha hb h =
    let la : a < 256 ^ width * 256 = rw pow-suc at ha in
    let lb : b < 256 ^ width * 256 = rw pow-suc at hb in
    grind (arith, to_le_bytes_injective width (a / 256) (b / 256))

pub u64_bytes_injective : (a b : ℕ) → IsU64 a → IsU64 b → to_le_bytes 8 a ≡ to_le_bytes 8 b → a ≡ b
u64_bytes_injective a b ha hb h = to_le_bytes_injective 8 a b ha hb h

pub i64_word_injective : (a b : ℤ) → IsI64 a → IsI64 b → i64_word a ≡ i64_word b → a ≡ b
unfolding i64_word
i64_word_injective a b ha hb h = ground arith

pub i64_word-lt : (a : ℤ) → IsI64 a → IsU64 (i64_word a)
unfolding i64_word
i64_word-lt a h = ground arith

-- A prefix of known length can be split off.
pub append_split {ℓ} :
    {A : Type ℓ} (xs ys us vs : List A)
    → length xs ≡ length ys
    → xs ++ us ≡ ys ++ vs
    → (xs ≡ ys) × (us ≡ vs)
append_split [] [] us vs l h = (refl, h)
append_split [] (y ∷ ys) us vs l h = absurd (omega arith)
append_split (x ∷ xs) [] us vs l h = absurd (omega arith)
append_split (x ∷ xs) (y ∷ ys) us vs l h = ground (arith, append_split xs ys us vs)

-- The parts have the same lengths, one by one.
abbrev pub SameShape : List Bytes → List Bytes → Type 0
SameShape [] [] = Unit {0}
SameShape [] (y ∷ ys) = ⊥
SameShape (x ∷ xs) [] = ⊥
SameShape (x ∷ xs) (y ∷ ys) = (length x ≡ length y) × SameShape xs ys

-- Parts of the same lengths are determined by their concatenation: no boundary can shift.
pub concat_injective : (xs ys : List Bytes) → SameShape xs ys → concat xs ≡ concat ys → xs ≡ ys
unfolding concat
concat_injective [] [] s h = refl
concat_injective [] (y ∷ ys) s h = absurd s
concat_injective (x ∷ xs) [] s h = absurd s
concat_injective (x ∷ xs) (y ∷ ys) s h =
    let (e, f) = append_split x y (concat xs) (concat ys) s.0 h in cc (concat_injective xs ys s.1 f)
