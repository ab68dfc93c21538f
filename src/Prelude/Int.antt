-- ===== src/Prelude/Int.antt =====
-- Signed 64-bit seconds (`i64`) as integers over the native numbers, under the library's names.
use Prim.Native.Nat.{ℕ, suc, ◌+◌, ◌-◌, ◌≤◌, ◌<◌, min}
use mathlib.Core.Bool.{Bool}
use recovery_guardian_contra.Prelude.Tests.{leb, ltb, if◌then◌else◌}
use recovery_guardian_contra.Prelude.Words.{i64_max}

-- `negsuc n` is -(n + 1).
pub data ℤ : Type 0 where
  pos : ℕ → ℤ
  negsuc : ℕ → ℤ

abbrev pub pos_part : ℤ → ℕ
pos_part (pos n) = n
pos_part (negsuc n) = 0

abbrev pub neg_part : ℤ → ℕ
neg_part (pos n) = 0
neg_part (negsuc n) = suc n

infix 50 ◌≤ℤ◌ ◌<ℤ◌
abbrev pub ◌≤ℤ◌ : ℤ → ℤ → Type 0
a ≤ℤ b = pos_part a + neg_part b ≤ pos_part b + neg_part a

abbrev pub ◌<ℤ◌ : ℤ → ℤ → Type 0
a <ℤ b = pos_part a + neg_part b < pos_part b + neg_part a

abbrev pub ltb_ℤ : ℤ → ℤ → Bool
ltb_ℤ a b = ltb (pos_part a + neg_part b) (pos_part b + neg_part a)

abbrev pub max_ℤ : ℤ → ℤ → ℤ
max_ℤ a b = if ltb_ℤ a b then b else a

-- How far `b` lies behind `a`, and 0 where it lies ahead.
abbrev pub monus : ℤ → ℤ → ℕ
monus a b = pos_part a + neg_part b - (pos_part b + neg_part a)

-- `a.saturating_sub(b)` on `i64`. The least value is -(i64_max + 1), which is `negsuc i64_max`.
abbrev pub i64_saturating_sub : ℤ → ℤ → ℤ
i64_saturating_sub a b =
    if leb (neg_part a + pos_part b) (pos_part a + neg_part b)
    then pos (min (monus a b) i64_max)
    else negsuc (min (monus b a - 1) i64_max)

-- The range of an `i64`.
abbrev pub IsI64 : ℤ → Type 0
IsI64 (pos n) = n ≤ i64_max
IsI64 (negsuc n) = n ≤ i64_max
