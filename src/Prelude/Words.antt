-- ===== src/Prelude/Words.antt =====
-- Words of 8, 32 and 64 bits: their bounds and the saturating operations on them.
use Prim.Native.Nat.{ℕ, ◌+◌, ◌-◌, ◌^◌, ◌<◌, min}

abbrev pub u64_max : ℕ
u64_max = 2 ^ 64 - 1

abbrev pub i64_max : ℕ
i64_max = 2 ^ 63 - 1

abbrev pub u16_max : ℕ
u16_max = 2 ^ 16 - 1

abbrev pub IsByte : ℕ → Type 0
IsByte n = n < 2 ^ 8

abbrev pub IsU64 : ℕ → Type 0
IsU64 n = n < 2 ^ 64

-- `a.saturating_add(b)` on `u64`.
abbrev pub u64_saturating_add : ℕ → ℕ → ℕ
u64_saturating_add a b = min (a + b) u64_max

-- `a.saturating_sub(b)` on `u64`: subtraction that stops at 0.
abbrev pub u64_saturating_sub : ℕ → ℕ → ℕ
u64_saturating_sub a b = a - b
