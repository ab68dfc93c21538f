-- ===== src/Encoding.antt =====
-- Byte encodings that Rust's standard library gives the digests and the instruction reader:
-- `to_le_bytes`, `from_le_bytes`, byte string literals, and the concatenation that is hashed.
pub mod Injective
use Prim.Native.Char.{code}
use recovery_guardian_contra.Prelude.Int.{negsuc, pos, ℤ}
use recovery_guardian_contra.Prelude.{
  [], ◌∷◌, zero, ◌/◌, ◌-◌, ◌%◌, ◌++◌, ◌^◌, suc, [], Bytes, List, ℕ,
}
use Prim.Native.String.{String}

-- `b"..."` for an ASCII text.
abbrev pub codes : String → Bytes
codes String.[] = []
codes (String.◌∷◌ c s) = code c ∷ codes s

-- `value.to_le_bytes()` at a width in bytes.
unfoldable pub to_le_bytes : ℕ → ℕ → Bytes
to_le_bytes zero value = []
to_le_bytes (suc width) value = (value % 256) ∷ to_le_bytes width (value / 256)

-- The two's complement of an `i64`, whose bytes `to_le_bytes` returns.
unfoldable pub i64_word : ℤ → ℕ
i64_word (pos n) = n
i64_word (negsuc n) = 2 ^ 64 - 1 - n

-- The bytes one after the other.
unfoldable pub concat : List Bytes → Bytes
concat [] = []
concat (part ∷ parts) = part ++ concat parts
