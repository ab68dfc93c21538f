-- ===== src/Client/Rows.antt =====
-- The rows of the offsets array, as the verifier reads them back.
use mathlib.Core.Path.{subst}
use recovery_guardian_contra.Encoding.Injective.{length-to_le_bytes}
use recovery_guardian_contra.Client.Packing.{IsEntry, Placed}
use recovery_guardian_contra.Verify.Entries.{Endorses, entry_field}
use mathlib.Core.List.{append_assoc}
use recovery_guardian_contra.Client.Places.{Holds-slice, Holds-inside, Holds-within, Holds}
use recovery_guardian_contra.Prelude.Words.{u16_max}
use recovery_guardian_contra.Encoding.{concat, to_le_bytes}
use recovery_guardian_contra.Prelude.{
  ◌∙◌, ap, inl, refl, length-append, ◌+◌, ◌*◌, length, sym, arith, All, [], ◌++◌, some, ◌≤◌, ◌∷◌,
  ◌≡◌, Bytes, List, ℕ,
}
use recovery_guardian_contra.Verify.{slice, from_le_bytes}
use recovery_guardian_contra.Client.{Entry, Offsets, u16, row, current}

from_le_bytes-to_le_bytes :
    (value : ℕ) → value ≤ u16_max → from_le_bytes (to_le_bytes 2 value) ≡ value
unfolding from_le_bytes to_le_bytes
from_le_bytes-to_le_bytes value h = omega arith

-- A word that has been written.
u16_lem :
    (value : ℕ) {bytes : Bytes}
    → u16 value ≡ some bytes
    → (value ≤ u16_max) × (bytes ≡ to_le_bytes 2 value)
unfolding u16
u16_lem value h = ground arith

-- The words of one row, one after the other.
abbrev pub words : List ℕ → Bytes
words [] = []
words (value ∷ values) = to_le_bytes 2 value ++ words values

abbrev pub row_values : Offsets → List ℕ
row_values o =
    o.signature_offset ∷ current ∷ o.public_key_offset ∷ current ∷ o.message_offset ∷ o.message_size
    ∷ current ∷ []

pub row-words :
    (o : Offsets) {bytes : Bytes}
    → row o ≡ some bytes
    → (bytes ≡ words (row_values o)) × All (λ v. v ≤ u16_max) (row_values o)
unfolding row u16 concat
row-words o h = ground arith

words-append : (xs ys : List ℕ) → words (xs ++ ys) ≡ words xs ++ words ys
words-append [] ys = refl
words-append (x ∷ xs) ys =
    rw (words-append xs ys) (sym (append_assoc (to_le_bytes 2 x) (words xs) (words ys)))

pub length-words : (xs : List ℕ) → length (words xs) ≡ 2 * length xs
length-words [] = refl
length-words (x ∷ xs) =
    omega
      (arith, length-append (to_le_bytes 2 x) (words xs), length-to_le_bytes 2 x, length-words xs)

word_at :
    (before : List ℕ) (value : ℕ) (behind : List ℕ)
    → Holds (words (before ++ (value ∷ behind))) (2 * length before) (to_le_bytes 2 value)
word_at before value behind = record {
  before = words before;
  behind = words behind;
  split = words-append before (value ∷ behind);
  at = length-words before;
}

-- The verifier reads the word that was written.
read_word :
    (bytes : Bytes) (slot : ℕ) (before : List ℕ) (value : ℕ) (behind : List ℕ)
    → Holds bytes (2 + slot * 14) (words (before ++ (value ∷ behind)))
    → value ≤ u16_max
    → entry_field bytes slot (length before) ≡ value
read_word bytes slot before value behind h small =
    let held = Holds-within (word_at before value behind) h in
    let read : slice bytes (2 + slot * 14 + 2 * length before) 2 ≡ to_le_bytes 2 value =
      subst (λ n. slice bytes (2 + slot * 14 + 2 * length before) n ≡ to_le_bytes 2 value)
        (length-to_le_bytes 2 value) (Holds-slice held) in
    ap from_le_bytes read ∙ from_le_bytes-to_le_bytes value small

module _ (ix_index : ℕ) (bytes : Bytes) where
  pub row-Endorses :
      (slot : ℕ) (o : Offsets) (entry : Entry)
      → Holds bytes (2 + slot * 14) (words (row_values o))
      → All (λ v. v ≤ u16_max) (row_values o)
      → Placed bytes o entry
      → IsEntry entry
      → Endorses ix_index bytes slot entry.public_key entry.message
  row-Endorses slot o entry h (s, (c1, (p, (c3, (m, (z, (c6, _))))))) placed fits =
      let a = o.signature_offset in
      let b = o.public_key_offset in
      let f = o.message_offset in
      let g = o.message_size in
      let f0 : entry_field bytes slot 0 ≡ a =
        read_word bytes slot [] a (current ∷ b ∷ current ∷ f ∷ g ∷ current ∷ []) h s in
      let f1 : entry_field bytes slot 1 ≡ current =
        read_word bytes slot (a ∷ []) current (b ∷ current ∷ f ∷ g ∷ current ∷ []) h c1 in
      let f2 : entry_field bytes slot 2 ≡ b =
        read_word bytes slot (a ∷ current ∷ []) b (current ∷ f ∷ g ∷ current ∷ []) h p in
      let f3 : entry_field bytes slot 3 ≡ current =
        read_word bytes slot (a ∷ current ∷ b ∷ []) current (f ∷ g ∷ current ∷ []) h c3 in
      let f4 : entry_field bytes slot 4 ≡ f =
        read_word bytes slot (a ∷ current ∷ b ∷ current ∷ []) f (g ∷ current ∷ []) h m in
      let f5 : entry_field bytes slot 5 ≡ g =
        read_word bytes slot (a ∷ current ∷ b ∷ current ∷ f ∷ []) g (current ∷ []) h z in
      let f6 : entry_field bytes slot 6 ≡ current =
        read_word bytes slot (a ∷ current ∷ b ∷ current ∷ f ∷ g ∷ []) current [] h c6 in
      record {
        in_table = omega (arith, Holds-inside h, length-words (row_values o));
        own_signature = inl f1;
        own_key = inl f3;
        own_message = inl f6;
        message_size = f5 ∙ placed.size_is ∙ fits.message_sized;
        signature_inside =
            omega (arith, f0, Holds-inside placed.signature_at, fits.signature_sized);
        key_inside = omega (arith, f2, Holds-inside placed.key_at, fits.key_sized);
        message_inside = omega (arith, f4, Holds-inside placed.message_at, fits.message_sized);
        key_is = rw f2 (
            subst (λ n. slice bytes b n ≡ entry.public_key) fits.key_sized
              (Holds-slice placed.key_at));
        message_is = rw f4 (
            subst (λ n. slice bytes f n ≡ entry.message) fits.message_sized
              (Holds-slice placed.message_at));
      }
