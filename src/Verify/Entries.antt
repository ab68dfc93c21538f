-- ===== src/Verify/Entries.antt =====
-- What one entry of the offsets array must say for the program to vouch for it.
use recovery_guardian_contra.Prelude.Words.{u16_max}
use recovery_guardian_contra.Prelude.Results.{require-eq-ok, require, ◌>>=◌, ◌>>◌, err, ok, Result}
use recovery_guardian_contra.Verify.{
  signer_mismatch, header_len, message_mismatch, checked_add, wrong_message_length, offsets_len,
  checked_mul, usize_saturating_add, require_own, isize_max, malformed_instruction,
  offset_out_of_bounds, refused, verify_slot, u16_max, Failure, slice, Result, from_le_bytes,
  read_u16, checked_slice,
}
use recovery_guardian_contra.Prelude.{
  Bool, inr, leb→le, inl, Bool-cases, ==_iff, if◌then◌else◌, refl, bytes_eq_iff, true, leb,
  bytes_eq, some, ◌==◌, ◌↔◌, arith, ◌⊎◌, ◌<◌, ◌*◌, length, ◌≤◌, ◌≡◌, ◌+◌, Bytes, ℕ,
}

-- The byte offset of field `k` of an entry, in the layout of `Ed25519SignatureOffsets`.
abbrev pub field_at : ℕ → ℕ → ℕ
field_at slot k = 2 + slot * 14 + 2 * k

-- The fields of an entry, read as little-endian words.
abbrev pub entry_field : Bytes → ℕ → ℕ → ℕ
entry_field bytes slot k = from_le_bytes (slice bytes (field_at slot k) 2)

-- The reference is to the instruction itself.
abbrev pub IsOwn : ℕ → ℕ → Type 0
IsOwn ix_index referenced = (referenced ≡ u16_max) ⊎ (referenced ≡ ix_index)

-- The entry lies within the instruction, takes signature, key and message from the instruction
-- itself, and its key and its 32-byte message are the given ones.
pub record Endorses (ix_index : ℕ) (bytes : Bytes) (slot : ℕ) (signer digest : Bytes) : Type 0 where
  pub in_table : field_at slot 7 ≤ length bytes
  pub own_signature : IsOwn ix_index (entry_field bytes slot 1)
  pub own_key : IsOwn ix_index (entry_field bytes slot 3)
  pub own_message : IsOwn ix_index (entry_field bytes slot 6)
  pub message_size : entry_field bytes slot 5 ≡ 32
  pub signature_inside : entry_field bytes slot 0 + 64 ≤ length bytes
  pub key_inside : entry_field bytes slot 2 + 32 ≤ length bytes
  pub message_inside : entry_field bytes slot 4 + 32 ≤ length bytes
  pub key_is : slice bytes (entry_field bytes slot 2) 32 ≡ signer
  pub message_is : slice bytes (entry_field bytes slot 4) 32 ≡ digest

checked_slice-ok :
    (bytes : Bytes) (offset len : ℕ)
    → length bytes ≤ isize_max
    → offset + len ≤ length bytes
    → checked_slice bytes offset len ≡ ok (slice bytes offset len)
unfolding checked_slice
checked_slice-ok bytes offset len small h = ground arith

read_u16-ok :
    (bytes : Bytes) (at : ℕ)
    → length bytes ≤ isize_max
    → at + 2 ≤ length bytes
    → read_u16 bytes at ≡ ok (from_le_bytes (slice bytes at 2))
unfolding read_u16
read_u16-ok bytes at small h = ground arith

checked_slice_lem :
    (bytes : Bytes) (offset len : ℕ)
    → length bytes ≤ isize_max
    → checked_slice bytes offset len ≡ (
        if leb (offset + len) (length bytes)
        then ok (slice bytes offset len)
        else err (refused offset_out_of_bounds))
unfolding checked_slice
checked_slice_lem bytes offset len small = ground arith

require_own_iff :
    (ix_index referenced : ℕ)
    → (require_own ix_index referenced ≡ ok tt) ↔ IsOwn ix_index referenced
unfolding require_own
require_own_iff ix_index referenced = ground arith

IsOwn-then :
    (ix_index referenced : ℕ) (next : Result Failure (Unit {0}))
    → (require_own ix_index referenced >> next) ≡ ok tt
    → IsOwn ix_index referenced × (next ≡ ok tt)
unfolding require_own
IsOwn-then ix_index referenced next h = ground arith

slice_then :
    (bytes : Bytes) (offset len : ℕ)
    → length bytes ≤ isize_max
    → (next : Bytes → Result Failure (Unit {0})) → (checked_slice bytes offset len >>= next) ≡ ok tt
    → (offset + len ≤ length bytes) × (next (slice bytes offset len) ≡ ok tt)
slice_then bytes offset len small next h = elim (Bool-cases (leb (offset + len) (length bytes))) [
  | inl fits ↦
      (leb→le _ _ fits, rw (checked_slice-ok bytes offset len small (leb→le _ _ fits)) at h)
  | inr over ↦ cc (rw over at (checked_slice_lem bytes offset len small))
]

require-eq-true : (test : Bool) (e : Failure) → require test e ≡ ok tt → test ≡ true
require-eq-true test e h = ground arith

-- The check of one slot, without the words in which the source computes.
plain_slot : ℕ → Bytes → ℕ → Bytes → Bytes → Result Failure (Unit {0})
plain_slot ix_index bytes slot signer digest = do
  require_own ix_index (entry_field bytes slot 1)
  require_own ix_index (entry_field bytes slot 3)
  require_own ix_index (entry_field bytes slot 6)
  require (entry_field bytes slot 5 == 32) (refused wrong_message_length)
  signed_key ← checked_slice bytes (entry_field bytes slot 2) 32
  signed_message ← checked_slice bytes (entry_field bytes slot 4) 32
  checked_slice bytes (entry_field bytes slot 0) 64
  require (bytes_eq signed_message digest) (refused message_mismatch)
  require (bytes_eq signed_key signer) (refused signer_mismatch)

module _ (ix_index : ℕ) (bytes : Bytes) (slot : ℕ) (signer digest : Bytes)
    (small : length bytes ≤ isize_max) where
  -- Where the entry is inside, a field is read as it stands.
  read_field :
      (k : ℕ) (at : ℕ)
      → field_at slot 7 ≤ length bytes
      → k < 7
      → at ≡ usize_saturating_add (2 + slot * 14) (2 * k)
      → read_u16 bytes at ≡ ok (entry_field bytes slot k)
  read_field k at h small_k e =
      let e' : at ≡ field_at slot k = ground arith in
      rw e' (read_u16-ok bytes (field_at slot k) small (omega arith))

  verify_slot-plain :
      field_at slot 7 ≤ length bytes
      → verify_slot ix_index bytes slot signer digest ≡ plain_slot ix_index bytes slot signer digest
  unfolding verify_slot plain_slot
  verify_slot-plain h =
      let base = 2 + slot * 14 in
      let scaled : checked_mul slot offsets_len ≡ some (slot * 14) = ground arith in
      let based : checked_add header_len (slot * 14) ≡ some base = ground arith in
      let fits : leb (usize_saturating_add base offsets_len) (length bytes) ≡ true = ground arith in
      let f0 = read_field 0 base h (omega arith) (ground arith) in
      let f1 = read_field 1 (usize_saturating_add base 2) h (omega arith) refl in
      let f2 = read_field 2 (usize_saturating_add base 4) h (omega arith) refl in
      let f3 = read_field 3 (usize_saturating_add base 6) h (omega arith) refl in
      let f4 = read_field 4 (usize_saturating_add base 8) h (omega arith) refl in
      let f5 = read_field 5 (usize_saturating_add base 10) h (omega arith) refl in
      let f6 = read_field 6 (usize_saturating_add base 12) h (omega arith) refl in
      rw (scaled, based, fits, f0, f1, f2, f3, f4, f5, f6)

  verify_slot-short :
      length bytes < field_at slot 7
      → verify_slot ix_index bytes slot signer digest ≡ err (refused malformed_instruction)
  unfolding verify_slot
  verify_slot-short h = ground arith

  plain_slot-Endorses :
      field_at slot 7 ≤ length bytes
      → plain_slot ix_index bytes slot signer digest ≡ ok tt
      → Endorses ix_index bytes slot signer digest
  unfolding plain_slot
  plain_slot-Endorses h passed =
      let (own0, p0) = IsOwn-then ix_index (entry_field bytes slot 1) _ passed in
      let (own1, p1) = IsOwn-then ix_index (entry_field bytes slot 3) _ p0 in
      let (own2, p2) = IsOwn-then ix_index (entry_field bytes slot 6) _ p1 in
      let (size, p3) = require-eq-ok (entry_field bytes slot 5 == 32) _ _ p2 in
      let (key_fits, p4) = slice_then bytes (entry_field bytes slot 2) 32 small _ p3 in
      let (message_fits, p5) = slice_then bytes (entry_field bytes slot 4) 32 small _ p4 in
      let (signature_fits, p6) = slice_then bytes (entry_field bytes slot 0) 64 small _ p5 in
      let (message_same, p7) =
        require-eq-ok (bytes_eq (slice bytes (entry_field bytes slot 4) 32) digest) _ _ p6 in
      let key_same = require-eq-true _ (refused signer_mismatch) p7 in
      record {
        in_table = h;
        own_signature = own0;
        own_key = own1;
        own_message = own2;
        message_size = (==_iff _ _).0 size;
        signature_inside = signature_fits;
        key_inside = key_fits;
        message_inside = message_fits;
        key_is = (bytes_eq_iff _ _).0 key_same;
        message_is = (bytes_eq_iff _ _).0 message_same;
      }

  Endorses-plain_slot :
      Endorses ix_index bytes slot signer digest
      → plain_slot ix_index bytes slot signer digest ≡ ok tt
  unfolding plain_slot
  Endorses-plain_slot e = rw (
    (require_own_iff ix_index (entry_field bytes slot 1)).1 e.own_signature,
    (require_own_iff ix_index (entry_field bytes slot 3)).1 e.own_key,
    (require_own_iff ix_index (entry_field bytes slot 6)).1 e.own_message,
    (==_iff (entry_field bytes slot 5) 32).1 e.message_size,
    checked_slice-ok bytes (entry_field bytes slot 2) 32 small e.key_inside,
    checked_slice-ok bytes (entry_field bytes slot 4) 32 small e.message_inside,
    checked_slice-ok bytes (entry_field bytes slot 0) 64 small e.signature_inside,
    (bytes_eq_iff (slice bytes (entry_field bytes slot 4) 32) digest).1 e.message_is,
    (bytes_eq_iff (slice bytes (entry_field bytes slot 2) 32) signer).1 e.key_is,
  )

  -- A slot passes exactly when its entry endorses the digest by the signer.
  pub verify_slot_iff :
      (verify_slot ix_index bytes slot signer digest ≡ ok tt)
      ↔ Endorses ix_index bytes slot signer digest
  verify_slot_iff = elim (Bool-cases (leb (field_at slot 7) (length bytes))) [
    | inl inside ↦ (
      λ passed.
          plain_slot-Endorses (leb→le _ _ inside)
            (rw (verify_slot-plain (leb→le _ _ inside)) at passed),
      λ e. rw (verify_slot-plain e.in_table) (Endorses-plain_slot e),
    )
    | inr outside ↦
        (λ passed. cc (verify_slot-short (ground arith)), λ e. absurd (ground (arith, e.in_table)))
  ]
