-- ===== src/Client/Total.antt =====
-- That everything a transaction could carry is packed, and into how many bytes.
use recovery_guardian_contra.Prelude.Results.{ok}
use recovery_guardian_contra.Verify.{isize_max, verify_detached, Sysvar}
use recovery_guardian_contra.Encoding.{to_le_bytes, concat}
use recovery_guardian_contra.Prelude.Words.{u16_max}
use recovery_guardian_contra.Prelude.{
  ◌∙◌, sym, ap, inr, leb→le, inl, Bool-cases, zero, true, leb, refl, length-replicate, replicate,
  ◌++◌, length-append, [], ◌∷◌, ◌*◌, arith, some, ◌+◌, ◌≤◌, ◌≡◌, All, Option, length, List, ℕ,
  Bytes,
}
use mathlib.Core.Option.{some_inj}
use recovery_guardian_contra.Client.RoundTrip.{accepts_packed, expected_of}
use recovery_guardian_contra.Client.{
  current, Entry, Offsets, get, place, place_message, place_all, pushed, u16, row, rows, pack,
}
use recovery_guardian_contra.Client.Places.{Holds-inside}
use recovery_guardian_contra.Client.Packing.{IsEntry, Placed, AllPlaced, place_all-AllPlaced}
use recovery_guardian_contra.Client.RoundTrip.{length-place_all, length-rows}

length-pushed :
    (entry : Entry) (body : Bytes) → IsEntry entry → length (pushed entry body) ≡ length body + 96
length-pushed entry body fits = omega (
  arith,
  length-append (body ++ entry.public_key) entry.signature,
  length-append body entry.public_key,
  fits.key_sized,
  fits.signature_sized,
)

place_message-le :
    (start : ℕ) (entry : Entry) (body : Bytes) (known : List (Bytes × ℕ)) (found : Option ℕ)
    → IsEntry entry
    → length (place_message start entry body known found).1 ≤ length body + 128
unfolding place_message
place_message-le start entry body known (some offset) fits =
    omega (arith, length-pushed entry body fits)
place_message-le start entry body known Option.none fits = omega (
  arith,
  length-pushed entry body fits,
  length-append (pushed entry body) entry.message,
  fits.message_sized,
)

place_all-le :
    (start : ℕ) (entries : List Entry) (body : Bytes) (known : List (Bytes × ℕ))
    → All IsEntry entries
    → length (place_all start entries body known).1 ≤ length body + 128 * length entries
unfolding place_all place
place_all-le start [] body known fit = omega arith
place_all-le start (entry ∷ entries) body known fit = omega (
  arith,
  place_message-le start entry body known (get entry.message known) fit.0,
  place_all-le start entries (place start entry body known).1 (place start entry body known).2
      fit.1,
)

-- A row whose pieces lie early enough is written.
row_total :
    (bytes : Bytes) (o : Offsets) (entry : Entry)
    → Placed bytes o entry
    → IsEntry entry
    → length bytes ≤ u16_max
    → (first : Bytes) × (row o ≡ some first)
unfolding row u16
row_total bytes o entry placed fits small = (
  concat (
      to_le_bytes 2 o.signature_offset
      ∷ to_le_bytes 2 current
      ∷ to_le_bytes 2 o.public_key_offset
      ∷ to_le_bytes 2 current
      ∷ to_le_bytes 2 o.message_offset
      ∷ to_le_bytes 2 o.message_size
      ∷ to_le_bytes 2 current
      ∷ []),
  ground (
    arith,
    Holds-inside placed.signature_at,
    Holds-inside placed.key_at,
    Holds-inside placed.message_at,
    placed.size_is,
    fits.message_sized,
  ),
)

rows_total :
    (bytes : Bytes) (offsets : List Offsets) (entries : List Entry)
    → AllPlaced bytes offsets entries
    → All IsEntry entries
    → length bytes ≤ u16_max
    → (table : Bytes) × (rows offsets ≡ some table)
unfolding rows
rows_total bytes [] [] placed fit small = ([], refl)
rows_total bytes [] (entry ∷ entries) placed fit small = absurd placed
rows_total bytes (o ∷ offsets) [] placed fit small = absurd placed
rows_total bytes (o ∷ offsets) (entry ∷ entries) placed fit small =
    let (first, head) = row_total bytes o entry placed.0 fit.0 small in
    let (rest, tail) = rows_total bytes offsets entries placed.1 fit.1 small in
    (first ++ rest, rw head (rw tail))

-- Up to 255 entries with 32-byte keys, 64-byte signatures and 32-byte messages are packed without
-- an exception, in at most 2 bytes and 142 more for each entry.
pub pack_total :
    (entries : List Entry)
    → length entries ≤ 255
    → All IsEntry entries
    → (payload : Bytes) × (pack entries ≡ some payload)
      × (length payload ≤ 2 + 142 * length entries)
unfolding pack
pack_total entries few fit =
    let start = 2 + length entries * 14 in
    let placed = place_all start entries [] [] in
    let fits : leb (length entries) 255 ≡ true = ground arith in
    let head = replicate start zero in
    let body_le = place_all-le start entries [] [] fit in
    let there = place_all-AllPlaced head start (length-replicate start zero) entries in
    let short : length (head ++ placed.1) ≤ u16_max =
      omega (arith, length-append head placed.1, length-replicate start zero, body_le) in
    let (table, written) = rows_total (head ++ placed.1) placed.0 entries there fit short in
    (
      length entries ∷ 0 ∷ (table ++ placed.1),
      rw fits (rw written),
      omega (
        arith,
        length-append table placed.1,
        length-rows placed.0 written,
        length-place_all start entries [] [],
        body_le,
      ),
    )

packed_few :
    (entries : List Entry) {payload : Bytes} → pack entries ≡ some payload → length entries ≤ 255
unfolding pack
packed_few entries h = elim (Bool-cases (leb (length entries) 255)) [
  | inl few ↦ leb→le _ _ few
  | inr many ↦ cc (rw many at h)
]

-- Whatever the client packs for entries with 32-byte keys, 64-byte signatures and 32-byte messages,
-- `verify_detached` reads back: loaded as an instruction of the ed25519 program, it is accepted for
-- the entries' keys and messages.
pub verify_detached-pack :
    (sysvar : Sysvar) (ix_index : ℕ) (entries : List Entry) {payload : Bytes}
    → pack entries ≡ some payload
    → All IsEntry entries
    → sysvar.load_instruction ix_index
      ≡ ok (record { program_id = sysvar.ed25519_id; payload = payload })
    → verify_detached sysvar ix_index (expected_of entries) ≡ ok tt
verify_detached-pack sysvar ix_index entries {payload} packed fit loaded =
    let few = packed_few entries packed in
    let (again, same, short) = pack_total entries few fit in
    let small : length payload ≤ isize_max =
      omega (arith, ap (λ (p : Bytes). length p) (some_inj.0 (sym packed ∙ same)), short, few) in
    accepts_packed sysvar ix_index entries packed fit loaded small
