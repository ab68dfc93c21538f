-- ===== src/Client/RoundTrip.antt =====
-- What the client packs, as the program's verifier takes it.
use mathlib.Core.Path.{subst}
use recovery_guardian_contra.Prelude.Results.{ok}
use recovery_guardian_contra.Verify.{verify_detached, isize_max, Sysvar}
use mathlib.Core.List.{append_assoc}
use recovery_guardian_contra.Verify.Soundness.{verify_detached_iff, AllEndorsed}
use recovery_guardian_contra.Prelude.{
  true, false, if◌then◌else◌, leb, suc, Bool, ◌≤◌, refl, length-append, arith, ap, ◌∙◌, [], All,
  ◌*◌, sym, ◌+◌, length, Option, ◌++◌, some, ◌≡◌, ◌∷◌, map, Bytes, ℕ, List,
}
use mathlib.Core.Option.{some_inj}
use recovery_guardian_contra.Client.{place, ◌>>=◌, Entry, Offsets, row, rows, pack, place_all}
use recovery_guardian_contra.Client.Places.{Holds}
use recovery_guardian_contra.Client.Packing.{IsEntry, AllPlaced, place_all-AllPlaced}
use recovery_guardian_contra.Client.Rows.{words, row_values, row-words, length-words, row-Endorses}

-- Who signed what.
abbrev pub expected_of : List Entry → List (Bytes × Bytes)
expected_of entries = map (λ (e : Entry). (e.public_key, e.message)) entries

rows_split :
    (o : Offsets) (offsets : List Offsets) {table : Bytes}
    → rows (o ∷ offsets) ≡ some table
    → (first : Bytes) × (rest : Bytes) × (row o ≡ some first)
      × (rows offsets ≡ some rest)
      × (table ≡ first ++ rest)
unfolding rows
rows_split o offsets {table} h = go (row o) (rows offsets) refl refl h
  where
    go :
        (a b : Option Bytes)
        → row o ≡ a
        → rows offsets ≡ b
        → (a >>= λ first. b >>= λ rest. some (first ++ rest)) ≡ some table
        → (first : Bytes) × (rest : Bytes) × (row o ≡ some first)
          × (rows offsets ≡ some rest)
          × (table ≡ first ++ rest)
    go (some first) (some rest) ra rb e = (first, rest, ra, rb, sym (some_inj.0 e))
    go (some first) Option.none ra rb e = cc
    go Option.none b ra rb e = cc

module _ (ix_index : ℕ) (bytes : Bytes) where
  rows-AllEndorsed :
      (offsets : List Offsets) (entries : List Entry) (slot : ℕ) (before table behind : Bytes)
      → rows offsets ≡ some table
      → bytes ≡ before ++ (table ++ behind)
      → length before ≡ 2 + slot * 14
      → AllPlaced bytes offsets entries
      → All IsEntry entries
      → AllEndorsed ix_index bytes slot (expected_of entries)
  rows-AllEndorsed [] [] slot before table behind written e sized placed fit = tt
  rows-AllEndorsed [] (entry ∷ entries) slot before table behind written e sized placed fit =
      absurd placed
  rows-AllEndorsed (o ∷ offsets) [] slot before table behind written e sized placed fit =
      absurd placed
  rows-AllEndorsed (o ∷ offsets) (entry ∷ entries) slot before table behind written e sized placed
        fit =
      let (first, rest, head, tail, joined) = rows_split o offsets written in
      let (is_words, small) = row-words o head in
      let e' : bytes ≡ before ++ (first ++ (rest ++ behind)) =
        rw e (rw joined (simp append_assoc)) in
      let here : Holds bytes (2 + slot * 14) (words (row_values o)) = record {
        before = before;
        behind = rest ++ behind;
        split = e' ∙ ap (λ (w : Bytes). before ++ (w ++ (rest ++ behind))) is_words;
        at = sized;
      } in
      let longer : length (before ++ first) ≡ 2 + (slot + 1) * 14 = omega (
        arith,
        length-append before first,
        sized,
        ap (λ (w : Bytes). length w) is_words,
        length-words (row_values o),
      ) in
      (
        row-Endorses ix_index bytes slot o entry here small placed.0 fit.0,
        rows-AllEndorsed offsets entries (slot + 1) (before ++ first) rest behind tail
            (e' ∙ sym (append_assoc before first (rest ++ behind))) longer placed.1 fit.1,
      )

assembled :
    (fits : Bool) (written : Option Bytes) (count : ℕ) (body : Bytes) {payload : Bytes}
    → (if fits then (written >>= λ table. some (count ∷ 0 ∷ (table ++ body))) else Option.none)
      ≡ some payload
    → (table : Bytes) × (written ≡ some table) × (payload ≡ count ∷ 0 ∷ (table ++ body))
assembled true (some table) count body h = (table, refl, sym (some_inj.0 h))
assembled true Option.none count body h = cc
assembled false written count body h = cc

pub length-place_all :
    (start : ℕ) (entries : List Entry) (body : Bytes) (known : List (Bytes × ℕ))
    → length (place_all start entries body known).0 ≡ length entries
unfolding place_all
length-place_all start [] body known = refl
length-place_all start (entry ∷ entries) body known = ap suc (
    length-place_all start entries (place start entry body known).1
      (place start entry body known).2)

length-expected_of : (entries : List Entry) → length (expected_of entries) ≡ length entries
length-expected_of [] = refl
length-expected_of (entry ∷ entries) = ap suc (length-expected_of entries)

-- Data that has been packed, taken apart.
pub pack_split :
    (entries : List Entry) {payload : Bytes}
    → pack entries ≡ some payload
    → let placed = place_all (2 + length entries * 14) entries [] [] in
      (table : Bytes) × (rows placed.0 ≡ some table)
      × (payload ≡ length entries ∷ 0 ∷ (table ++ placed.1))
unfolding pack
pack_split entries h =
    let placed = place_all (2 + length entries * 14) entries [] [] in
    assembled (leb (length entries) 255) (rows placed.0) (length entries) placed.1 h

pub length-rows :
    (offsets : List Offsets) {table : Bytes}
    → rows offsets ≡ some table
    → length table ≡ length offsets * 14
unfolding rows
length-rows [] h = ap (λ (w : Bytes). length w) (sym (some_inj.0 h))
length-rows (o ∷ offsets) h =
    let (first, rest, head, tail, joined) = rows_split o offsets h in
    let (is_words, _) = row-words o head in
    omega (
      arith,
      ap (λ (w : Bytes). length w) joined,
      length-append first rest,
      ap (λ (w : Bytes). length w) is_words,
      length-words (row_values o),
      length-rows offsets tail,
    )

-- With a payload that a slice can hold.
pub accepts_packed :
    (sysvar : Sysvar) (ix_index : ℕ) (entries : List Entry) {payload : Bytes}
    → pack entries ≡ some payload
    → All IsEntry entries
    → sysvar.load_instruction ix_index
      ≡ ok (record { program_id = sysvar.ed25519_id; payload = payload })
    → length payload ≤ isize_max
    → verify_detached sysvar ix_index (expected_of entries) ≡ ok tt
accepts_packed sysvar ix_index entries {payload} packed fit loaded small =
    let start = 2 + length entries * 14 in
    let placed = place_all start entries [] [] in
    let (table, written, joined) = pack_split entries packed in
    let head = length entries ∷ 0 ∷ table in
    let sized : length head ≡ start =
      omega (arith, length-rows placed.0 written, length-place_all start entries [] []) in
    let there : AllPlaced payload placed.0 entries =
      subst (λ (b : Bytes). AllPlaced b placed.0 entries) (sym joined)
        (place_all-AllPlaced head start sized entries) in
    (verify_detached_iff sysvar ix_index
        (record { program_id = sysvar.ed25519_id; payload = payload }) (expected_of entries) loaded
        small).1
      (
        refl,
        rw joined (ap some (sym (length-expected_of entries))),
        rows-AllEndorsed ix_index payload placed.0 entries 0 (length entries ∷ 0 ∷ []) table
            placed.1 written joined refl there fit,
      )
