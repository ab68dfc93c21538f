-- ===== src/Verify/Signatures.antt =====
-- Accepted instructions and the signatures that the ed25519 precompile has checked.
use mathlib.Core.Path.{subst₂}
use recovery_guardian_contra.Verify.Soundness.{verify_detached_iff, AllEndorsed}
use recovery_guardian_contra.Prelude.Results.{ok}
use recovery_guardian_contra.Prelude.Words.{u16_max}
use recovery_guardian_contra.Verify.Entries.{Endorses, entry_field, IsOwn}
use recovery_guardian_contra.Verify.{
  verify_detached, isize_max, slice, first, ok, u16_max, Instruction, Sysvar,
}
use recovery_guardian_contra.Prelude.{
  ◌∙◌, ap, [], ◌∷◌, All, ◌≤◌, length, ◌+◌, ◌<◌, some, List, arith, ◌≡◌, ◌==◌, Bytes, if◌then◌else◌,
  ℕ,
}

-- The instruction that a reference names: `u16::MAX` is the instruction itself.
abbrev pub referenced : ℕ → ℕ → ℕ
referenced at index = if index == u16_max then at else index

-- A transaction goes on only when its precompile instructions have checked each declared entry: the
-- key and the message, each read from the instruction that the entry refers to, have a valid
-- signature. `Signed` is the relation that the precompile checks.
pub record Precompile (sysvar : Sysvar) (Signed : Bytes → Bytes → Type 0) : Type 0 where
  pub checked :
      (at slot : ℕ) (ix key_ix message_ix : Instruction) {declared : ℕ}
      → sysvar.load_instruction at ≡ ok ix
      → ix.program_id ≡ sysvar.ed25519_id
      → first ix.payload ≡ some declared
      → slot < declared
      → sysvar.load_instruction (referenced at (entry_field ix.payload slot 3)) ≡ ok key_ix
      → sysvar.load_instruction (referenced at (entry_field ix.payload slot 6)) ≡ ok message_ix
      → Signed
          (slice key_ix.payload (entry_field ix.payload slot 2) 32)
          (slice message_ix.payload (entry_field ix.payload slot 4) (entry_field ix.payload slot 5))

own-referenced : (at index : ℕ) → IsOwn at index → referenced at index ≡ at
own-referenced at index own = ground arith

module _ (sysvar : Sysvar) (Signed : Bytes → Bytes → Type 0) (precompile : Precompile sysvar Signed)
    (at : ℕ) (ix : Instruction) (loaded : sysvar.load_instruction at ≡ ok ix)
    (is_ed25519 : ix.program_id ≡ sysvar.ed25519_id) where
  -- An entry that endorses is a signature by the signer over the digest.
  endorsed-Signed :
      (slot declared : ℕ) (signer digest : Bytes)
      → first ix.payload ≡ some declared
      → slot < declared
      → Endorses at ix.payload slot signer digest
      → Signed signer digest
  endorsed-Signed slot declared signer digest count inside e =
      let bytes = ix.payload in
      let key_ix : sysvar.load_instruction (referenced at (entry_field bytes slot 3)) ≡ ok ix =
        rw (own-referenced at _ e.own_key) loaded in
      let message_ix : sysvar.load_instruction (referenced at (entry_field bytes slot 6)) ≡ ok ix =
        rw (own-referenced at _ e.own_message) loaded in
      let sized = ap (slice bytes (entry_field bytes slot 4)) e.message_size ∙ e.message_is in
      subst₂ Signed e.key_is sized
        (precompile.checked at slot ix ix ix loaded is_ed25519 count inside key_ix message_ix)

  AllEndorsed-Signed :
      (slot declared : ℕ) (expected : List (Bytes × Bytes))
      → first ix.payload ≡ some declared
      → slot + length expected ≤ declared
      → AllEndorsed at ix.payload slot expected
      → All (λ e. Signed e.0 e.1) expected
  AllEndorsed-Signed slot declared [] count inside e = tt
  AllEndorsed-Signed slot declared ((signer, digest) ∷ expected) count inside e = (
    endorsed-Signed slot declared signer digest count (omega arith) e.0,
    AllEndorsed-Signed (slot + 1) declared expected count (omega arith) e.1,
  )

-- Given that the precompile has checked what the instruction declares: when `verify_detached`
-- accepts a loaded instruction, no longer than a Rust slice can be, for a list of signers and
-- digests, each signer has signed its digest.
pub verify_detached_sound :
    (sysvar : Sysvar) (Signed : Bytes → Bytes → Type 0) (ix_index : ℕ) (ix : Instruction)
    (expected : List (Bytes × Bytes))
    → Precompile sysvar Signed
    → sysvar.load_instruction ix_index ≡ ok ix
    → length ix.payload ≤ isize_max
    → verify_detached sysvar ix_index expected ≡ ok tt
    → All (λ e. Signed e.0 e.1) expected
verify_detached_sound sysvar Signed ix_index ix expected precompile loaded small accepted =
    let (is_ed25519, count, entries) =
      (verify_detached_iff sysvar ix_index ix expected loaded small).0 accepted in
    AllEndorsed-Signed sysvar Signed precompile ix_index ix loaded is_ed25519 0 (length expected)
      expected count (omega arith) entries
