-- ===== src/Verify/Soundness.antt =====
-- What `verify_detached` accepts, beside a description of the instruction's bytes.
use recovery_guardian_contra.Prelude.Results.{map_err-eq-ok, map_err, >>=-eq-ok, ok}
use recovery_guardian_contra.Verify.Entries.{verify_slot_iff, Endorses}
use recovery_guardian_contra.Verify.{
  runtime, verify_slot, first, ok, isize_max, verify_detached, Instruction, Sysvar, verify_slots,
}
use recovery_guardian_contra.Prelude.{
  bytes_eq_iff, some, arith, ◌↔◌, ◌+◌, ◌≡◌, ◌≤◌, [], ◌∷◌, length, List, Bytes, ℕ,
}

-- Entry by entry, from a slot on.
abbrev pub AllEndorsed : ℕ → Bytes → ℕ → List (Bytes × Bytes) → Type 0
AllEndorsed ix_index bytes slot [] = Unit {0}
AllEndorsed ix_index bytes slot ((signer, digest) ∷ expected) =
    Endorses ix_index bytes slot signer digest × AllEndorsed ix_index bytes (slot + 1) expected

pub verify_slots_iff :
    (ix_index : ℕ) (bytes : Bytes) (slot : ℕ) (expected : List (Bytes × Bytes))
    → length bytes ≤ isize_max
    → (verify_slots ix_index bytes slot expected ≡ ok tt) ↔ AllEndorsed ix_index bytes slot expected
unfolding verify_slots
verify_slots_iff ix_index bytes slot [] small = ground arith
verify_slots_iff ix_index bytes slot ((signer, digest) ∷ expected) small =
    let here = verify_slot_iff ix_index bytes slot signer digest small in
    let later = verify_slots_iff ix_index bytes (slot + 1) expected small in
    (
      λ passed.
          let (_, one, rest) = >>=-eq-ok (verify_slot ix_index bytes slot signer digest) _ passed in
          (here.0 one, later.0 rest),
      λ e. rw (here.1 e.0) (later.1 e.1),
    )

module _ (sysvar : Sysvar) (ix_index : ℕ) (ix : Instruction) (expected : List (Bytes × Bytes)) where
  -- For an instruction that the runtime loads, no longer than a Rust slice can be:
  -- `verify_detached` accepts it exactly when it is the ed25519 program's, declares as many
  -- signatures as are expected, and each entry, in order, endorses the expected signer and digest
  -- inside the instruction itself.
  pub verify_detached_iff :
      sysvar.load_instruction ix_index ≡ ok ix
      → length ix.payload ≤ isize_max
      → (verify_detached sysvar ix_index expected ≡ ok tt) ↔ (
          (ix.program_id ≡ sysvar.ed25519_id)
          × (first ix.payload ≡ some (length expected))
          × AllEndorsed ix_index ix.payload 0 expected)
  unfolding verify_detached
  verify_detached_iff loaded small = ground (
    arith,
    bytes_eq_iff ix.program_id sysvar.ed25519_id,
    verify_slots_iff ix_index ix.payload 0 expected small,
  )

-- Only an instruction that the runtime could load is accepted.
pub verify_detached_loaded :
    (sysvar : Sysvar) (ix_index : ℕ) (expected : List (Bytes × Bytes))
    → verify_detached sysvar ix_index expected ≡ ok tt
    → (ix : Instruction) × (sysvar.load_instruction ix_index ≡ ok ix)
unfolding verify_detached
verify_detached_loaded sysvar ix_index expected h =
    let (ix, loaded, _) = >>=-eq-ok (map_err runtime (sysvar.load_instruction ix_index)) _ h in
    (ix, map_err-eq-ok _ _ loaded)
