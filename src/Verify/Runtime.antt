-- ===== src/Verify/Runtime.antt =====
-- A runtime for the tests: a transaction whose one instruction declares a single signature.
use recovery_guardian_contra.Verify.Entries.{entry_field}
use recovery_guardian_contra.Prelude.Results.{ok}
use recovery_guardian_contra.Verify.{slice, ok, from_le_bytes, first, Instruction}
use recovery_guardian_contra.Prelude.{◌∙◌, sym, ap, refl, ◌<◌, some, arith, ◌≡◌, take, ℕ, Bytes}
use recovery_guardian_contra.Samples.{key, one_entry, ed25519, sysvar_of}
use recovery_guardian_contra.Verify.Signatures.{Precompile}

pub only_instruction :
    (payload : Bytes) (index : ℕ) (ix : Instruction)
    → (sysvar_of payload).load_instruction index ≡ ok ix
    → ix ≡ ed25519 payload
only_instruction payload index ix h = ground arith

only_slot :
    (signer message : Bytes) (ix : Instruction) (slot declared : ℕ)
    → ix ≡ ed25519 (one_entry signer message)
    → first ix.payload ≡ some declared
    → slot < declared
    → slot ≡ 0
only_slot signer message ix slot declared e count inside =
    let one : some 1 ≡ some declared = ap (λ (i : Instruction). first i.payload) (sym e) ∙ count in
    ground arith

module _ (b : ℕ) (message : Bytes) (fits : take 32 message ≡ message) where
  -- The one signature that there is.
  abbrev pub OnlySigned : Bytes → Bytes → Type 0
  OnlySigned signer signed = (signer ≡ key b) × (signed ≡ message)

  read_entry :
      (ix key_ix message_ix : Instruction) (slot : ℕ)
      → ix ≡ ed25519 (one_entry (key b) message)
      → key_ix ≡ ed25519 (one_entry (key b) message)
      → message_ix ≡ ed25519 (one_entry (key b) message)
      → slot ≡ 0
      → OnlySigned
          (slice key_ix.payload (entry_field ix.payload slot 2) 32)
          (slice message_ix.payload (entry_field ix.payload slot 4) (entry_field ix.payload slot 5))
  unfolding from_le_bytes
  read_entry ix key_ix message_ix slot e k m s = rw e (rw k (rw m (rw s (refl, fits))))

  pub only-Precompile : Precompile (sysvar_of (one_entry (key b) message)) OnlySigned
  only-Precompile = record {
    checked =
        λ at slot ix key_ix message_ix {declared} loaded is_ed25519 count inside key_loaded
            message_loaded.
          let payload = one_entry (key b) message in
          let ix_is = only_instruction payload at ix loaded in
          read_entry ix key_ix message_ix slot ix_is (only_instruction payload _ key_ix key_loaded)
            (only_instruction payload _ message_ix message_loaded)
            (only_slot (key b) message ix slot declared ix_is count inside);
  }
