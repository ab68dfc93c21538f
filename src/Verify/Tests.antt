-- ===== src/Verify/Tests.antt =====
-- The instruction reader at concrete inputs.
use recovery_guardian_contra.Verify.Runtime.{only-Precompile, OnlySigned}
use recovery_guardian_contra.Verify.Signatures.{verify_detached_sound}
use recovery_guardian_contra.Verify.Soundness.{verify_detached_iff, AllEndorsed}
use recovery_guardian_contra.Prelude.Results.{ok}
use recovery_guardian_contra.Verify.{
  from_le_bytes, require_own, read_u16, verify_slot, first, ok, verify_detached,
}
use recovery_guardian_contra.Prelude.{bytes_eq, refl, arith, some, ◌↔◌, ◌≡◌, [], ◌∷◌, Bytes}
use recovery_guardian_contra.Samples.{key, one_entry, ed25519, sysvar_of}

abbrev bytes : Bytes
bytes = one_entry (key 6) (key 3)

verify_detached_iff_example :
    (verify_detached (sysvar_of bytes) 0 ((key 6, key 3) ∷ []) ≡ ok tt)
    ↔ ((key 11 ≡ key 11) × (first bytes ≡ some 1) × AllEndorsed 0 bytes 0 ((key 6, key 3) ∷ []))
verify_detached_iff_example =
    verify_detached_iff (sysvar_of bytes) 0 (ed25519 bytes) ((key 6, key 3) ∷ []) refl (omega arith)

accepts : verify_detached (sysvar_of bytes) 0 ((key 6, key 3) ∷ []) ≡ ok tt
unfolding verify_detached verify_slot read_u16 require_own from_le_bytes bytes_eq
accepts = refl

verify_detached_sound_example : (key 6 ≡ key 6) × (key 3 ≡ key 3)
verify_detached_sound_example =
    (verify_detached_sound (sysvar_of bytes) (OnlySigned 6 (key 3) refl) 0 (ed25519 bytes)
      ((key 6, key 3) ∷ []) (only-Precompile 6 (key 3) refl) refl (omega arith) accepts).0
