-- ===== src/Verify.antt =====
-- Detached ed25519 signatures by instruction introspection:
-- solana/crates/nihilium-recovery-common/src/verify.rs. The instructions sysvar is what the runtime
-- loads from it, a parameter; a Rust slice is a list of bytes.
pub mod Entries
pub mod Soundness
pub mod Signatures
pub mod Runtime
mod Tests
use recovery_guardian_contra.Prelude.Words.{u16_max}
use recovery_guardian_contra.Prelude.Results.{map_err, ok_or, ◌>>=◌, ◌>>◌, ok, require, Result}
use recovery_guardian_contra.Prelude.{
  length, bytes_eq, leb, ◌||◌, [], ◌==◌, ◌*◌, ltb, some, drop, ◌+◌, if◌then◌else◌, ◌-◌, ◌∷◌, List,
  take, min, Option, ◌^◌, Bytes, ℕ,
}

abbrev pub offsets_len : ℕ
offsets_len = 14

abbrev pub header_len : ℕ
header_len = 2

abbrev pub signature_len : ℕ
signature_len = 64

abbrev pub pubkey_len : ℕ
pubkey_len = 32

abbrev pub message_len : ℕ
message_len = 32

abbrev pub usize_max : ℕ
usize_max = 2 ^ 64 - 1

pub data VerifyError : Type 0 where
  not_ed25519_program wrong_signature_count malformed_instruction : VerifyError
  offset_out_of_bounds foreign_instruction_reference wrong_message_length : VerifyError
  message_mismatch signer_mismatch : VerifyError

-- An Anchor error: one of this crate, or a `ProgramError` of the runtime by its code.
pub data Failure : Type 0 where
  refused : VerifyError → Failure
  runtime : ℕ → Failure

-- The fields of the runtime's `Instruction` that are read.
pub record Instruction : Type 0 where
  pub program_id : Bytes
  pub payload : Bytes

-- The greatest length of a Rust slice of bytes.
abbrev pub isize_max : ℕ
isize_max = 2 ^ 63 - 1

-- `usize` operations.
abbrev pub checked_add : ℕ → ℕ → Option ℕ
checked_add a b = if ltb usize_max (a + b) then Option.none else some (a + b)

abbrev pub checked_mul : ℕ → ℕ → Option ℕ
checked_mul a b = if ltb usize_max (a * b) then Option.none else some (a * b)

abbrev pub usize_saturating_add : ℕ → ℕ → ℕ
usize_saturating_add a b = min (a + b) usize_max

-- `bytes[offset..offset + len]` where it is in range.
abbrev pub slice : Bytes → ℕ → ℕ → Bytes
slice bytes offset len = take len (drop offset bytes)

unfoldable pub checked_slice : Bytes → ℕ → ℕ → Result Failure Bytes
checked_slice bytes offset len = do
  end ← ok_or (checked_add offset len) (refused offset_out_of_bounds)
  require (leb end (length bytes)) (refused offset_out_of_bounds)
  ok (slice bytes offset len)

-- `u16::from_le_bytes`, at the two bytes that it is given.
unfoldable pub from_le_bytes : Bytes → ℕ
from_le_bytes [] = 0
from_le_bytes (b ∷ bytes) = b + 256 * from_le_bytes bytes

unfoldable pub read_u16 : Bytes → ℕ → Result Failure ℕ
unfolding checked_slice
read_u16 bytes at = do two ← checked_slice bytes at 2; ok (from_le_bytes two)

-- The check of one of the three references: the index of this instruction, or `u16::MAX`.
unfoldable pub require_own : ℕ → ℕ → Result Failure (Unit {0})
require_own ix_index referenced =
    require (referenced == u16_max || referenced == ix_index)
      (refused foreign_instruction_reference)

-- One round of the loop over `expected`.
unfoldable pub verify_slot : ℕ → Bytes → ℕ → Bytes → Bytes → Result Failure (Unit {0})
verify_slot ix_index bytes slot signer digest = do
  scaled ← ok_or (checked_mul slot offsets_len) (refused malformed_instruction)
  base ← ok_or (checked_add header_len scaled) (refused malformed_instruction)
  require (leb (usize_saturating_add base offsets_len) (length bytes))
      (refused malformed_instruction)
  signature_offset ← read_u16 bytes base
  signature_ix ← read_u16 bytes (usize_saturating_add base 2)
  public_key_offset ← read_u16 bytes (usize_saturating_add base 4)
  public_key_ix ← read_u16 bytes (usize_saturating_add base 6)
  message_offset ← read_u16 bytes (usize_saturating_add base 8)
  message_size ← read_u16 bytes (usize_saturating_add base 10)
  message_ix ← read_u16 bytes (usize_saturating_add base 12)
  require_own ix_index signature_ix
  require_own ix_index public_key_ix
  require_own ix_index message_ix
  require (message_size == message_len) (refused wrong_message_length)
  signed_key ← checked_slice bytes public_key_offset pubkey_len
  signed_message ← checked_slice bytes message_offset message_len
  checked_slice bytes signature_offset signature_len
  require (bytes_eq signed_message digest) (refused message_mismatch)
  require (bytes_eq signed_key signer) (refused signer_mismatch)

-- The loop, from a slot on.
unfoldable pub verify_slots : ℕ → Bytes → ℕ → List (Bytes × Bytes) → Result Failure (Unit {0})
verify_slots ix_index bytes slot [] = ok tt
verify_slots ix_index bytes slot ((signer, digest) ∷ expected) = do
  verify_slot ix_index bytes slot signer digest
  verify_slots ix_index bytes (slot + 1) expected

abbrev pub first : Bytes → Option ℕ
first [] = Option.none
first (b ∷ bytes) = some b

-- What the runtime lends: the ed25519 program's id and the sysvar's instructions, by index.
pub record Sysvar : Type 0 where
  pub ed25519_id : Bytes
  pub load_instruction : ℕ → Result ℕ Instruction

unfoldable pub verify_detached : Sysvar → ℕ → List (Bytes × Bytes) → Result Failure (Unit {0})
unfolding verify_slots
verify_detached sysvar ix_index expected = do
  ix ← map_err runtime (sysvar.load_instruction ix_index)
  require (bytes_eq ix.program_id sysvar.ed25519_id) (refused not_ed25519_program)
  declared ← ok_or (first ix.payload) (refused malformed_instruction)
  require (declared == length expected) (refused wrong_signature_count)
  verify_slots ix_index ix.payload 0 expected
