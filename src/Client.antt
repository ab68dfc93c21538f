-- ===== src/Client.antt =====
-- The client's packer of detached signatures: solana/bindings/ed25519.ts. `nacl.sign.detached` is a
-- parameter, and an exception is `none`: `writeUInt8` and `writeUInt16LE` of Node's Buffer throw a
-- RangeError at a value that does not fit.
pub mod Places
pub mod Packing
pub mod Rows
pub mod RoundTrip
pub mod Total
pub mod Quorum
pub mod Digests
mod Tests
use recovery_guardian_contra.Encoding.{concat, to_le_bytes}
use recovery_guardian_contra.Prelude.Words.{u16_max}
use recovery_guardian_contra.Prelude.{
  ◌*◌, ◌++◌, leb, length, bytes_eq, [], ◌∷◌, map, some, if◌then◌else◌, ◌+◌, List, Option, ℕ, Bytes,
}

pub record Entry : Type 0 where
  pub public_key : Bytes
  pub signature : Bytes
  pub message : Bytes

-- What one entry of the offsets array will say, beside the references to the instruction itself.
pub record Offsets : Type 0 where
  pub signature_offset : ℕ
  pub public_key_offset : ℕ
  pub message_offset : ℕ
  pub message_size : ℕ

-- The Map from messages to offsets. Its keys are hexadecimal, which tells byte strings apart.
unfoldable pub get : Bytes → List (Bytes × ℕ) → Option ℕ
get message [] = Option.none
get message ((key, offset) ∷ known) =
    if bytes_eq key message then some offset else get message known

-- The body once the key and the signature of an entry have been pushed.
abbrev pub pushed : Entry → Bytes → Bytes
pushed entry body = (body ++ entry.public_key) ++ entry.signature

abbrev pub offsets_of : ℕ → Entry → Bytes → ℕ → Offsets
offsets_of body_start entry body message_offset = record {
  signature_offset = body_start + length (body ++ entry.public_key);
  public_key_offset = body_start + length body;
  message_offset = message_offset;
  message_size = length entry.message;
}

-- A message that is known is shared, and any other is pushed and remembered.
unfoldable pub place_message :
    ℕ → Entry → Bytes → List (Bytes × ℕ) → Option ℕ → Offsets × Bytes × List (Bytes × ℕ)
place_message body_start entry body known (some offset) =
    (offsets_of body_start entry body offset, pushed entry body, known)
place_message body_start entry body known Option.none =
    let offset = body_start + length (pushed entry body) in
    (
      offsets_of body_start entry body offset,
      pushed entry body ++ entry.message,
      (entry.message, offset) ∷ known,
    )

-- The callback of `entries.map`, which also returns the body and the Map that it has written to.
unfoldable pub place : ℕ → Entry → Bytes → List (Bytes × ℕ) → Offsets × Bytes × List (Bytes × ℕ)
unfolding get place_message
place body_start entry body known =
    place_message body_start entry body known (get entry.message known)

unfoldable pub place_all : ℕ → List Entry → Bytes → List (Bytes × ℕ) → List Offsets × Bytes
unfolding place
place_all body_start [] body known = ([], body)
place_all body_start (entry ∷ entries) body known =
    let (offsets, body', known') = place body_start entry body known in
    let (rest, final) = place_all body_start entries body' known' in (offsets ∷ rest, final)

-- `writeUInt16LE`
unfoldable pub u16 : ℕ → Option Bytes
u16 value = if leb value u16_max then some (to_le_bytes 2 value) else Option.none

-- `CURRENT`
abbrev pub current : ℕ
current = 0xffff

infixl 5 ◌>>=◌
abbrev pub ◌>>=◌ : {A B : Type 0} → Option A → (A → Option B) → Option B
some a >>= f = f a
Option.none >>= f = Option.none

-- The callback of `offsets.forEach`: the 14 bytes that it writes.
unfoldable pub row : Offsets → Option Bytes
unfolding u16
row o = do
  signature_offset ← u16 o.signature_offset
  signature_ix ← u16 current
  public_key_offset ← u16 o.public_key_offset
  public_key_ix ← u16 current
  message_offset ← u16 o.message_offset
  message_size ← u16 o.message_size
  message_ix ← u16 current
  some (
      concat (
        signature_offset ∷ signature_ix ∷ public_key_offset ∷ public_key_ix ∷ message_offset
        ∷ message_size ∷ message_ix ∷ []))

unfoldable pub rows : List Offsets → Option Bytes
unfolding row
rows [] = some []
rows (o ∷ offsets) = do first ← row o; rest ← rows offsets; some (first ++ rest)

-- `ed25519MultiSignatureInstruction`: its data. The writes fill the buffer from its start on.
unfoldable pub pack : List Entry → Option Bytes
unfolding place_all rows
pack entries =
    let body_start = 2 + length entries * 14 in
    let placed = place_all body_start entries [] [] in
    if leb (length entries) 255
    then (do table ← rows placed.0; some (length entries ∷ 0 ∷ (table ++ placed.1)))
    else Option.none

-- `signAll`, over `nacl.sign.detached` and pairs of a public and a secret key.
unfoldable pub sign_all : (Bytes → Bytes → Bytes) → List (Bytes × Bytes) → Bytes → Option Bytes
sign_all detached signers message = pack (
    map
      (λ (public_key, secret_key). record {
        public_key = public_key;
        signature = detached message secret_key;
        message = message;
      })
      signers)
