-- ===== src/Core/Identity.antt =====
-- crates/tracepress-core/src/content_id.rs: the text of a content identity. A digest is its 32
-- bytes; SHA-256, which computes them, is a library's and takes no part in this.
pub mod RoundTrip
use tracepress.Base.{
  ℕ, zero, suc, ◌+◌, ◌-◌, ◌*◌, ◌/◌, ◌%◌, Bool, true, false, not, ◌&&◌, List, [], ◌∷◌, Bytes, ltb,
  leb, ◌==◌, if◌then◌else◌, length, Result, ◌>>=◌, ◌>>◌, fail_if, ok, err,
}

pub data ContentIdParseError : Type 0 where
  invalid_length invalid_hex : ℕ → ContentIdParseError

abbrev pub sha256_bytes : ℕ
sha256_bytes = 32

abbrev pub sha256_hex_chars : ℕ
sha256_hex_chars = sha256_bytes * 2

-- A match on a range of bytes.
abbrev pub is_within : ℕ → ℕ → ℕ → Bool
is_within first last byte = leb first byte && leb byte last

unfoldable pub decode_nibble : ℕ → Result ContentIdParseError ℕ
decode_nibble byte =
    if is_within 0x30 0x39 byte
    then ok (byte - 0x30)
    else if is_within 0x61 0x66 byte
    then ok (byte - 0x61 + 10)
    else if is_within 0x41 0x46 byte
    then ok (byte - 0x41 + 10)
    else err (invalid_hex byte)

-- `slice.as_chunks::<2>()`: the pairs, and the byte that is left of an odd number.
unfoldable pub as_chunks : Bytes → List (ℕ × ℕ) × Bytes
as_chunks (high ∷ low ∷ rest) = ((high, low) ∷ (as_chunks rest).0, (as_chunks rest).1)
as_chunks remainder = ([], remainder)

-- The loop over `digest.iter_mut().zip(pairs)`, which ends with the shorter of the two. A shift of
-- a `u8` drops what leaves its eight bits, and `low` has its bits where the shift left zeros.
unfoldable pub decode_pairs : Bytes → List (ℕ × ℕ) → Result ContentIdParseError Bytes
decode_pairs [] pairs = ok []
decode_pairs (output ∷ outputs) [] = ok (output ∷ outputs)
decode_pairs (output ∷ outputs) ((high_byte, low_byte) ∷ pairs) = do
  high ← decode_nibble high_byte
  low ← decode_nibble low_byte
  rest ← decode_pairs outputs pairs
  ok ((high * 16 % 256 + low) ∷ rest)

abbrev pub zeros : ℕ → Bytes
zeros zero = []
zeros (suc n) = 0 ∷ zeros n

abbrev pub is_exhausted : Bytes → Bool
is_exhausted [] = true
is_exhausted (_ ∷ _) = false

unfoldable pub from_str : Bytes → Result ContentIdParseError Bytes
from_str value = do
  fail_if (not (length value == sha256_hex_chars)) (invalid_length (length value))
  fail_if (not (is_exhausted (as_chunks value).1)) (invalid_length (length value))
  decode_pairs (zeros sha256_bytes) (as_chunks value).0

-- A digit of the format `{:x}`.
abbrev pub hex_digit : ℕ → ℕ
hex_digit n = if ltb n 10 then 0x30 + n else 0x57 + n

-- The format `{byte:02x}` of each byte.
unfoldable pub fmt : Bytes → Bytes
fmt [] = []
fmt (byte ∷ bytes) = hex_digit (byte / 16) ∷ hex_digit (byte % 16) ∷ fmt bytes
