-- ===== src/Compression/Varint.antt =====
-- crates/tracepress-compression/src/text.rs: `write_varint`, `read_varint` and `read_usize`. Seven
-- bits a byte, lowest group first, with the top bit set on every byte but the last.
pub mod RoundTrip
use tracepress.Base.{
  ℕ, zero, suc, ◌+◌, ◌*◌, ◌/◌, ◌%◌, ◌^◌, ◌&&◌, none, some, [], ◌∷◌, ◌++◌, Bytes, ltb, ◌==◌,
  if◌then◌else◌, saturating_add, get_elem?, Result, ok, err,
}
use tracepress.Compression.Types.{TransformError, invalid_input}

-- `value & 0x7f` is `value % 128`, `value >>= 7` is `value / 128`, and `low | 0x80` is `low + 128`
-- since `low` has seven bits. A u64 has at most ten groups, so ten rounds are enough.
unfoldable pub groups : ℕ → ℕ → Bytes
groups zero value = []
groups (suc fuel) value =
    let rest = groups fuel (value / 128) in
    if value / 128 == 0 then value % 128 ∷ [] else (value % 128 + 128) ∷ rest

unfoldable pub write_varint : Bytes → ℕ → Bytes
write_varint output value = output ++ groups 10 value

-- `for shift in (0..=63).step_by(7)`: ten rounds. The groups do not overlap, so `|=` is `+`, and at
-- shift 63 the guard leaves one bit, so nothing is shifted out. The answer has the new cursor.
pub read_groups : ℕ → ℕ → Bytes → ℕ → ℕ → Result TransformError (ℕ × ℕ)
read_groups zero shift input cursor value = err invalid_input
read_groups (suc rounds) shift input cursor value = elim (get_elem? input cursor) [
  | none ↦ err invalid_input
  | some byte ↦
      let value' = value + byte % 128 * 2 ^ shift in
      let rest = read_groups rounds (shift + 7) input (saturating_add cursor 1) value' in
      if shift == 63 && ltb 1 (byte % 128)
      then err invalid_input
      else if ltb byte 128
      then ok (value', saturating_add cursor 1)
      else rest
]

unfoldable pub read_varint : Bytes → ℕ → Result TransformError (ℕ × ℕ)
read_varint input cursor = read_groups 10 0 input cursor 0

-- `usize` has 64 bits, so the conversion always succeeds.
unfoldable pub read_usize : Bytes → ℕ → Result TransformError (ℕ × ℕ)
unfolding read_varint
read_usize input cursor = read_varint input cursor
