-- ===== src/Compression/Records.antt =====
-- crates/tracepress-compression/src/text.rs: `encode_records` and `decode_records`, the binary form
-- of the line and run foldings. A record is a repetition count and the lines that it repeats.
-- Whether memory for so many slices can be reserved is the allocator's answer, a parameter.
pub mod Layout
pub mod Expand
pub mod RoundTrip
pub mod Total
use tracepress.Base.{
  ℕ, zero, suc, Bool, false, not, ◌||◌, Option, none, some, List, [], ◌∷◌, ◌++◌, Bytes, ltb, ◌==◌,
  checked_add, saturating_add, to_u64, eq_bytes, length, get_range, Result, ◌>>=◌, ◌>>◌, fail_if,
  ok, err,
}
use tracepress.Compression.Types.{
  CompressionLimits, TransformError, resource_limit, invalid_input, Transform,
  validate_recovery_inputs,
}
use tracepress.Compression.Varint.{write_varint, read_usize}

abbrev pub Record : Type 0
Record = ℕ × List Bytes

unfoldable pub encode_pattern : CompressionLimits → Bytes → List Bytes → Result TransformError Bytes
encode_pattern limits output [] = ok output
encode_pattern limits output (line ∷ rest) = do
  let output' = write_varint output (to_u64 (length line)) ++ line
  fail_if (ltb limits.max_candidate_output_bytes (to_u64 (length output'))) resource_limit
  encode_pattern limits output' rest

-- What goes before the lines of a record.
abbrev pub encode_header : Bytes → Record → Bytes
encode_header output (repetitions, pattern) =
    write_varint (write_varint output (to_u64 repetitions)) (to_u64 (length pattern))

unfoldable pub encode_all : CompressionLimits → Bytes → List Record → Result TransformError Bytes
encode_all limits output [] = ok output
encode_all limits output ((repetitions, pattern) ∷ rest) = do
  output' ← encode_pattern limits (encode_header output (repetitions, pattern)) pattern
  encode_all limits output' rest

unfoldable pub encode_records :
    Bytes → List Record → CompressionLimits → Result TransformError Transform
encode_records magic records limits = do
  output ← encode_all limits (write_varint magic (to_u64 (length records))) records
  ok (record { candidate = output; recovery = [] })

abbrev or_err {ℓ} : {A : Type ℓ} → Option A → TransformError → Result TransformError A
or_err none e = err e
or_err (some a) e = ok a

-- `for _ in 0..pattern_length`: the cursor behind the lines, and the lines.
pub read_pattern : ℕ → Bytes → ℕ → Result TransformError (ℕ × List Bytes)
read_pattern zero input cursor = ok (cursor, [])
read_pattern (suc n) input cursor = do
  (len, start) ← read_usize input cursor
  end ← or_err (checked_add start len) resource_limit
  line ← or_err (get_range input start end) invalid_input
  (cursor', rest) ← read_pattern n input end
  ok (cursor', line ∷ rest)

-- `for line in &pattern`, over the output and the work done.
pub emit_pattern : CompressionLimits → List Bytes → Bytes → ℕ → Result TransformError (Bytes × ℕ)
emit_pattern limits [] output work = ok (output, work)
emit_pattern limits (line ∷ rest) output work = do
  projected ← or_err (checked_add (length output) (length line)) resource_limit
  fail_if (ltb limits.max_shadow_memory_bytes (to_u64 projected)) resource_limit
  let work' = saturating_add work 1
  fail_if (ltb limits.max_shadow_work_units work') resource_limit
  emit_pattern limits rest (output ++ line) work'

-- `for _ in 0..repetitions`.
pub emit_repeated :
    CompressionLimits → ℕ → List Bytes → Bytes → ℕ → Result TransformError (Bytes × ℕ)
emit_repeated limits zero pattern output work = ok (output, work)
emit_repeated limits (suc n) pattern output work = do
  (output', work') ← emit_pattern limits pattern output work
  emit_repeated limits n pattern output' work'

-- `for _ in 0..records`: the cursor behind the records, and the output.
pub decode_all :
    (ℕ → Bool) → CompressionLimits → ℕ → Bytes → ℕ → Bytes → ℕ → Result TransformError (ℕ × Bytes)
decode_all can_reserve limits zero input cursor output work = ok (cursor, output)
decode_all can_reserve limits (suc n) input cursor output work = do
  (repetitions, cursor1) ← read_usize input cursor
  (pattern_length, cursor2) ← read_usize input cursor1
  fail_if
      (ltb (length input) pattern_length
        || ltb limits.max_shadow_work_units (to_u64 pattern_length))
      resource_limit
  fail_if (not (can_reserve pattern_length)) resource_limit
  (cursor3, pattern) ← read_pattern pattern_length input cursor2
  (output', work') ← emit_repeated limits repetitions pattern output work
  decode_all can_reserve limits n input cursor3 output' work'

-- `input.get(..magic.len()) == Some(magic)`.
abbrev is_magic : Bytes → Option Bytes → Bool
is_magic magic none = false
is_magic magic (some found) = eq_bytes found magic

abbrev has_magic : Bytes → Bytes → Bool
has_magic input magic = is_magic magic (get_range input 0 (length magic))

pub decode_records : (ℕ → Bool) → Bytes → Bytes → CompressionLimits → Result TransformError Bytes
decode_records can_reserve input magic limits = do
  validate_recovery_inputs input [] limits
  fail_if (not (has_magic input magic)) invalid_input
  (records, cursor) ← read_usize input (length magic)
  (cursor', output) ← decode_all can_reserve limits records input cursor [] 0
  fail_if (not (cursor' == length input)) invalid_input
  ok output
