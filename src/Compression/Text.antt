-- ===== src/Compression/Text.antt =====
-- crates/tracepress-compression/src/text.rs: the plain-text compressors that write binary records.
-- A loop over an index that jumps forward is a recursion on the lines from that index on, with the
-- number of lines still to pass.
pub mod Lines
pub mod Line
pub mod Total
pub mod Run
use tracepress.Base.{
  ℕ, zero, suc, ◌+◌, ◌-◌, ◌*◌, ◌/◌, min, Bool, true, false, ◌&&◌, Option, none, some, List, [], ◌∷◌,
  ◌++◌, Bytes, ltb, ◌==◌, if◌then◌else◌, saturating_add, to_u64, eq_bytes, length, get_range,
  is_utf8, Result, ◌>>=◌, ◌>>◌, fail_if, ok, err,
}
use tracepress.Compression.Types.{
  CompressionLimits, TransformError, internal, resource_limit, invalid_input, Transform,
}
use tracepress.Compression.Records.{Record, encode_records, decode_records}

-- The loop of `lines` over the bytes; `current` is the line read so far, `input[start..index]`.
unfoldable pub lines_from : Bytes → Bytes → List Bytes
lines_from [] [] = []
lines_from (c ∷ current) [] = (c ∷ current) ∷ []
lines_from current (b ∷ bs) = elim (b == 0x0a) [
  | true ↦ (current ++ b ∷ []) ∷ lines_from [] bs
  | false ↦ lines_from (current ++ b ∷ []) bs
]

unfoldable pub lines : Bytes → List Bytes
unfolding lines_from
lines input = lines_from [] input

unfoldable pub validate_text : Bytes → CompressionLimits → Result TransformError (Unit {0})
validate_text input limits =
    if ltb limits.max_shadow_work_units (to_u64 (length input))
    then err resource_limit
    else if is_utf8 input
    then ok tt
    else err invalid_input

-- "TPL1" and "TPR2".
abbrev pub line_magic : Bytes
line_magic = b'T' ∷ b'P' ∷ b'L' ∷ b'1' ∷ []

abbrev pub run_magic : Bytes
run_magic = b'T' ∷ b'P' ∷ b'R' ∷ b'2' ∷ []

-- How many of the lines that follow equal `line`.
unfoldable pub run_length : Bytes → List Bytes → ℕ
run_length line [] = 0
run_length line (next ∷ rest) =
    let more = run_length line rest in if eq_bytes next line then suc more else 0

-- The loop of `TextRepeatedLine::transform`; `skip` lines belong to the record before.
unfoldable pub repeated_lines : ℕ → List Bytes → List Record
repeated_lines skip [] = []
repeated_lines (suc skip) (line ∷ rest) = repeated_lines skip rest
repeated_lines zero (line ∷ rest) =
    (suc (run_length line rest), line ∷ []) ∷ repeated_lines (run_length line rest) rest

unfoldable pub line_transform : Bytes → CompressionLimits → Result TransformError Transform
line_transform input limits = do
  validate_text input limits
  encode_records line_magic (repeated_lines 0 (lines input)) limits

pub line_recover : (ℕ → Bool) → Bytes → Bytes → CompressionLimits → Result TransformError Bytes
line_recover can_reserve candidate recovery limits =
    decode_records can_reserve candidate line_magic limits

-- Some lines begin with these lines, that is `lines.get(start..start + pattern_len) == Some(pattern)`.
unfoldable pub starts_with_lines : List Bytes → List Bytes → Bool
starts_with_lines [] ls = true
starts_with_lines (p ∷ ps) [] = false
starts_with_lines (p ∷ ps) (l ∷ ls) = eq_bytes p l && starts_with_lines ps ls

-- The inner `while` over the lines behind the pattern's first place: the repetitions and the work.
unfoldable pub count_repetitions :
    CompressionLimits → List Bytes → ℕ → List Bytes → ℕ → ℕ → Result TransformError (ℕ × ℕ)
count_repetitions limits pattern skip [] repetitions work = ok (repetitions, work)
count_repetitions limits pattern (suc skip) (line ∷ rest) repetitions work =
    count_repetitions limits pattern skip rest repetitions work
count_repetitions limits pattern zero (line ∷ rest) repetitions work =
    elim (starts_with_lines pattern (line ∷ rest)) [
      | false ↦ ok (repetitions, work)
      | true ↦ do
        let work' = saturating_add work (length pattern)
        fail_if (ltb limits.max_shadow_work_units work') resource_limit
        count_repetitions limits pattern (length pattern - 1) rest (repetitions + 1) work'
    ]

-- A pattern length, its repetitions and the lines that they cover.
abbrev pub Best : Type 0
Best = ℕ × ℕ × ℕ

abbrev improves : ℕ → Option Best → Bool
improves covered none = true
improves covered (some (_, _, best_covered)) = ltb best_covered covered

abbrev or_internal {ℓ} : {A : Type ℓ} → Option A → Result TransformError A
or_internal none = err internal
or_internal (some a) = ok a

-- `for pattern_len in 2..=…`: `n` lengths from `pattern_len` on.
unfoldable pub search_patterns :
    CompressionLimits
    → ℕ
    → ℕ
    → List Bytes
    → ℕ
    → Option Best
    → Result TransformError (Option Best × ℕ)
search_patterns limits zero pattern_len here work best = ok (best, work)
search_patterns limits (suc n) pattern_len here work best = do
  let work1 = saturating_add work 1
  fail_if (ltb limits.max_shadow_work_units work1) resource_limit
  pattern ← or_internal (get_range here 0 pattern_len)
  (repetitions, work2) ← count_repetitions limits pattern pattern_len here 1 work1
  let covered = pattern_len * repetitions
  let best' =
      if ltb 1 repetitions && improves covered best
      then some (pattern_len, repetitions, covered)
      else best
  search_patterns limits n (pattern_len + 1) here work2 best'

-- The pattern lengths that are tried: `2..=remaining.saturating_div(2).min(8)`.
abbrev pattern_lengths : ℕ → ℕ
pattern_lengths remaining = min (remaining / 2) 8 - 1

-- The record at an index, and how many lines it covers.
abbrev choose : List Bytes → Bytes → Option Best → Result TransformError (Record × ℕ)
choose here line none = ok ((1, line ∷ []), 1)
choose here line (some (pattern_len, repetitions, covered)) = do
  pattern ← or_internal (get_range here 0 pattern_len)
  ok ((repetitions, pattern), covered)

-- The loop of `TextRepeatedRun::transform`; a chosen run covers four lines at least.
unfoldable pub run_records :
    CompressionLimits → ℕ → List Bytes → ℕ → Result TransformError (List Record)
run_records limits skip [] work = ok []
run_records limits (suc skip) (line ∷ rest) work = run_records limits skip rest work
run_records limits zero (line ∷ rest) work = do
  (best, work') ←
      search_patterns limits (pattern_lengths (length (line ∷ rest))) 2 (line ∷ rest) work none
  (chosen, covered) ← choose (line ∷ rest) line best
  records ← run_records limits (covered - 1) rest work'
  ok (chosen ∷ records)

unfoldable pub run_transform : Bytes → CompressionLimits → Result TransformError Transform
run_transform input limits = do
  validate_text input limits
  records ← run_records limits 0 (lines input) 0
  encode_records run_magic records limits

pub run_recover : (ℕ → Bool) → Bytes → Bytes → CompressionLimits → Result TransformError Bytes
run_recover can_reserve candidate recovery limits =
    decode_records can_reserve candidate run_magic limits
