-- ===== src/Compression/Text/Total.antt =====
-- `TextRepeatedLine`: every small enough text is folded, and recovered.
use tracepress.Base.{
  ℕ, zero, suc, ◌+◌, ◌*◌, ◌≤◌, ◌≡◌, ap, Bool, true, false, List, [], ◌∷◌, ◌++◌, arith, Bytes, ltb,
  IsU64, to_u64, length, length-append, is_utf8, ok,
}
use tracepress.Compression.Types.{CompressionLimits, Transform}
use tracepress.Compression.Records.Expand.{concat}
use tracepress.Compression.Records.Layout.{number, records_bytes}
use tracepress.Compression.Records.Total.{encoded, encode_records-ok, length-number_le}
use tracepress.Compression.Text.{
  lines, validate_text, line_magic, run_length, repeated_lines, line_transform, line_recover,
}
use tracepress.Compression.Text.Lines.{concat-lines, length-lines}
use tracepress.Compression.Text.Line.{line_recover-line_transform}

-- A record of one line has at most thirty bytes beside the line.
length-records_bytes :
    (skip : ℕ) (ls : List Bytes)
    → length (records_bytes (repeated_lines skip ls)) ≤ 30 * length ls + length (concat ls)
unfolding repeated_lines
length-records_bytes zero [] = omega arith
length-records_bytes (suc skip) [] = omega arith
length-records_bytes (suc skip) (line ∷ rest) =
    omega (arith, length-records_bytes skip rest, length-append line (concat rest))
length-records_bytes zero (line ∷ rest) =
    let n = suc (run_length line rest) in
    let later = records_bytes (repeated_lines (run_length line rest) rest) in
    omega (
      arith,
      length-records_bytes (run_length line rest) rest,
      length-append line (concat rest),
      length-append (number n) (number 1 ++ ((number (length line) ++ (line ++ [])) ++ later)),
      length-append (number 1) ((number (length line) ++ (line ++ [])) ++ later),
      length-append (number (length line) ++ (line ++ [])) later,
      length-append (number (length line)) (line ++ []),
      length-append line [],
      length-number_le n,
      length-number_le 1,
      length-number_le (length line),
    )

validate_text_small :
    (input : Bytes) (limits : CompressionLimits)
    → is_utf8 input ≡ true
    → length input ≤ limits.max_shadow_work_units
    → validate_text input limits ≡ ok tt
unfolding validate_text
validate_text_small input limits valid small =
    let h : ltb limits.max_shadow_work_units (to_u64 (length input)) ≡ false = ground arith in
    rw (h, valid)

-- Every UTF-8 text whose length is within the work and memory limits and, 31 times and with 14 bytes
-- more, within the output limit and the memory limit, all below 2^64, is folded by
-- `TextRepeatedLine` without an error, and, if memory for as many slices can be reserved, recovered
-- byte for byte.
pub line_recover-line_transform_total :
    (can_reserve : ℕ → Bool) (input : Bytes) (limits : CompressionLimits)
    → is_utf8 input ≡ true
    → length input ≤ limits.max_shadow_work_units
    → 14 + 31 * length input ≤ limits.max_candidate_output_bytes
    → 14 + 31 * length input ≤ limits.max_shadow_memory_bytes
    → IsU64 limits.max_candidate_output_bytes
    → ((k : ℕ) → k ≤ 14 + 31 * length input → can_reserve k ≡ true)
    → (t : Transform) × (line_transform input limits ≡ ok t)
      × (line_recover can_reserve t.candidate t.recovery limits ≡ ok input)
unfolding line_transform
line_recover-line_transform_total can_reserve input limits valid small output memory word reserves =
    let ls = lines input in
    let records = repeated_lines 0 ls in
    let t : Transform = record { candidate = encoded line_magic records; recovery = [] } in
    let size : length t.candidate ≤ 14 + 31 * length input = omega (
      arith,
      length-append line_magic (number (length records) ++ records_bytes records),
      length-append (number (length records)) (records_bytes records),
      length-number_le (length records),
      length-records_bytes 0 ls,
      length-lines input,
      ap length (concat-lines input),
    ) in
    let folded : line_transform input limits ≡ ok t =
      rw (validate_text_small input limits valid small)
        (encode_records-ok line_magic records limits (omega (arith, size))) in
    (
      t,
      folded,
      line_recover-line_transform can_reserve input limits folded (omega arith) (omega arith)
          (record {
            in_u64 = omega (arith, size);
            in_output = omega (arith, size);
            in_memory = omega (arith, size);
          })
          (λ k fits. reserves k (omega (arith, size))),
    )
