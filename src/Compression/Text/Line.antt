-- ===== src/Compression/Text/Line.antt =====
-- `TextRepeatedLine`: what is folded can be recovered.
use tracepress.Base.{
  ℕ, zero, suc, ◌≤◌, ◌≡◌, refl, ap, ◌∙◌, inl, inr, Bool, true, List, [], ◌∷◌, ◌++◌, arith, Bytes,
  Bool-cases, IsU64, eq_bytes, eq_bytes_iff, length, All, drop, >>=-eq-ok, ok,
}
use tracepress.Compression.Types.{CompressionLimits, Transform}
use tracepress.Compression.Records.{encode_records}
use tracepress.Compression.Records.Expand.{concat, repeat_lines, expand, Room}
use tracepress.Compression.Records.RoundTrip.{IsRecord, decode_records-encode_records}
use tracepress.Compression.Text.{
  lines, validate_text, line_magic, run_length, repeated_lines, line_transform, line_recover,
}
use tracepress.Compression.Text.Lines.{concat-lines, length-lines}

run_length-le : (line : Bytes) (rest : List Bytes) → run_length line rest ≤ length rest
unfolding run_length
run_length-le line [] = omega arith
run_length-le line (next ∷ rest) = ground (arith, run_length-le line rest)

run_length-drop :
    (line : Bytes) (rest : List Bytes)
    → repeat_lines (run_length line rest) (line ∷ []) ++ drop (run_length line rest) rest ≡ rest
unfolding run_length
run_length-drop line [] = refl
run_length-drop line (next ∷ rest) = elim (Bool-cases (eq_bytes next line)) [
  | inl same ↦ rw same (rw (run_length-drop line rest, (eq_bytes_iff next line).0 same))
  | inr new ↦ rw new
]

expand-repeated_lines :
    (skip : ℕ) (ls : List Bytes) → expand (repeated_lines skip ls) ≡ drop skip ls
unfolding repeated_lines
expand-repeated_lines zero [] = refl
expand-repeated_lines (suc skip) [] = refl
expand-repeated_lines (suc skip) (line ∷ rest) = expand-repeated_lines skip rest
expand-repeated_lines zero (line ∷ rest) =
    rw (expand-repeated_lines (run_length line rest) rest)
      (ap (◌∷◌ line) (run_length-drop line rest))

repeated_lines-IsRecord :
    (skip : ℕ) (ls : List Bytes) → IsU64 (length ls) → All IsRecord (repeated_lines skip ls)
unfolding repeated_lines
repeated_lines-IsRecord zero [] h = tt
repeated_lines-IsRecord (suc skip) [] h = tt
repeated_lines-IsRecord (suc skip) (line ∷ rest) h = repeated_lines-IsRecord skip rest (omega arith)
repeated_lines-IsRecord zero (line ∷ rest) h = (
  omega (arith, run_length-le line rest),
  repeated_lines-IsRecord (run_length line rest) rest (omega arith),
)

-- A text that was accepted has no more bytes than the work limit.
pub validate_text-ok :
    (input : Bytes) (limits : CompressionLimits)
    → validate_text input limits ≡ ok tt
    → IsU64 (length input)
    → length input ≤ limits.max_shadow_work_units
unfolding validate_text
validate_text-ok input limits e small = ground arith

-- What a caller of `recover` has to know of the candidate: it is within the limits that recovery
-- puts on its input.
pub record IsBounded (limits : CompressionLimits) (bytes : Bytes) : Type 0 where
  pub in_u64 : IsU64 (length bytes)
  pub in_output : length bytes ≤ limits.max_candidate_output_bytes
  pub in_memory : length bytes ≤ limits.max_shadow_memory_bytes

-- When `TextRepeatedLine` folds a text of representable length that fits the memory limit into a
-- candidate within the limits, and memory for as many slices as the candidate has bytes can be
-- reserved, recovering from that candidate and its recovery bytes gives the text back, byte for byte.
pub line_recover-line_transform :
    (can_reserve : ℕ → Bool) (input : Bytes) (limits : CompressionLimits) {t : Transform}
    → line_transform input limits ≡ ok t
    → IsU64 (length input)
    → length input ≤ limits.max_shadow_memory_bytes
    → IsBounded limits t.candidate
    → ((k : ℕ) → k ≤ length t.candidate → can_reserve k ≡ true)
    → line_recover can_reserve t.candidate t.recovery limits ≡ ok input
unfolding line_transform line_recover
line_recover-line_transform can_reserve input limits {t} e small fits bounded memory =
    let records = repeated_lines 0 (lines input) in
    let (_, valid, encoded) =
      >>=-eq-ok (validate_text input limits) (λ _. encode_records line_magic records limits) e in
    let same = expand-repeated_lines 0 (lines input) in
    let bytes = ap concat same ∙ concat-lines input in
    let room : Room limits (length (concat (expand records))) (length (expand records)) =
      rw (bytes, same)
        (omega (arith, length-lines input, validate_text-ok input limits valid small)) in
    let back =
      decode_records-encode_records can_reserve line_magic records limits encoded
        (repeated_lines-IsRecord 0 (lines input) (omega (arith, length-lines input))) bounded.in_u64
        bounded.in_output bounded.in_memory room memory in
    back.1 ∙ ap ok bytes
