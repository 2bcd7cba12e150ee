-- ===== src/Compression/Tests.antt =====
-- Runs of crates/tracepress-compression on small inputs.
use tracepress.Base.{
  ℕ, ◌≤◌, ◌≡◌, refl, ◌≢◌, ◌↔◌, Bool, true, false, Option, none, some, List, [], ◌∷◌, ◌++◌, arith,
  Bytes, leb, le→leb, eq_bytes, eq_bytes_iff, length, is_utf8, ok,
}
use tracepress.Base.Ascii.{ascii}
use tracepress.Compression.Types.{
  BlockMetadata, Transform, default_limits, tool_generated, tool_result, plain_text,
}
use tracepress.Compression.Varint.{write_varint, read_usize, groups}
use tracepress.Compression.Varint.RoundTrip.{read_usize-write_varint}
use tracepress.Compression.Records.{
  Record, encode_records, decode_records, encode_all, encode_pattern,
}
use tracepress.Compression.Records.Expand.{expand, concat}
use tracepress.Compression.Records.RoundTrip.{decode_records-encode_records}
use tracepress.Compression.Text.{
  lines, validate_text, lines_from, repeated_lines, run_length, line_transform, line_recover,
  run_transform, run_recover, run_records, search_patterns, count_repetitions, starts_with_lines,
}
use tracepress.Compression.Text.Line.{IsBounded, line_recover-line_transform}
use tracepress.Compression.Text.Lines.{concat-lines}
use tracepress.Compression.Text.Total.{line_recover-line_transform_total}
use tracepress.Compression.Text.Run.RoundTrip.{run_recover-run_transform}
use tracepress.Compression.Evaluate.{
  Hash, Readings, applicable, recovery_failed, evaluate_with_estimator, measured,
}
use tracepress.Compression.Evaluate.Gates.{outcome, Admitted, Carries, evaluate_applicable}
use tracepress.Compression.Evaluate.Recovery.{Lost, evaluate-recovery_failed}
use tracepress.Compression.Compressors.{
  text_repeated_line, text_repeated_run, record_compressors-ne-recovery_failed,
}

read_usize-write_varint_example :
    read_usize (write_varint (ascii "ab") 300 ++ ascii "c") 2
    ≡ ok (300, length (write_varint (ascii "ab") 300))
unfolding write_varint groups
read_usize-write_varint_example =
    read_usize-write_varint (ascii "ab") (ascii "c") 300 (omega arith) (omega arith)

-- Memory for as many slices as the output limit says.
abbrev can_reserve : ℕ → Bool
can_reserve n = leb n 1048576

reserves : (k : ℕ) → k ≤ 1048576 → can_reserve k ≡ true
reserves k fits = le→leb k 1048576 fits

abbrev pair : Bytes
pair = ascii "a\nbb\n"

concat-lines_example : concat (lines pair) ≡ pair
concat-lines_example = concat-lines pair

-- One line four times.
abbrev repeated : Bytes
repeated = ascii "aa\naa\naa\naa\n"

abbrev folded : Transform
folded = record { candidate = ascii "TPL1" ++ (1 ∷ 4 ∷ 1 ∷ 3 ∷ ascii "aa\n"); recovery = [] }

repeated-is_utf8 : is_utf8 repeated ≡ true
unfolding is_utf8
repeated-is_utf8 = refl

line_transform-repeated : line_transform repeated default_limits ≡ ok folded
unfolding line_transform validate_text is_utf8 lines lines_from repeated_lines run_length eq_bytes
    encode_records encode_all encode_pattern write_varint groups
line_transform-repeated = refl

folded-IsBounded : IsBounded default_limits folded.candidate
folded-IsBounded = record { in_u64 = omega arith; in_output = omega arith; in_memory = omega arith }

line_recover-line_transform_example :
    line_recover can_reserve folded.candidate folded.recovery default_limits ≡ ok repeated
line_recover-line_transform_example =
    line_recover-line_transform can_reserve repeated default_limits line_transform-repeated
      (omega arith) (omega arith) folded-IsBounded (λ k fits. reserves k (omega arith))

line_recover-line_transform_total_example :
    (t : Transform) × (line_transform repeated default_limits ≡ ok t)
    × (line_recover can_reserve t.candidate t.recovery default_limits ≡ ok repeated)
line_recover-line_transform_total_example =
    line_recover-line_transform_total can_reserve repeated default_limits repeated-is_utf8
      (omega arith) (omega arith) (omega arith) (omega arith) (λ k fits. reserves k (omega arith))

-- Two lines in turn, three times.
abbrev alternating : Bytes
alternating = ascii "aa\nbb\naa\nbb\naa\nbb\n"

abbrev folded_run : Transform
folded_run = record {
  candidate = ascii "TPR2" ++ (1 ∷ 3 ∷ 2 ∷ 3 ∷ ascii "aa\n" ++ (3 ∷ ascii "bb\n"));
  recovery = [];
}

run_transform-alternating : run_transform alternating default_limits ≡ ok folded_run
unfolding run_transform validate_text is_utf8 lines lines_from run_records search_patterns
    count_repetitions starts_with_lines eq_bytes encode_records encode_all encode_pattern
    write_varint groups
run_transform-alternating = refl

folded_run-IsBounded : IsBounded default_limits folded_run.candidate
folded_run-IsBounded = record {
  in_u64 = omega arith;
  in_output = omega arith;
  in_memory = omega arith;
}

run_recover-run_transform_example :
    run_recover can_reserve folded_run.candidate folded_run.recovery default_limits ≡ ok alternating
run_recover-run_transform_example =
    run_recover-run_transform can_reserve alternating default_limits run_transform-alternating
      (omega arith) (omega arith) folded_run-IsBounded (λ k fits. reserves k (omega arith))

abbrev records : List Record
records = (2, ascii "x" ∷ []) ∷ (1, ascii "yz" ∷ []) ∷ []

abbrev written : Transform
written = record {
  candidate = ascii "M" ++ (2 ∷ 2 ∷ 1 ∷ 1 ∷ ascii "x" ++ (1 ∷ 1 ∷ 2 ∷ ascii "yz"));
  recovery = [];
}

encode_records-records : encode_records (ascii "M") records default_limits ≡ ok written
unfolding encode_records encode_all encode_pattern write_varint groups
encode_records-records = refl

decode_records-encode_records_example :
    (written.recovery ≡ [])
    × (decode_records can_reserve written.candidate (ascii "M") default_limits
        ≡ ok (concat (expand records)))
decode_records-encode_records_example =
    decode_records-encode_records can_reserve (ascii "M") records default_limits
      encode_records-records (omega arith, (omega arith, tt)) (omega arith) (omega arith)
      (omega arith)
      (record {
        size_fits = omega arith;
        work_fits = omega arith;
        size_u64 = omega arith;
        work_u64 = omega arith;
      })
      (λ k fits. reserves k (omega arith))

-- The bytes themselves are a digest.
abbrev identity : Hash
identity = record { Digest = Bytes; digest = λ b. b; eq = eq_bytes; eq_iff = eq_bytes_iff }

abbrev clock : Readings
clock = record { elapsed_ms = 0; elapsed_us = 7 }

abbrev plain : BlockMetadata
plain = record {
  origin = tool_generated;
  kind = tool_result;
  detected_kind = plain_text;
  input_estimated_tokens = some 12;
  request_offset = 5;
  request_analysis_bytes = 100;
  persistence = none;
  exact_repetition = none;
}

-- A token a byte.
abbrev estimate : Bytes → Option ℕ
estimate b = some (length b)

repeated-applicable :
    (outcome identity
      (text_repeated_line can_reserve)
      plain
      repeated
      default_limits
      clock
      estimate).metrics.status
    ≡ applicable
unfolding evaluate_with_estimator measured eq_bytes
repeated-applicable = rw (line_transform-repeated, line_recover-line_transform_example) refl

evaluate_applicable_example :
    Admitted identity (text_repeated_line can_reserve) plain repeated default_limits clock estimate
    × Carries identity
        (text_repeated_line can_reserve)
        plain
        repeated
        default_limits
        clock
        estimate
        (outcome identity
          (text_repeated_line can_reserve)
          plain
          repeated
          default_limits
          clock
          estimate)
evaluate_applicable_example =
    evaluate_applicable identity (text_repeated_line can_reserve) plain repeated default_limits
      clock estimate repeated-applicable

-- Where no memory can be reserved, the text is folded and not recovered.
evaluate-recovery_failed_example :
    ((outcome identity
        (text_repeated_line (λ _. false))
        plain
        repeated
        default_limits
        clock
        estimate).metrics.status
      ≡ recovery_failed)
    ↔ (Admitted identity
          (text_repeated_line (λ _. false))
          plain
          repeated
          default_limits
          clock
          estimate
        × ((t : Transform) × Lost identity
              (text_repeated_line (λ _. false))
              plain
              repeated
              default_limits
              clock
              estimate
              t))
evaluate-recovery_failed_example =
    evaluate-recovery_failed identity (text_repeated_line (λ _. false)) plain repeated
      default_limits clock estimate

record_compressors-ne-recovery_failed_example :
    ((outcome identity
        (text_repeated_line can_reserve)
        plain
        pair
        default_limits
        clock
        estimate).metrics.status
      ≢ recovery_failed)
    × ((outcome identity
          (text_repeated_run can_reserve)
          plain
          pair
          default_limits
          clock
          estimate).metrics.status
        ≢ recovery_failed)
record_compressors-ne-recovery_failed_example =
    record_compressors-ne-recovery_failed can_reserve identity plain pair default_limits clock
      estimate (omega arith) (omega arith) reserves
