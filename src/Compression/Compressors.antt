-- ===== src/Compression/Compressors.antt =====
-- crates/tracepress-compression/src/text.rs: the record compressors as implementations of the trait.
-- The first argument says whether memory for so many slices can be reserved.
use tracepress.Base.{
  ℕ, ◌≤◌, ◌<◌, ◌≡◌, refl, ◌≢◌, Bool, true, Option, arith, Bytes, u64_max, IsU64, length, ok,
}
use tracepress.Compression.Types.{
  BlockMetadata, CompressionLimits, Transform, is_tool_result_plain_text,
}
use tracepress.Compression.Evaluate.{ShadowCompressor, Readings, Hash, recovery_failed}
use tracepress.Compression.Evaluate.Gates.{outcome, Produced}
use tracepress.Compression.Evaluate.Recovery.{evaluate-recovery_failed}
use tracepress.Compression.Text.{line_transform, line_recover, run_transform, run_recover}
use tracepress.Compression.Text.Line.{IsBounded, line_recover-line_transform}
use tracepress.Compression.Text.Run.RoundTrip.{run_recover-run_transform}
use tracepress.Base.Ascii.{ascii}

abbrev pub text_repeated_line : (ℕ → Bool) → ShadowCompressor
text_repeated_line can_reserve = record {
  id = ascii "text.repeated_line";
  version = 1;
  supports = is_tool_result_plain_text;
  transform = λ _ input limits. line_transform input limits;
  recover = line_recover can_reserve;
}

abbrev pub text_repeated_run : (ℕ → Bool) → ShadowCompressor
text_repeated_run can_reserve = record {
  id = ascii "text.repeated_run";
  version = 1;
  supports = is_tool_result_plain_text;
  transform = λ _ input limits. run_transform input limits;
  recover = run_recover can_reserve;
}

-- The resource gate bounds the candidate, if the limit is one that a slice's length can exceed.
Produced-IsBounded :
    (hash : Hash) (c : ShadowCompressor) (m : BlockMetadata) (input : Bytes)
    (limits : CompressionLimits) (clock : Readings) (estimate : Bytes → Option ℕ) (t : Transform)
    → limits.max_candidate_output_bytes < u64_max
    → Produced hash c m input limits clock estimate t
    → IsBounded limits t.candidate
Produced-IsBounded hash c m input limits clock estimate t small p = record {
  in_u64 = ground (arith, p.within_output);
  in_output = ground (arith, p.within_output);
  in_memory = ground (arith, p.within_output, p.within_memory);
}

-- A compressor that recovers the input from what it gave within the limits passes the gate.
recovering-ne-failed :
    (hash : Hash) (c : ShadowCompressor) (m : BlockMetadata) (input : Bytes)
    (limits : CompressionLimits) (clock : Readings) (estimate : Bytes → Option ℕ)
    → IsU64 (length input)
    → limits.max_candidate_output_bytes < u64_max
    → ((t : Transform)
        → c.transform 0 input limits ≡ ok t
        → length input ≤ limits.max_shadow_memory_bytes
        → IsBounded limits t.candidate
        → c.recover t.candidate t.recovery limits ≡ ok input)
    → (outcome hash c m input limits clock estimate).metrics.status ≢ recovery_failed
recovering-ne-failed hash c m input limits clock estimate small limited recovers e =
    let (admitted, (t, (p, lost))) =
      (evaluate-recovery_failed hash c m input limits clock estimate).0 e in
    let bounded = Produced-IsBounded hash c m input limits clock estimate t limited p in
    lost (input, recovers t p.first (ground (arith, admitted.within_memory)) bounded, refl)

module _ (can_reserve : ℕ → Bool) (hash : Hash) (m : BlockMetadata) (input : Bytes)
    (limits : CompressionLimits) (clock : Readings) (estimate : Bytes → Option ℕ) where
  -- For an input of representable length, an output limit below `u64::MAX`, and an allocator that
  -- can reserve memory for as many slices as that limit says, the evaluation of neither record
  -- compressor, under any metadata, digest, estimator and clock, ends in `RecoveryFailed`.
  pub record_compressors-ne-recovery_failed :
      IsU64 (length input)
      → limits.max_candidate_output_bytes < u64_max
      → ((k : ℕ) → k ≤ limits.max_candidate_output_bytes → can_reserve k ≡ true)
      → ((outcome hash
            (text_repeated_line can_reserve)
            m
            input
            limits
            clock
            estimate).metrics.status
          ≢ recovery_failed)
        × ((outcome hash
              (text_repeated_run can_reserve)
              m
              input
              limits
              clock
              estimate).metrics.status
            ≢ recovery_failed)
  record_compressors-ne-recovery_failed small limited memory = (
    recovering-ne-failed hash (text_repeated_line can_reserve) m input limits clock estimate small
        limited
        (λ t e fits bounded.
          line_recover-line_transform can_reserve input limits e small fits bounded
            (λ k short. memory k (omega (arith, bounded.in_output)))),
    recovering-ne-failed hash (text_repeated_run can_reserve) m input limits clock estimate small
        limited
        (λ t e fits bounded.
          run_recover-run_transform can_reserve input limits e small fits bounded
            (λ k short. memory k (omega (arith, bounded.in_output)))),
  )
