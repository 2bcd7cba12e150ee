-- ===== src/Compression/Text/Run/RoundTrip.antt =====
-- `TextRepeatedRun`: what is folded can be recovered.
use tracepress.Base.{
  ℕ, zero, suc, ◌-◌, ◌≤◌, ◌≡◌, refl, sym, ap, ◌∙◌, Bool, true, none, List, [], ◌∷◌, arith, Bytes,
  IsU64, length, All, drop, >>=-eq-ok, ok-injective, ok,
}
use tracepress.Compression.Types.{CompressionLimits, Transform}
use tracepress.Compression.Records.{Record}
use tracepress.Compression.Records.Expand.{concat, expand, Room}
use tracepress.Compression.Records.RoundTrip.{IsRecord, decode_records-encode_records}
use tracepress.Compression.Text.{
  lines, validate_text, run_magic, search_patterns, choose, pattern_lengths, run_records,
  run_transform, run_recover,
}
use tracepress.Compression.Text.Lines.{concat-lines, length-lines}
use tracepress.Compression.Text.Line.{validate_text-ok, IsBounded}
use tracepress.Compression.Text.Run.Search.{search_patterns-Found, choose-Covers}

-- The records stand for the lines that are not skipped, and can be decoded.
run_records-expand :
    (limits : CompressionLimits) (skip : ℕ) (ls : List Bytes) (work : ℕ) {records : List Record}
    → IsU64 (length ls)
    → run_records limits skip ls work ≡ ok records
    → (expand records ≡ drop skip ls) × All IsRecord records
unfolding run_records
run_records-expand limits zero [] work small e = rw (← ok-injective e) (refl, tt)
run_records-expand limits (suc skip) [] work small e = rw (← ok-injective e) (refl, tt)
run_records-expand limits (suc skip) (line ∷ rest) work small e =
    run_records-expand limits skip rest work (omega arith) e
run_records-expand limits zero (line ∷ rest) work small e =
    let here = line ∷ rest in
    let ((best, work'), searched, e1) =
      >>=-eq-ok (search_patterns limits (pattern_lengths (length here)) 2 here work none) _ e in
    let ((chosen, covered), chose, e2) = >>=-eq-ok (choose here line best) _ e1 in
    let (later, walked, e3) = >>=-eq-ok (run_records limits (covered - 1) rest work') _ e2 in
    let found =
      search_patterns-Found limits (pattern_lengths (length here)) 2 here work none (omega arith) tt
        searched in
    let (pos, few, covers) = choose-Covers line rest best found chose in
    let (expanded, valid) =
      run_records-expand limits (covered - 1) rest work' (omega arith) walked in
    rw (← ok-injective e3) (rw expanded (sym covers), ((pos, omega arith), valid))

-- When `TextRepeatedRun` folds a text of representable length that fits the memory limit into a
-- candidate within the limits, and memory for as many slices as the candidate has bytes can be
-- reserved, recovering from that candidate and its recovery bytes gives the text back, byte for byte.
pub run_recover-run_transform :
    (can_reserve : ℕ → Bool) (input : Bytes) (limits : CompressionLimits) {t : Transform}
    → run_transform input limits ≡ ok t
    → IsU64 (length input)
    → length input ≤ limits.max_shadow_memory_bytes
    → IsBounded limits t.candidate
    → ((k : ℕ) → k ≤ length t.candidate → can_reserve k ≡ true)
    → run_recover can_reserve t.candidate t.recovery limits ≡ ok input
unfolding run_transform run_recover
run_recover-run_transform can_reserve input limits {t} e small fits bounded memory =
    let (_, valid, e1) = >>=-eq-ok (validate_text input limits) _ e in
    let (records, folded, encoded) = >>=-eq-ok (run_records limits 0 (lines input) 0) _ e1 in
    let (same, decodable) =
      run_records-expand limits 0 (lines input) 0 (omega (arith, length-lines input)) folded in
    let bytes = ap concat same ∙ concat-lines input in
    let room : Room limits (length (concat (expand records))) (length (expand records)) =
      rw (bytes, same)
        (omega (arith, length-lines input, validate_text-ok input limits valid small)) in
    let back =
      decode_records-encode_records can_reserve run_magic records limits encoded decodable
        bounded.in_u64 bounded.in_output bounded.in_memory room memory in
    back.1 ∙ ap ok bytes
