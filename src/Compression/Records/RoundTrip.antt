-- ===== src/Compression/Records/RoundTrip.antt =====
-- What `encode_records` writes, `decode_records` expands.
use tracepress.Base.{
  ℕ, zero, suc, ◌+◌, ◌≤◌, ◌<◌, ◌≡◌, refl, sym, ap, ◌∙◌, Bool, true, false, some, List, [], ◌∷◌,
  ◌++◌, append_assoc, append-nil, arith, Bytes, ltb, le→ltb, ==_iff, IsU64, to_u64, eq_bytes_refl,
  length, All, length-append, get_range, get_range-append, get_range-prefix, ok,
}
use tracepress.Compression.Types.{CompressionLimits, Transform, validate_recovery_inputs}
use tracepress.Compression.Records.{
  is_magic, has_magic, Record, encode_records, read_pattern, decode_all, decode_records,
}
use tracepress.Compression.Records.Layout.{
  number, pattern_bytes, records_bytes, length-number, read_number, encode_records-bytes,
  to_u64_small,
}
use tracepress.Compression.Records.Expand.{
  concat, repeat_lines, expand, Room, concat-append, emit_repeated-concat,
}

-- Behind `before`, which ends where `piece` begins, the cursor stands behind `piece`.
move : (before piece rest : Bytes) → before ++ (piece ++ rest) ≡ (before ++ piece) ++ rest
move before piece rest = sym (append_assoc before piece rest)

read_pattern-bytes :
    (pattern : List Bytes) (input before post : Bytes)
    → input ≡ before ++ (pattern_bytes pattern ++ post)
    → IsU64 (length input)
    → read_pattern (length pattern) input (length before)
      ≡ ok (length (before ++ pattern_bytes pattern), pattern)
unfolding read_pattern
read_pattern-bytes [] input before post e room = rw append-nil
read_pattern-bytes (line ∷ rest) input before post e room =
    let head = before ++ number (length line) in
    let tail = pattern_bytes rest ++ post in
    let e1 : input ≡ before ++ (number (length line) ++ (line ++ tail)) = e ∙ simp append_assoc in
    let e2 : input ≡ head ++ (line ++ tail) =
      e1 ∙ move before (number (length line)) (line ++ tail) in
    let e3 : input ≡ (head ++ line) ++ tail = e2 ∙ move head line tail in
    let sizes = ap length e2 ∙ length-append head (line ++ tail) in
    let sizes' = length-append line tail in
    let fits : IsU64 (length head + length line) = omega (arith, sizes, sizes') in
    let there : get_range input (length head) (length head + length line) ≡ some line =
      rw e2 (get_range-append head line tail) in
    let small : IsU64 (length line) = omega (arith, sizes, sizes') in
    rw (read_number input before (line ++ tail) (length line) e1 room small) (
      rw (le→ltb _ _ fits, there, ← length-append head line)
        (rw (read_pattern-bytes rest input (head ++ line) post e3 room) (simp append_assoc)))

length-le-pattern_bytes : (pattern : List Bytes) → length pattern ≤ length (pattern_bytes pattern)
length-le-pattern_bytes [] = omega arith
length-le-pattern_bytes (line ∷ rest) = omega (
  arith,
  length-number (length line),
  length-le-pattern_bytes rest,
  length-append (number (length line)) (line ++ pattern_bytes rest),
  length-append line (pattern_bytes rest),
)

length-le-records_bytes : (records : List Record) → length records ≤ length (records_bytes records)
length-le-records_bytes [] = omega arith
length-le-records_bytes ((n, pattern) ∷ rest) =
    let tail = pattern_bytes pattern ++ records_bytes rest in
    omega (
      arith,
      length-number n,
      length-le-records_bytes rest,
      length-append (number n) (number (length pattern) ++ tail),
      length-append (number (length pattern)) tail,
      length-append (pattern_bytes pattern) (records_bytes rest),
    )

length-le-repeat_lines :
    (n : ℕ) (pattern : List Bytes) → 0 < n → length pattern ≤ length (repeat_lines n pattern)
length-le-repeat_lines zero pattern h = absurd (omega arith)
length-le-repeat_lines (suc n) pattern h =
    omega (arith, length-append pattern (repeat_lines n pattern))

-- What one record must satisfy to be decoded.
abbrev pub IsRecord : Record → Type 0
IsRecord (n, pattern) = (0 < n) × IsU64 n

abbrev record_bytes : Record → Bytes
record_bytes (n, pattern) = number n ++ (number (length pattern) ++ pattern_bytes pattern)

-- One round of the loop over the records.
decode_all-step :
    (can_reserve : ℕ → Bool) (limits : CompressionLimits) (k n : ℕ) (pattern : List Bytes)
    (input before post output : Bytes) (work : ℕ)
    → input ≡ before ++ (record_bytes (n, pattern) ++ post)
    → IsU64 (length input)
    → ((k : ℕ) → k ≤ length input → can_reserve k ≡ true)
    → IsRecord (n, pattern)
    → Room limits
        (length output + length (concat (repeat_lines n pattern)))
        (work + length (repeat_lines n pattern))
    → decode_all can_reserve limits (suc k) input (length before) output work
      ≡ decode_all can_reserve limits k input
          (length (before ++ record_bytes (n, pattern)))
          (output ++ concat (repeat_lines n pattern))
          (work + length (repeat_lines n pattern))
unfolding decode_all
decode_all-step can_reserve limits k n pattern input before post output work e room memory
      (pos, small) fits =
    let tail = pattern_bytes pattern ++ post in
    let head1 = before ++ number n in
    let head2 = head1 ++ number (length pattern) in
    let e1 : input ≡ before ++ (number n ++ (number (length pattern) ++ tail)) =
      e ∙ simp append_assoc in
    let e2 : input ≡ head1 ++ (number (length pattern) ++ tail) = e1 ∙ move before (number n) _ in
    let e3 : input ≡ head2 ++ tail = e2 ∙ move head1 (number (length pattern)) tail in
    let size = ap length e3 ∙ length-append head2 tail in
    let size' = length-append (pattern_bytes pattern) post in
    let short : length pattern ≤ length input =
      omega (arith, size, size', length-le-pattern_bytes pattern) in
    let light : ltb limits.max_shadow_work_units (to_u64 (length pattern)) ≡ false =
      rw (to_u64_small (length pattern) (omega arith))
        (le→ltb _ _ (omega (arith, length-le-repeat_lines n pattern pos))) in
    rw
      (
        read_number input before _ n e1 room small,
        read_number input head1 _ (length pattern) e2 room (omega arith),
        le→ltb _ _ short,
        light,
        memory (length pattern) short,
        read_pattern-bytes pattern input head2 post e3 room,
        emit_repeated-concat limits n pattern output work fits,
      )
      (simp append_assoc)

decode_all-bytes :
    (can_reserve : ℕ → Bool) (limits : CompressionLimits) (records : List Record)
    (input before post output : Bytes) (work : ℕ)
    → input ≡ before ++ (records_bytes records ++ post)
    → IsU64 (length input)
    → ((k : ℕ) → k ≤ length input → can_reserve k ≡ true)
    → All IsRecord records
    → Room limits
        (length output + length (concat (expand records)))
        (work + length (expand records))
    → decode_all can_reserve limits (length records) input (length before) output work
      ≡ ok (length (before ++ records_bytes records), output ++ concat (expand records))
decode_all-bytes can_reserve limits [] input before post output work e room memory _ fits =
    simp append-nil (unfold decode_all in refl)
decode_all-bytes can_reserve limits ((n, pattern) ∷ rest) input before post output work e room
      memory (valid, valid') fits =
    let tail = records_bytes rest ++ post in
    let bytes = record_bytes (n, pattern) in
    let lines = repeat_lines n pattern in
    let e1 : input ≡ before ++ (bytes ++ tail) = e ∙ simp append_assoc in
    let split =
      ap length (concat-append lines (expand rest))
      ∙ length-append (concat lines) (concat (expand rest)) in
    let count = length-append lines (expand rest) in
    let once : Room limits (length output + length (concat lines)) (work + length lines) =
      omega (arith, split, count) in
    let later : Room limits (length (output ++ concat lines) + length (concat (expand rest)))
        (work + length lines + length (expand rest)) =
      omega (arith, split, count, length-append output (concat lines)) in
    decode_all-step can_reserve limits (length rest) n pattern input before tail output work e1 room
      memory valid once
    ∙ decode_all-bytes can_reserve limits rest input (before ++ bytes) post (output ++ concat lines)
        (work + length lines) (e1 ∙ move before bytes tail) room memory valid' later
    ∙ rw (concat-append lines (expand rest)) (simp append_assoc)

validate_recovery_inputs-ok :
    (candidate : Bytes) (limits : CompressionLimits)
    → IsU64 (length candidate)
    → length candidate ≤ limits.max_candidate_output_bytes
    → length candidate ≤ limits.max_shadow_memory_bytes
    → validate_recovery_inputs candidate [] limits ≡ ok tt
unfolding validate_recovery_inputs
validate_recovery_inputs-ok candidate limits small out mem = ground arith

has_magic-append : (input magic rest : Bytes) → input ≡ magic ++ rest → has_magic input magic ≡ true
has_magic-append input magic rest e =
    rw e (ap (is_magic magic) (get_range-prefix magic rest) ∙ eq_bytes_refl magic)

-- For any magic and any records whose counts are positive 64-bit numbers: when `encode_records`
-- succeeds, its recovery is empty, and if its candidate is within the limits of a recovery and the
-- expanded lines are within the memory and work limits, and memory for as many slices as the
-- candidate has bytes can be reserved, `decode_records` gives those lines.
pub decode_records-encode_records :
    (can_reserve : ℕ → Bool) (magic : Bytes) (records : List Record) (limits : CompressionLimits)
    {t : Transform}
    → encode_records magic records limits ≡ ok t
    → All IsRecord records
    → IsU64 (length t.candidate)
    → length t.candidate ≤ limits.max_candidate_output_bytes
    → length t.candidate ≤ limits.max_shadow_memory_bytes
    → Room limits (length (concat (expand records))) (length (expand records))
    → ((k : ℕ) → k ≤ length t.candidate → can_reserve k ≡ true)
    → (t.recovery ≡ [])
      × (decode_records can_reserve t.candidate magic limits ≡ ok (concat (expand records)))
unfolding decode_records
decode_records-encode_records can_reserve magic records limits {t} e valid small out mem fits
      memory =
    let (bytes, none_left) = encode_records-bytes magic records limits e in
    let body = number (length records) ++ records_bytes records in
    let input = t.candidate in
    let size = ap length bytes ∙ length-append magic body in
    let size' = length-append (number (length records)) (records_bytes records) in
    let few : IsU64 (length records) =
      omega (arith, size, size', length-le-records_bytes records) in
    let fits' : Room limits (0 + length (concat (expand records))) (0 + length (expand records)) =
      omega arith in
    let behind : input ≡ (magic ++ number (length records)) ++ (records_bytes records ++ []) =
      bytes ∙ simp (append_assoc, append-nil) in
    let whole : length ((magic ++ number (length records)) ++ records_bytes records)
        ≡ length input =
      ap length
        (append_assoc magic (number (length records)) (records_bytes records) ∙ sym bytes) in
    let decoded =
      decode_all-bytes can_reserve limits records input (magic ++ number (length records)) [] [] 0
        behind small memory valid fits' in
    (
      none_left,
      rw
          (
            validate_recovery_inputs-ok input limits small out mem,
            has_magic-append input magic body bytes,
            read_number input magic (records_bytes records) (length records) bytes small few,
            decoded,
          )
          (rw ((==_iff _ _).1 whole)),
    )
