-- ===== src/Compression/Records/Total.antt =====
-- When `encode_records` succeeds: whenever what it writes is within the output limit.
use tracepress.Base.{
  ℕ, ◌+◌, ◌≤◌, ◌≡◌, refl, ap, ◌∙◌, false, List, [], ◌∷◌, ◌++◌, append_assoc, append-nil, arith,
  Bytes, ltb, to_u64, length, length-append, ok,
}
use tracepress.Compression.Types.{CompressionLimits}
use tracepress.Compression.Varint.{write_varint}
use tracepress.Compression.Varint.RoundTrip.{length-groups}
use tracepress.Compression.Records.{
  Record, encode_pattern, encode_header, encode_all, encode_records,
}
use tracepress.Compression.Records.Layout.{
  number, pattern_bytes, records_bytes, write_varint-append,
}

pub length-number_le : (n : ℕ) → length (number n) ≤ 10
unfolding write_varint
length-number_le n = (length-groups 10 (to_u64 n) (omega arith)).1

within_limit : (n limit : ℕ) → n ≤ limit → ltb limit (to_u64 n) ≡ false
within_limit n limit h = ground arith

encode_pattern-ok :
    (limits : CompressionLimits) (output : Bytes) (pattern : List Bytes)
    → length output + length (pattern_bytes pattern) ≤ limits.max_candidate_output_bytes
    → encode_pattern limits output pattern ≡ ok (output ++ pattern_bytes pattern)
unfolding encode_pattern
encode_pattern-ok limits output [] h = rw append-nil refl
encode_pattern-ok limits output (line ∷ rest) h =
    let size = length-append (number (length line)) (line ++ pattern_bytes rest) in
    let size' = length-append line (pattern_bytes rest) in
    let out = write_varint-append output (to_u64 (length line)) in
    let grown = length-append (output ++ number (length line)) line in
    let grown' = length-append output (number (length line)) in
    rw
      (
        out,
        within_limit (length ((output ++ number (length line)) ++ line))
            limits.max_candidate_output_bytes (omega (arith, grown, grown', size, size')),
      )
      (encode_pattern-ok limits ((output ++ number (length line)) ++ line) rest
          (omega (arith, grown, grown', size, size'))
        ∙ ap ok (simp append_assoc))

header_append :
    (output : Bytes) (r : Record)
    → encode_header output r ≡ output ++ (number r.0 ++ number (length r.1))
header_append output (n, pattern) = simp (
  write_varint-append output (to_u64 n),
  write_varint-append (output ++ number n) (to_u64 (length pattern)),
  append_assoc,
)

encode_all-ok :
    (limits : CompressionLimits) (output : Bytes) (records : List Record)
    → length output + length (records_bytes records) ≤ limits.max_candidate_output_bytes
    → encode_all limits output records ≡ ok (output ++ records_bytes records)
unfolding encode_all
encode_all-ok limits output [] h = rw append-nil refl
encode_all-ok limits output ((n, pattern) ∷ rest) h =
    let header = number n ++ number (length pattern) in
    let size =
      length-append (number n)
        (number (length pattern) ++ (pattern_bytes pattern ++ records_bytes rest)) in
    let size1 =
      length-append (number (length pattern)) (pattern_bytes pattern ++ records_bytes rest) in
    let size2 = length-append (pattern_bytes pattern) (records_bytes rest) in
    let grown = length-append output header in
    let grown1 = length-append (number n) (number (length pattern)) in
    let grown2 = length-append (output ++ header) (pattern_bytes pattern) in
    rw
      (
        header_append output (n, pattern),
        encode_pattern-ok limits (output ++ header) pattern
            (omega (arith, size, size1, size2, grown, grown1)),
      )
      (encode_all-ok limits ((output ++ header) ++ pattern_bytes pattern) rest
          (omega (arith, size, size1, size2, grown, grown1, grown2))
        ∙ ap ok (simp append_assoc))

-- The bytes of an encoding.
abbrev pub encoded : Bytes → List Record → Bytes
encoded magic records = magic ++ (number (length records) ++ records_bytes records)

pub encode_records-ok :
    (magic : Bytes) (records : List Record) (limits : CompressionLimits)
    → length (encoded magic records) ≤ limits.max_candidate_output_bytes
    → encode_records magic records limits
      ≡ ok (record { candidate = encoded magic records; recovery = [] })
unfolding encode_records
encode_records-ok magic records limits h =
    let head = number (length records) in
    rw
      (
        write_varint-append magic (to_u64 (length records)),
        encode_all-ok limits (magic ++ head) records (
            omega (
              arith,
              length-append magic head,
              length-append head (records_bytes records),
              length-append magic (head ++ records_bytes records),
            )),
      )
      (ap (λ (c : Bytes). ok (record { candidate = c; recovery = [] }))
        (append_assoc magic head (records_bytes records)))
