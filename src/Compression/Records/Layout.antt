-- ===== src/Compression/Records/Layout.antt =====
-- What `encode_records` writes, with no accumulator, and reading at a place inside the bytes.
use tracepress.Base.{
  ℕ, ◌≤◌, ◌≡◌, refl, sym, ap, ◌∙◌, List, [], ◌∷◌, ◌++◌, append_assoc, append-nil, arith, Bytes, ltb,
  IsU64, to_u64, length, length-append, fail_if, >>=-eq-ok, ok-injective, ok,
}
use tracepress.Compression.Types.{CompressionLimits, resource_limit, Transform}
use tracepress.Compression.Varint.{write_varint, read_usize}
use tracepress.Compression.Varint.RoundTrip.{length-groups, read_usize-write_varint}
use tracepress.Compression.Records.{Record, encode_pattern, encode_all, encode_records}

-- `write_varint` of a length, on nothing.
abbrev pub number : ℕ → Bytes
number n = write_varint [] (to_u64 n)

abbrev pub pattern_bytes : List Bytes → Bytes
pattern_bytes [] = []
pattern_bytes (line ∷ rest) = number (length line) ++ (line ++ pattern_bytes rest)

abbrev pub records_bytes : List Record → Bytes
records_bytes [] = []
records_bytes ((repetitions, pattern) ∷ rest) =
    number repetitions ++ (number (length pattern) ++ (pattern_bytes pattern ++ records_bytes rest))

pub write_varint-append :
    (output : Bytes) (n : ℕ) → write_varint output n ≡ output ++ write_varint [] n
unfolding write_varint
write_varint-append output n = refl

pub length-number : (n : ℕ) → 1 ≤ length (number n)
unfolding write_varint
length-number n = (length-groups 10 (to_u64 n) (omega arith)).0

encode_pattern-bytes :
    (limits : CompressionLimits) (output : Bytes) (pattern : List Bytes) {o : Bytes}
    → encode_pattern limits output pattern ≡ ok o
    → o ≡ output ++ pattern_bytes pattern
unfolding encode_pattern
encode_pattern-bytes limits output [] e = rw append-nil (sym (ok-injective e))
encode_pattern-bytes limits output (line ∷ rest) e =
    let output' = write_varint output (to_u64 (length line)) ++ line in
    let (_, _, e') =
      >>=-eq-ok
        (fail_if (ltb limits.max_candidate_output_bytes (to_u64 (length output'))) resource_limit)
        (λ _. encode_pattern limits output' rest) e in
    encode_pattern-bytes limits output' rest e'
    ∙ simp (write_varint-append output (to_u64 (length line)), append_assoc)

encode_all-bytes :
    (limits : CompressionLimits) (output : Bytes) (records : List Record) {o : Bytes}
    → encode_all limits output records ≡ ok o
    → o ≡ output ++ records_bytes records
unfolding encode_all
encode_all-bytes limits output [] e = rw append-nil (sym (ok-injective e))
encode_all-bytes limits output ((r, pattern) ∷ rest) e =
    let header = write_varint (write_varint output (to_u64 r)) (to_u64 (length pattern)) in
    let (o1, e1, e2) =
      >>=-eq-ok (encode_pattern limits header pattern) (λ o. encode_all limits o rest) e in
    encode_all-bytes limits o1 rest e2
    ∙ rw (encode_pattern-bytes limits header pattern e1) (
        simp (
          write_varint-append output (to_u64 r),
          write_varint-append (output ++ number r) (to_u64 (length pattern)),
          append_assoc,
        ))

pub encode_records-bytes :
    (magic : Bytes) (records : List Record) (limits : CompressionLimits) {t : Transform}
    → encode_records magic records limits ≡ ok t
    → (t.candidate ≡ magic ++ (number (length records) ++ records_bytes records))
      × (t.recovery ≡ [])
unfolding encode_records
encode_records-bytes magic records limits e =
    let start = write_varint magic (to_u64 (length records)) in
    let (o, e1, e2) =
      >>=-eq-ok (encode_all limits start records)
        (λ o. ok (record { candidate = o; recovery = [] })) e in
    let same = ok-injective e2 in
    (
      sym (ap (λ (t : Transform). t.candidate) same)
          ∙ encode_all-bytes limits start records e1
          ∙ rw (write_varint-append magic (to_u64 (length records)), append_assoc),
      sym (ap (λ (t : Transform). t.recovery) same),
    )

pub to_u64_small : (n : ℕ) → IsU64 n → to_u64 n ≡ n
to_u64_small n h = ground arith

-- A number that stands behind `before` is read back.
pub read_number :
    (input before post : Bytes) (n : ℕ)
    → input ≡ before ++ (number n ++ post)
    → IsU64 (length input)
    → IsU64 n
    → read_usize input (length before) ≡ ok (n, length (before ++ number n))
read_number input before post n e room small =
    let w : write_varint before n ≡ before ++ number n =
      write_varint-append before n
      ∙ ap (λ k. before ++ write_varint [] k) (sym (to_u64_small n small)) in
    let i : input ≡ write_varint before n ++ post =
      e ∙ sym (append_assoc before (number n) post) ∙ ap (λ b. b ++ post) (sym w) in
    rw (i, ← w)
      (read_usize-write_varint before post n small
        (omega (arith, length-append (write_varint before n) post, ap length i)))
