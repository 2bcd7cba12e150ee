-- ===== src/Compression/Records/Expand.antt =====
-- The two loops that write the decoded lines.
use tracepress.Base.{
  ℕ, zero, suc, ◌+◌, ◌≤◌, ◌≡◌, refl, ap, ◌∙◌, List, [], ◌∷◌, ◌++◌, append_assoc, append-nil, arith,
  Bytes, IsU64, length, length-append, ok,
}
use tracepress.Compression.Types.{CompressionLimits}
use tracepress.Compression.Records.{Record, emit_pattern, emit_repeated}

-- The bytes of some lines.
abbrev pub concat : List Bytes → Bytes
concat [] = []
concat (line ∷ rest) = line ++ concat rest

abbrev pub repeat_lines : ℕ → List Bytes → List Bytes
repeat_lines zero pattern = []
repeat_lines (suc n) pattern = pattern ++ repeat_lines n pattern

-- The lines that some records stand for.
abbrev pub expand : List Record → List Bytes
expand [] = []
expand ((n, pattern) ∷ rest) = repeat_lines n pattern ++ expand rest

-- So many bytes and so many lines are within the limits.
pub record Room (limits : CompressionLimits) (size work : ℕ) : Type 0 where
  pub size_fits : size ≤ limits.max_shadow_memory_bytes
  pub work_fits : work ≤ limits.max_shadow_work_units
  pub size_u64 : IsU64 size
  pub work_u64 : IsU64 work

pub concat-append : (xs ys : List Bytes) → concat (xs ++ ys) ≡ concat xs ++ concat ys
concat-append [] ys = refl
concat-append (x ∷ xs) ys = simp (concat-append xs ys, append_assoc)

pub emit_pattern-concat :
    (limits : CompressionLimits) (pattern : List Bytes) (output : Bytes) (work : ℕ)
    → Room limits (length output + length (concat pattern)) (work + length pattern)
    → emit_pattern limits pattern output work ≡ ok (output ++ concat pattern, work + length pattern)
unfolding emit_pattern
emit_pattern-concat limits [] output work room = ground (arith, append-nil output)
emit_pattern-concat limits (line ∷ rest) output work room = ground (
  arith,
  length-append line (concat rest),
  length-append output line,
  append_assoc output line (concat rest),
  emit_pattern-concat limits rest (output ++ line) (work + 1),
)

pub emit_repeated-concat :
    (limits : CompressionLimits) (n : ℕ) (pattern : List Bytes) (output : Bytes) (work : ℕ)
    → Room limits
        (length output + length (concat (repeat_lines n pattern)))
        (work + length (repeat_lines n pattern))
    → emit_repeated limits n pattern output work
      ≡ ok (output ++ concat (repeat_lines n pattern), work + length (repeat_lines n pattern))
unfolding emit_repeated
emit_repeated-concat limits zero pattern output work room = ground (arith, append-nil output)
emit_repeated-concat limits (suc n) pattern output work room =
    let rest = repeat_lines n pattern in
    let bytes = concat-append pattern rest in
    let size = ap length bytes ∙ length-append (concat pattern) (concat rest) in
    let lines = length-append pattern rest in
    let once : Room limits (length output + length (concat pattern)) (work + length pattern) =
      omega (arith, size, lines) in
    let later : Room limits (length (output ++ concat pattern) + length (concat rest))
        (work + length pattern + length rest) =
      omega (arith, size, lines, length-append output (concat pattern)) in
    rw (emit_pattern-concat limits pattern output work once) (
      emit_repeated-concat limits n pattern (output ++ concat pattern) (work + length pattern) later
      ∙ rw (bytes, lines, append_assoc)
          (ap (λ w. ok (output ++ (concat pattern ++ concat rest), w)) (omega arith)))
