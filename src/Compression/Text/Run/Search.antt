-- ===== src/Compression/Text/Run/Search.antt =====
-- `TextRepeatedRun`: the run that the search finds at an index is there.
use tracepress.Base.{
  ℕ, zero, suc, ◌+◌, ◌-◌, ◌*◌, ◌≤◌, ◌<◌, ◌≡◌, refl, sym, ap, ◌∙◌, subst, inl, inr, ◌&&◌, Option,
  none, some, List, ◌∷◌, ◌++◌, append_assoc, arith, Bytes, ltb, leb, if◌then◌else◌, Bool-cases,
  some-injective, saturating_add, length, take, drop, length-append, take-append-drop, length-take,
  get_range, fail_if, >>=-eq-ok, ok-injective, ok,
}
use tracepress.Compression.Types.{CompressionLimits, resource_limit}
use tracepress.Compression.Records.{Record}
use tracepress.Compression.Records.Expand.{repeat_lines}
use tracepress.Compression.Text.{
  count_repetitions, or_internal, improves, Best, search_patterns, choose,
}
use tracepress.Compression.Text.Run.Repeats.{Repeats, pass_pattern, count_repetitions-Counted}

-- What the search remembers about the lines from an index on.
abbrev pub Found : List Bytes → Option Best → Type 0
Found here none = Unit
Found here (some (pattern_len, repetitions, covered)) =
    (pattern : List Bytes) × (get_range here 0 pattern_len ≡ some pattern)
    × (0 < repetitions)
    × (0 < length pattern)
    × (covered ≡ length (repeat_lines repetitions pattern))
    × Repeats repetitions pattern here

length-repeat_lines :
    (n : ℕ) (pattern : List Bytes) → length (repeat_lines n pattern) ≡ length pattern * n
length-repeat_lines zero pattern = omega arith
length-repeat_lines (suc n) pattern =
    omega (arith, length-append pattern (repeat_lines n pattern), length-repeat_lines n pattern)

or_internal-ok {ℓ} : {A : Type ℓ} (o : Option A) {a : A} → or_internal o ≡ ok a → o ≡ some a
or_internal-ok none e = cc
or_internal-ok (some x) e = ap some (ok-injective e)

get_range-some :
    (ls : List Bytes) (n : ℕ) {found : List Bytes}
    → get_range ls 0 n ≡ some found
    → (length found ≡ n) × (ls ≡ found ++ drop n ls)
get_range-some ls n {found} e = elim (Bool-cases (leb 0 n && leb n (length ls))) [
  | inl inside ↦
      let whole : n ≡ n - 0 = omega arith in
      let found_lem : take n ls ≡ found = rw whole (some-injective (rw inside at e)) in
      let fits : n ≤ length ls = ground arith in
      (
        ap length (sym found_lem) ∙ length-take n ls ∙ omega arith,
        sym (take-append-drop n ls) ∙ ap (λ taken. taken ++ drop n ls) found_lem,
      )
  | inr outside ↦ (let h = rw outside at e in cc)
]

-- The pattern at an index and the repetitions counted behind it.
pattern-Repeats :
    (limits : CompressionLimits) (here pattern : List Bytes) (pattern_len work : ℕ) {m w : ℕ}
    → get_range here 0 pattern_len ≡ some pattern
    → 0 < pattern_len
    → count_repetitions limits pattern pattern_len here 1 work ≡ ok (m, w)
    → (0 < m) × Repeats m pattern here
pattern-Repeats limits here pattern pattern_len work {m} there pos e =
    let (size, split) = get_range-some here pattern_len there in
    let (k, sum, (rest, behind)) =
      count_repetitions-Counted limits pattern pattern_len here 1 work (omega arith) e in
    let more : m ≡ suc k = omega arith in
    (
      omega arith,
      rw more (
        rest,
        split
            ∙ ap (λ ls. pattern ++ ls) behind
            ∙ sym (append_assoc pattern (repeat_lines k pattern) rest),
      ),
    )

abbrev update : ℕ → ℕ → Option Best → Option Best
update pattern_len repetitions best =
    let covered = pattern_len * repetitions in
    if ltb 1 repetitions && improves covered best
    then some (pattern_len, repetitions, covered)
    else best

update-Found :
    (here pattern : List Bytes) (pattern_len repetitions : ℕ) (best : Option Best)
    → get_range here 0 pattern_len ≡ some pattern
    → 0 < pattern_len
    → (0 < repetitions) × Repeats repetitions pattern here
    → Found here best
    → Found here (update pattern_len repetitions best)
update-Found here pattern pattern_len repetitions best there pos counted old =
    elim (Bool-cases (ltb 1 repetitions && improves (pattern_len * repetitions) best)) [
      | inl better ↦ rw better (
        pattern,
        there,
        counted.0,
        omega (arith, get_range-some here pattern_len there),
        ap (λ n. n * repetitions) (sym (get_range-some here pattern_len there).0)
            ∙ sym (length-repeat_lines repetitions pattern),
        counted.1,
      )
      | inr worse ↦ rw worse old
    ]

-- Whatever run the search settles on is really there.
pub search_patterns-Found :
    (limits : CompressionLimits) (n pattern_len : ℕ) (here : List Bytes) (work : ℕ)
    (best : Option Best) {best' : Option Best} {w : ℕ}
    → 0 < pattern_len
    → Found here best
    → search_patterns limits n pattern_len here work best ≡ ok (best', w)
    → Found here best'
unfolding search_patterns
search_patterns-Found limits zero pattern_len here work best pos old e =
    subst (Found here) (ap (λ (p : Option Best × ℕ). p.0) (ok-injective e)) old
search_patterns-Found limits (suc n) pattern_len here work best pos old e =
    let work1 = saturating_add work 1 in
    let (_, _, e1) =
      >>=-eq-ok (fail_if (ltb limits.max_shadow_work_units work1) resource_limit) _ e in
    let (pattern, there, e2) = >>=-eq-ok (or_internal (get_range here 0 pattern_len)) _ e1 in
    let ((repetitions, work2), counted, e3) =
      >>=-eq-ok (count_repetitions limits pattern pattern_len here 1 work1) _ e2 in
    let found = or_internal-ok (get_range here 0 pattern_len) there in
    search_patterns-Found limits n (pattern_len + 1) here work2
      (update pattern_len repetitions best) (omega arith)
      (update-Found here pattern pattern_len repetitions best found pos
        (pattern-Repeats limits here pattern pattern_len work1 found pos counted) old)
      e3

-- What a record covers at the head of these lines.
abbrev pub Covers : Record → ℕ → List Bytes → List Bytes → Type 0
Covers (repetitions, pattern) covered here rest =
    (0 < repetitions)
    × (repetitions ≤ length here)
    × (here ≡ repeat_lines repetitions pattern ++ drop (covered - 1) rest)

le-length-repeat_lines :
    (n : ℕ) (pattern : List Bytes) → 0 < length pattern → n ≤ length (repeat_lines n pattern)
le-length-repeat_lines zero pattern pos = omega arith
le-length-repeat_lines (suc n) pattern pos =
    omega
      (arith, length-append pattern (repeat_lines n pattern), le-length-repeat_lines n pattern pos)

pub choose-Covers :
    (line : Bytes) (rest : List Bytes) (best : Option Best) {r : Record} {covered : ℕ}
    → Found (line ∷ rest) best
    → choose (line ∷ rest) line best ≡ ok (r, covered)
    → Covers r covered (line ∷ rest) rest
choose-Covers line rest none found e =
    subst (λ (p : Record × ℕ). Covers p.0 p.1 (line ∷ rest) rest) (ok-injective e)
      (omega arith, omega arith, refl)
choose-Covers line rest (some (pattern_len, repetitions, covered))
      (pattern, there, pos, pos', size, (after, here)) e =
    subst (λ (p : Record × ℕ). Covers p.0 p.1 (line ∷ rest) rest) (ok-injective (rw there at e))
      (
        pos,
        omega (arith, whole, many),
        here
            ∙ ap (λ ls. run ++ ls)
                (sym (rw size (pass_pattern run rest after line (omega (arith, many)) here))),
      )
  where
    run : List Bytes
    run = repeat_lines repetitions pattern

    whole : suc (length rest) ≡ length run + length after
    whole = ap length here ∙ length-append run after

    many : repetitions ≤ length run
    many = le-length-repeat_lines repetitions pattern pos'
