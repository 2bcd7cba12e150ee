-- ===== src/Compression/Text/Run/Repeats.antt =====
-- `TextRepeatedRun`: the repetitions that the inner loop counts are there.
use mathlib.Core.Path.{ap₂}
use tracepress.Base.{
  ℕ, zero, suc, ◌+◌, ◌-◌, ◌<◌, ◌≡◌, refl, sym, ap, ◌∙◌, inl, inr, true, false, List, [], ◌∷◌, ◌++◌,
  append_assoc, arith, Bytes, ltb, Bool-cases, saturating_add, eq_bytes, eq_bytes_iff, length, drop,
  drop-length_append, Result, ◌>>=◌, fail_if, >>=-eq-ok, ok-injective, ok,
}
use tracepress.Compression.Types.{CompressionLimits, TransformError, resource_limit}
use tracepress.Compression.Records.Expand.{repeat_lines}
use tracepress.Compression.Text.{starts_with_lines, count_repetitions}

-- The pattern, `n` times over, stands at the head of these lines.
abbrev pub Repeats : ℕ → List Bytes → List Bytes → Type 0
Repeats n pattern ls = (rest : List Bytes) × (ls ≡ repeat_lines n pattern ++ rest)

starts_with_lines-append :
    (pattern ls : List Bytes)
    → starts_with_lines pattern ls ≡ true
    → (rest : List Bytes) × (ls ≡ pattern ++ rest)
unfolding starts_with_lines
starts_with_lines-append [] ls e = (ls, refl)
starts_with_lines-append (p ∷ ps) [] e = cc
starts_with_lines-append (p ∷ ps) (l ∷ ls) e = elim (Bool-cases (eq_bytes p l)) [
  | inl same ↦
      let (rest, e') = starts_with_lines-append ps ls (rw same at e) in
      (rest, ap₂ ◌∷◌ (sym ((eq_bytes_iff p l).0 same)) e')
  | inr new ↦ let h = rw new at e in cc
]

-- From a place on, the lines begin with the repetitions that were added to `n`.
abbrev pub Counted : ℕ → ℕ → List Bytes → List Bytes → Type 0
Counted n m pattern ls = (k : ℕ) × (m ≡ n + k) × Repeats k pattern ls

count_repetitions_nil :
    (limits : CompressionLimits) (pattern : List Bytes) (skip n work : ℕ)
    → count_repetitions limits pattern skip [] n work ≡ ok (n, work)
unfolding count_repetitions
count_repetitions_nil limits pattern zero n work = refl
count_repetitions_nil limits pattern (suc skip) n work = refl

count_repetitions_skip :
    (limits : CompressionLimits) (pattern : List Bytes) (skip : ℕ) (rest : List Bytes)
    (line : Bytes) (n work : ℕ)
    → count_repetitions limits pattern (suc skip) (line ∷ rest) n work
      ≡ count_repetitions limits pattern skip rest n work
unfolding count_repetitions
count_repetitions_skip limits pattern skip rest line n work = refl

count_repetitions_stop :
    (limits : CompressionLimits) (pattern rest : List Bytes) (line : Bytes) (n work : ℕ)
    → starts_with_lines pattern (line ∷ rest) ≡ false
    → count_repetitions limits pattern 0 (line ∷ rest) n work ≡ ok (n, work)
unfolding count_repetitions
count_repetitions_stop limits pattern rest line n work e = rw (e, count_repetitions)

count_repetitions_more :
    (limits : CompressionLimits) (pattern rest : List Bytes) (line : Bytes) (n work : ℕ)
    → starts_with_lines pattern (line ∷ rest) ≡ true
    → count_repetitions limits pattern 0 (line ∷ rest) n work ≡ (
        fail_if
          (ltb limits.max_shadow_work_units (saturating_add work (length pattern)))
          resource_limit
        >>= λ _.
            count_repetitions limits pattern
              (length pattern - 1)
              rest
              (n + 1)
              (saturating_add work (length pattern)))
unfolding count_repetitions
count_repetitions_more limits pattern rest line n work e = rw (e, count_repetitions)

Counted-same :
    {n work m w : ℕ} (pattern ls : List Bytes)
    → ◌≡◌ {A = Result TransformError (ℕ × ℕ)} (ok (n, work)) (ok (m, w))
    → Counted n m pattern ls
Counted-same pattern ls e = (0, omega (arith, ap (λ (p : ℕ × ℕ). p.0) (ok-injective e)), (ls, refl))

-- Behind a first line, the place where the pattern ends.
pub pass_pattern :
    (pattern rest after : List Bytes) (line : Bytes)
    → 0 < length pattern
    → line ∷ rest ≡ pattern ++ after
    → drop (length pattern - 1) rest ≡ after
pass_pattern [] rest after line h e = absurd (omega arith)
pass_pattern (p ∷ ps) rest after line h e =
    let size : length ps ≡ suc (length ps) - 1 = omega arith in
    rw (← size)
      (ap (λ (ls : List Bytes). drop (suc (length ps)) ls) e ∙ drop-length_append ps after)

pub count_repetitions-Counted :
    (limits : CompressionLimits) (pattern : List Bytes) (skip : ℕ) (ls : List Bytes) (n work : ℕ)
    {m w : ℕ}
    → 0 < length pattern
    → count_repetitions limits pattern skip ls n work ≡ ok (m, w)
    → Counted n m pattern (drop skip ls)
count_repetitions-Counted limits pattern zero [] n work pos e =
    Counted-same pattern [] (sym (count_repetitions_nil limits pattern zero n work) ∙ e)
count_repetitions-Counted limits pattern (suc skip) [] n work pos e =
    Counted-same pattern [] (sym (count_repetitions_nil limits pattern (suc skip) n work) ∙ e)
count_repetitions-Counted limits pattern (suc skip) (line ∷ rest) n work pos e =
    count_repetitions-Counted limits pattern skip rest n work pos
      (sym (count_repetitions_skip limits pattern skip rest line n work) ∙ e)
count_repetitions-Counted limits pattern zero (line ∷ rest) n work pos e =
    elim (Bool-cases (starts_with_lines pattern (line ∷ rest))) [
      | inl more ↦
          let work' = saturating_add work (length pattern) in
          let (_, _, later) =
            >>=-eq-ok (fail_if (ltb limits.max_shadow_work_units work') resource_limit)
              (λ _. count_repetitions limits pattern (length pattern - 1) rest (n + 1) work')
              (rw (count_repetitions_more limits pattern rest line n work more) at e) in
          let (after, here) = starts_with_lines-append pattern (line ∷ rest) more in
          let (k, sum, (rest', there)) =
            count_repetitions-Counted limits pattern (length pattern - 1) rest (n + 1) work' pos
              later in
          (
            suc k,
            omega arith,
            (
              rest',
              here
                  ∙ ap (λ ls. pattern ++ ls)
                      (sym (pass_pattern pattern rest after line pos here) ∙ there)
                  ∙ sym (append_assoc pattern (repeat_lines k pattern) rest'),
            ),
          )
      | inr stop ↦
          Counted-same pattern _
            (rw (count_repetitions_stop limits pattern rest line n work stop) at e)
    ]
