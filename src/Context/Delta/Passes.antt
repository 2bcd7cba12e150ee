-- ===== src/Context/Delta/Passes.antt =====
-- The loops over the earlier blocks: they consume one block for each exact match.
use tracepress.Base.{
  ℕ, suc, ◌+◌, ◌≤◌, ◌<◌, ◌≡◌, refl, inl, inr, Bool, true, false, Option, none, some, List, [], ◌∷◌,
  arith, ◌==◌, if◌then◌else◌, ==_iff, Bool-cases, IsU64, length,
}
use tracepress.Context.Types.{ContextBlockSummary}
use tracepress.Context.Counts.{
  increment, remove_one, CountsOf, no_counts, eq_identity, Identity, identity,
}
use tracepress.Context.Delta.{
  count_semantic, consume_preferred, consume_remaining, count_unmatched,
  unmatched_previous_semantics,
}
use tracepress.Context.Delta.Represents.{
  Represents, count, count_none, ==-Decides, eq_identity-Decides, Represents-increment_entry,
  Represents-remove_one, length-remove, remove, count-remove,
}
use tracepress.Context.Delta.Walks.{digests, exacts, length-exacts}

-- The digests of the blocks that are not consumed.
abbrev pub unmarked : List ContextBlockSummary → List Bool → List ℕ
unmarked (b ∷ bs) (true ∷ flags) = unmarked bs flags
unmarked (b ∷ bs) (false ∷ flags) = b.exact_fingerprint ∷ unmarked bs flags
unmarked _ _ = []

length-unmarked :
    (bs : List ContextBlockSummary) (flags : List Bool) → length (unmarked bs flags) ≤ length bs
length-unmarked (b ∷ bs) (true ∷ flags) = omega (arith, length-unmarked bs flags)
length-unmarked (b ∷ bs) (false ∷ flags) = omega (arith, length-unmarked bs flags)
length-unmarked [] flags = omega arith
length-unmarked (b ∷ bs) [] = omega arith

-- Removing an identity removes one of its digest.
count-exacts-remove :
    (k : ℕ) (i : Identity) (is : List Identity)
    → 0 < count eq_identity i is
    → (if k == i.0 then 1 else 0) + count ◌==◌ k (exacts (remove eq_identity i is))
      ≡ count ◌==◌ k (exacts is)
count-exacts-remove k i [] h = absurd (omega arith)
count-exacts-remove k i (x ∷ is) h = elim (Bool-cases (eq_identity i x)) [
  | inl same ↦ rw (same, (eq_identity-Decides i x).0 same) (ground arith)
  | inr other ↦ let ih = count-exacts-remove k i is (rw other at h) in rw other (ground (arith, ih))
]

-- What the first pass leaves to consume: some of the identities, and for every digest as many
-- blocks less as it consumed.
record Pass (taken : List Identity) (bs : List ContextBlockSummary) (flags : List Bool)
    (left : CountsOf ℕ) : Type 0 where
  rest : List Identity
  stands : Represents ◌==◌ left (exacts rest)
  balance :
      (k : ℕ)
      → count ◌==◌ k (exacts rest) + count ◌==◌ k (digests bs)
        ≡ count ◌==◌ k (exacts taken) + count ◌==◌ k (unmarked bs flags)
  size : length rest + length bs ≡ length taken + length (unmarked bs flags)

enough_gone :
    (k d : ℕ) (xs ys : List ℕ)
    → count ◌==◌ d xs ≡ 0
    → count ◌==◌ k xs ≤ count ◌==◌ k (d ∷ ys)
    → count ◌==◌ k xs ≤ count ◌==◌ k ys
enough_gone k d xs ys none_left h = elim (Bool-cases (k == d)) [
  | inl same ↦ rw ((==_iff k d).0 same) (omega (arith, none_left))
  | inr other ↦ rw other at h
]

consume_remaining-unmarked :
    (exact : CountsOf ℕ) (bs : List ContextBlockSummary) (flags : List Bool) (xs : List ℕ)
    → Represents ◌==◌ exact xs
    → ((k : ℕ) → count ◌==◌ k xs ≤ count ◌==◌ k (unmarked bs flags))
    → length (unmarked bs (consume_remaining exact bs flags)) + length xs
      ≡ length (unmarked bs flags)
unfolding consume_remaining
consume_remaining-unmarked exact [] flags xs stands enough =
    omega (arith, count_none ◌==◌ ==-Decides xs (λ k. omega (arith, enough k)))
consume_remaining-unmarked exact (b ∷ bs) [] xs stands enough =
    omega (arith, count_none ◌==◌ ==-Decides xs (λ k. omega (arith, enough k)))
consume_remaining-unmarked exact (b ∷ bs) (true ∷ flags) xs stands enough =
    consume_remaining-unmarked exact bs flags xs stands enough
consume_remaining-unmarked exact (b ∷ bs) (false ∷ flags) xs stands enough =
    elim (Bool-cases (exact b.exact_fingerprint == 0)) [
      | inl gone ↦ rw gone (
          omega (
            arith,
            consume_remaining-unmarked exact bs flags xs stands (λ k.
                enough_gone k b.exact_fingerprint xs (unmarked bs flags)
                  (ground (arith, stands b.exact_fingerprint)) (enough k)),
          ))
      | inr there ↦
          let d = b.exact_fingerprint in
          let some_left : 0 < count ◌==◌ d xs = ground (arith, stands d) in
          rw there (
            omega (
              arith,
              length-remove ◌==◌ d xs some_left,
              consume_remaining-unmarked (remove_one ◌==◌ exact d) bs flags (remove ◌==◌ d xs)
                  (Represents-remove_one ◌==◌ ==-Decides exact xs d stands some_left)
                  (λ k. ground (arith, enough k, count-remove ◌==◌ ==-Decides k d xs some_left)),
            ))
    ]

consume_preferred-Pass :
    (preferred : CountsOf Identity) (exact : CountsOf ℕ) (taken : List Identity)
    (bs : List ContextBlockSummary)
    → Represents eq_identity preferred taken
    → Represents ◌==◌ exact (exacts taken)
    → Pass taken bs
        (consume_preferred preferred exact bs).0
        (consume_preferred preferred exact bs).1
unfolding consume_preferred
consume_preferred-Pass preferred exact taken [] p e = record {
  rest = taken;
  stands = e;
  balance = λ k. refl;
  size = refl;
}
consume_preferred-Pass preferred exact taken (b ∷ bs) p e =
    elim (Bool-cases (preferred (identity b) == 0)) [
      | inl gone ↦
          let ih = consume_preferred-Pass preferred exact taken bs p e in
          rw gone (record {
            rest = ih.rest;
            stands = ih.stands;
            balance = λ k. ground (arith, ih.balance k);
            size = omega (arith, ih.size);
          })
      | inr there ↦
          let i = identity b in
          let found : 0 < count eq_identity i taken = ground (arith, p i) in
          let d = b.exact_fingerprint in
          let one = λ (k : ℕ). count-exacts-remove k i taken found in
          let held : (exact d == 0) ≡ false = ground (arith, e d, one d) in
          let ih =
            consume_preferred-Pass (remove_one eq_identity preferred i) (remove_one ◌==◌ exact d)
              (remove eq_identity i taken) bs
              (Represents-remove_one eq_identity eq_identity-Decides preferred taken i p found)
              (λ k. ground (arith, e k, one k)) in
          rw (there, held)
            (record {
              rest = ih.rest;
              stands = ih.stands;
              balance = λ k. ground (arith, ih.balance k, one k);
              size = omega (arith, ih.size, length-remove eq_identity i taken found);
            })
    ]

-- The third loop counts the blocks that are not consumed; the semantics it collects stand for no
-- more blocks than those.
abbrev IsCounted : List ℕ → ℕ → CountsOf ℕ × ℕ → Type 0
IsCounted marks before (semantics, remaining) =
    (remaining ≡ before + length marks)
    × ((xs : List ℕ) × Represents ◌==◌ semantics xs × (length xs ≤ remaining))

count_semantic-Represents :
    (semantics : CountsOf ℕ) (o : Option ℕ) (xs : List ℕ)
    → Represents ◌==◌ semantics xs
    → IsU64 (suc (length xs))
    → (ys : List ℕ) × Represents ◌==◌ (count_semantic semantics o) ys
      × (length ys ≤ suc (length xs))
count_semantic-Represents semantics none xs stands small = (xs, stands, omega arith)
count_semantic-Represents semantics (some k) xs stands small =
    (k ∷ xs, Represents-increment_entry ◌==◌ semantics xs k stands small, omega arith)

count_unmatched-IsCounted :
    (semantics : CountsOf ℕ) (remaining : ℕ) (bs : List ContextBlockSummary) (flags : List Bool)
    (xs : List ℕ)
    → Represents ◌==◌ semantics xs
    → length xs ≤ remaining
    → IsU64 (remaining + length bs)
    → IsCounted (unmarked bs flags) remaining (count_unmatched semantics remaining bs flags)
unfolding count_unmatched
count_unmatched-IsCounted semantics remaining [] flags xs stands few small =
    (omega arith, (xs, stands, few))
count_unmatched-IsCounted semantics remaining (b ∷ bs) [] xs stands few small =
    (omega arith, (xs, stands, few))
count_unmatched-IsCounted semantics remaining (b ∷ bs) (true ∷ flags) xs stands few small =
    count_unmatched-IsCounted semantics remaining bs flags xs stands few (omega arith)
count_unmatched-IsCounted semantics remaining (b ∷ bs) (false ∷ flags) xs stands few small =
    let (ys, stands', few') =
      count_semantic-Represents semantics b.semantic_fingerprint xs stands (omega arith) in
    let up : increment remaining ≡ suc remaining = ground arith in
    let (total, rest) =
      count_unmatched-IsCounted (count_semantic semantics b.semantic_fingerprint)
        (increment remaining) bs flags ys stands' (omega (arith, up)) (omega (arith, up)) in
    (omega (arith, total, up), rest)

-- The earlier blocks as a whole, for as many exact matches as were consumed from them: those that
-- remain are the others.
pub unmatched-Remaining :
    (previous : List ContextBlockSummary) (exact : CountsOf ℕ) (preferred : CountsOf Identity)
    (taken : List Identity)
    → Represents ◌==◌ exact (exacts taken)
    → Represents eq_identity preferred taken
    → ((k : ℕ) → count ◌==◌ k (exacts taken) ≤ count ◌==◌ k (digests previous))
    → IsU64 (length previous)
    → ((unmatched_previous_semantics previous exact preferred).1 + length taken ≡ length previous)
      × ((xs : List ℕ) × Represents ◌==◌
            (unmatched_previous_semantics previous exact preferred).0
            xs
          × (length xs ≤ (unmatched_previous_semantics previous exact preferred).1))
unfolding unmatched_previous_semantics
unmatched-Remaining previous exact preferred taken e p enough small =
    let pass = consume_preferred-Pass preferred exact taken previous p e in
    let flags = (consume_preferred preferred exact previous).0 in
    let left = (consume_preferred preferred exact previous).1 in
    let later =
      consume_remaining-unmarked left previous flags (exacts pass.rest) pass.stands
        (λ k. omega (arith, pass.balance k, enough k)) in
    let (total, rest) =
      count_unmatched-IsCounted no_counts 0 previous (consume_remaining left previous flags) []
        (λ k. refl) (omega arith) (omega arith) in
    (omega (arith, total, later, pass.size, length-exacts pass.rest), rest)
