-- ===== src/Context/Delta/Repeated.antt =====
-- The repeated blocks are those that the two lists share, as multisets of exact fingerprints.
use tracepress.Base.{
  ℕ, suc, ◌+◌, ◌≤◌, ◌<◌, min, ◌≡◌, inl, inr, Bool, List, [], ◌∷◌, ◌++◌, arith, ◌==◌, if◌then◌else◌,
  ==_iff, Bool-cases, IsU64, length,
}
use tracepress.Context.Types.{ContextBlockSummary}
use tracepress.Context.Counts.{take_one}
use tracepress.Context.Delta.{
  ExactMatches, match_one, match_exact, start_matching, compute_bounded_delta,
}
use tracepress.Context.Delta.Represents.{count}
use tracepress.Context.Delta.Walks.{digests, exacts, length-exacts, matches-Matching}

count-digests_append :
    (k : ℕ) (bs : List ContextBlockSummary) (b : ContextBlockSummary)
    → count ◌==◌ k (digests (bs ++ (b ∷ [])))
      ≡ count ◌==◌ k (digests bs) + (if k == b.exact_fingerprint then 1 else 0)
count-digests_append k [] b = ground arith
count-digests_append k (c ∷ bs) b = ground (arith, count-digests_append k bs b)

-- Of each digest, what was consumed and what was not are the blocks seen so far, and none was left
-- over while one was available.
record IsGreedy (seen : ℕ → ℕ) (s : ExactMatches) : Type 0 where
  total : (k : ℕ) → s.exact_consumed k + count ◌==◌ k (digests s.current_unmatched) ≡ seen k
  greedy : (k : ℕ) → 0 < count ◌==◌ k (digests s.current_unmatched) → s.exact_available k ≡ 0

abbrev see : ContextBlockSummary → (ℕ → ℕ) → ℕ → ℕ
see b seen k = (if k == b.exact_fingerprint then 1 else 0) + seen k

none_available :
    (s : ExactMatches) (b : ContextBlockSummary) (k : ℕ)
    → ((j : ℕ) → 0 < count ◌==◌ j (digests s.current_unmatched) → s.exact_available j ≡ 0)
    → s.exact_available b.exact_fingerprint ≡ 0
    → 0 < count ◌==◌ k (digests (s.current_unmatched ++ (b ∷ [])))
    → s.exact_available k ≡ 0
none_available s b k greedy gone h = elim (Bool-cases (k == b.exact_fingerprint)) [
  | inl same ↦ rw ((==_iff k b.exact_fingerprint).0 same) gone
  | inr other ↦ greedy k (ground (arith, count-digests_append k s.current_unmatched b))
]

match_one-IsGreedy :
    (seen : ℕ → ℕ) (s : ExactMatches) (b : ContextBlockSummary)
    → IsGreedy seen s
    → ((k : ℕ) → IsU64 (suc (seen k)))
    → IsGreedy (see b seen) (match_one s b (take_one ◌==◌ s.exact_available b.exact_fingerprint))
match_one-IsGreedy seen s b g small =
    elim (Bool-cases (s.exact_available b.exact_fingerprint == 0)) [
      | inl gone ↦ rw gone (record {
        total = λ k. ground (arith, g.total k, count-digests_append k s.current_unmatched b);
        greedy = λ k h. none_available s b k g.greedy ((==_iff _ 0).0 gone) h;
      })
      | inr there ↦ rw there (record {
        total = λ k. ground (arith, g.total k, small k);
        greedy = λ k h. ground (arith, g.greedy k h);
      })
    ]

match_exact-IsGreedy :
    (seen : ℕ → ℕ) (n : ℕ) (s : ExactMatches) (bs : List ContextBlockSummary)
    → IsGreedy seen s
    → ((k : ℕ) → seen k ≤ n)
    → IsU64 (n + length bs)
    → IsGreedy (λ k. seen k + count ◌==◌ k (digests bs)) (match_exact s bs)
unfolding match_exact
match_exact-IsGreedy seen n s [] g few small = record {
  total = λ k. omega (arith, g.total k);
  greedy = g.greedy;
}
match_exact-IsGreedy seen n s (b ∷ bs) g few small =
    let ih =
      match_exact-IsGreedy (see b seen) (suc n)
        (match_one s b (take_one ◌==◌ s.exact_available b.exact_fingerprint)) bs
        (match_one-IsGreedy seen s b g (λ k. omega (arith, few k))) (λ k. ground (arith, few k))
        (omega arith) in
    record { total = λ k. ground (arith, ih.total k); greedy = ih.greedy }

-- For two lists of representable lengths: the number of repeated blocks is the size of the
-- intersection of the two multisets of exact fingerprints, in which every fingerprint stands as
-- often as in the list that has it less often.
pub repeated_blocks-intersection :
    (i j : ℕ) (previous current : List ContextBlockSummary) (l m : Bool)
    → IsU64 (length previous)
    → IsU64 (length current)
    → (shared : List ℕ) × ((compute_bounded_delta i j previous current l m).repeated_blocks
        ≡ length shared)
      × ((k : ℕ)
          → count ◌==◌ k shared
            ≡ min (count ◌==◌ k (digests previous)) (count ◌==◌ k (digests current)))
unfolding compute_bounded_delta
repeated_blocks-intersection i j previous current l m small small' =
    let (taken, matched) = matches-Matching previous current small small' in
    let g =
      match_exact-IsGreedy (λ k. 0) 0 (start_matching previous) current
        (record { total = λ k. omega arith; greedy = λ k h. absurd (omega arith) })
        (λ k. omega arith) (omega arith) in
    (
      exacts taken,
      omega (arith, matched.repeated, length-exacts taken),
      λ k. grind (arith, matched.available k, matched.exact k, g.total k, g.greedy k),
    )
