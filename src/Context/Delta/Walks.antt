-- ===== src/Context/Delta/Walks.antt =====
-- The loops over the current blocks.
use tracepress.Base.{
  ℕ, suc, ◌+◌, ◌≤◌, ◌<◌, ◌≡◌, refl, ap, ◌∙◌, subst, inl, inr, Option, none, some, List, [], ◌∷◌,
  arith, ◌==◌, ==_iff, Bool-cases, IsU64, length, length-append,
}
use tracepress.Context.Types.{ContextBlockSummary}
use tracepress.Context.Counts.{
  CountsOf, no_counts, increment_entry, take_one, eq_identity, Identity, identity,
}
use tracepress.Context.Delta.{
  ExactMatches, count_exact, match_one, match_exact, Classified, classify_one, classify_unmatched,
  take_semantic, start_matching,
}
use tracepress.Context.Delta.Represents.{
  Represents, count, ==-Decides, Represents-increment_entry, Represents-remove_one, length-remove,
  remove,
}

-- The exact identities of some blocks.
abbrev pub digests : List ContextBlockSummary → List ℕ
digests [] = []
digests (b ∷ bs) = b.exact_fingerprint ∷ digests bs

-- The exact halves of some identities.
abbrev pub exacts : List Identity → List ℕ
exacts [] = []
exacts ((d, s) ∷ is) = d ∷ exacts is

pub length-digests : (bs : List ContextBlockSummary) → length (digests bs) ≡ length bs
length-digests [] = refl
length-digests (b ∷ bs) = ap suc (length-digests bs)

pub length-exacts : (is : List Identity) → length (exacts is) ≡ length is
length-exacts [] = refl
length-exacts (i ∷ is) = ap suc (length-exacts is)

count_exact-count :
    (counts : CountsOf ℕ) (bs : List ContextBlockSummary) (seen : ℕ)
    → ((k : ℕ) → counts k ≤ seen)
    → IsU64 (seen + length bs)
    → (k : ℕ) → count_exact counts bs k ≡ counts k + count ◌==◌ k (digests bs)
unfolding count_exact
count_exact-count counts [] seen h small k = omega arith
count_exact-count counts (b ∷ bs) seen h small k =
    let step =
      count_exact-count (increment_entry ◌==◌ counts b.exact_fingerprint) bs (suc seen)
        (λ j. ground (arith, h j)) (omega arith) k in
    ground (arith, step, h k)

-- The first loop has consumed these identities and left these counts available: together they are
-- the digests of the earlier blocks.
pub record Matching (previous : List ℕ) (seen : ℕ) (s : ExactMatches) (taken : List Identity)
    : Type 0 where
  pub exact : Represents ◌==◌ s.exact_consumed (exacts taken)
  pub preferred : Represents eq_identity s.preferred taken
  pub available :
      (k : ℕ) → s.exact_available k + count ◌==◌ k (exacts taken) ≡ count ◌==◌ k previous
  pub repeated : s.repeated_blocks ≡ length taken
  pub split : length taken + length s.current_unmatched ≡ seen

match_one-Matching :
    (previous : List ℕ) (seen : ℕ) (s : ExactMatches) (taken : List Identity)
    (b : ContextBlockSummary)
    → Matching previous seen s taken
    → IsU64 (suc seen)
    → (taken' : List Identity) × Matching previous
        (suc seen)
        (match_one s b (take_one ◌==◌ s.exact_available b.exact_fingerprint))
        taken'
match_one-Matching previous seen s taken b m small =
    elim (Bool-cases (s.exact_available b.exact_fingerprint == 0)) [
      | inl gone ↦ rw gone (
        taken,
        record {
          exact = m.exact;
          preferred = m.preferred;
          available = m.available;
          repeated = m.repeated;
          split = omega (arith, length-append s.current_unmatched (b ∷ []), m.split);
        },
      )
      | inr there ↦ rw there (
        identity b ∷ taken,
        record {
          exact =
              Represents-increment_entry ◌==◌ _ (exacts taken) b.exact_fingerprint m.exact
                (omega (arith, length-exacts taken, m.split));
          preferred =
              Represents-increment_entry eq_identity _ taken (identity b) m.preferred
                (omega (arith, m.split));
          available = λ k. ground (arith, m.available k, ==_iff k b.exact_fingerprint);
          repeated = ground (arith, m.repeated, m.split);
          split = omega (arith, m.split);
        },
      )
    ]

match_exact-Matching :
    (previous : List ℕ) (seen total : ℕ) (s : ExactMatches) (taken : List Identity)
    (bs : List ContextBlockSummary)
    → Matching previous seen s taken
    → seen + length bs ≡ total
    → IsU64 total
    → (taken' : List Identity) × Matching previous total (match_exact s bs) taken'
unfolding match_exact
match_exact-Matching previous seen total s taken [] m e small =
    let same : seen ≡ total = omega arith in
    (taken, subst (λ n. Matching previous n s taken) same m)
match_exact-Matching previous seen total s taken (b ∷ bs) m e small =
    let (taken', m') = match_one-Matching previous seen s taken b m (omega arith) in
    match_exact-Matching previous (suc seen) total
      (match_one s b (take_one ◌==◌ s.exact_available b.exact_fingerprint)) taken' bs m'
      (omega arith) small

start_matching-Matching :
    (previous : List ContextBlockSummary)
    → IsU64 (length previous)
    → Matching (digests previous) 0 (start_matching previous) []
start_matching-Matching previous small = record {
  exact = λ k. refl;
  preferred = λ k. refl;
  available =
      λ k. omega (arith, count_exact-count no_counts previous 0 (λ j. omega arith) (omega arith) k);
  repeated = refl;
  split = refl;
}

-- The first loop as a whole.
pub matches-Matching :
    (previous current : List ContextBlockSummary)
    → IsU64 (length previous)
    → IsU64 (length current)
    → (taken : List Identity) × Matching
        (digests previous)
        (length current)
        (match_exact (start_matching previous) current)
        taken
matches-Matching previous current small small' =
    match_exact-Matching (digests previous) 0 (length current) _ [] current
      (start_matching-Matching previous small) (omega arith) small'

-- The available semantics stand for no more blocks than remain.
abbrev pub IsCovered : Classified → Type 0
IsCovered s =
    (xs : List ℕ) × Represents ◌==◌ s.semantic_available xs × (length xs ≤ s.remaining_previous)

-- One unmatched block is changed, at the cost of a remaining one, or new.
pub record Classifies (s s' : Classified) (n : ℕ) : Type 0 where
  pub covered : IsCovered s'
  pub blocks : s'.changed_blocks + s'.new_blocks ≡ s.changed_blocks + s.new_blocks + n
  pub left : s'.changed_blocks + s'.remaining_previous ≡ s.changed_blocks + s.remaining_previous

classify_one-Classifies :
    (s : Classified) (b : ContextBlockSummary) (semantic : Option ℕ)
    → IsCovered s
    → IsU64 (suc (s.changed_blocks + s.new_blocks))
    → Classifies s (classify_one s b (take_semantic s.semantic_available semantic)) 1
classify_one-Classifies s b none (xs, stands, few) small = record {
  covered = (xs, stands, few);
  blocks = ground arith;
  left = refl;
}
classify_one-Classifies s b (some k) (xs, stands, few) small =
    elim (Bool-cases (s.semantic_available k == 0)) [
      | inl gone ↦
          rw gone (record { covered = (xs, stands, few); blocks = ground arith; left = refl })
      | inr there ↦
          let some_left : 0 < count ◌==◌ k xs = ground (arith, stands k) in
          let size = length-remove ◌==◌ k xs some_left in
          rw there (record {
            covered = (
              remove ◌==◌ k xs,
              Represents-remove_one ◌==◌ ==-Decides s.semantic_available xs k stands some_left,
              omega (arith, size),
            );
            blocks = ground arith;
            left = ground (arith, size);
          })
    ]

-- The last loop as a whole.
pub classify_unmatched-counts :
    (s : Classified) (bs : List ContextBlockSummary)
    → IsCovered s
    → IsU64 (s.changed_blocks + s.new_blocks + length bs)
    → Classifies s (classify_unmatched s bs) (length bs)
unfolding classify_unmatched
classify_unmatched-counts s [] c small = record { covered = c; blocks = omega arith; left = refl }
classify_unmatched-counts s (b ∷ bs) c small =
    let one = classify_one-Classifies s b b.semantic_fingerprint c (omega arith) in
    let rest =
      classify_unmatched-counts
        (classify_one s b (take_semantic s.semantic_available b.semantic_fingerprint)) bs
        one.covered (omega (arith, one.blocks)) in
    record {
      covered = rest.covered;
      blocks = omega (arith, one.blocks, rest.blocks);
      left = rest.left ∙ one.left;
    }
