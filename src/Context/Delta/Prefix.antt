-- ===== src/Context/Delta/Prefix.antt =====
-- `exact_prefix`: the longest common prefix, but for equal lists that a bound may have cut.
use tracepress.Base.{
  ℕ, suc, ◌+◌, ◌≤◌, ◌≡◌, refl, sym, ap, ◌∙◌, subst, ◌≢◌, ◌↔◌, inl, inr, Bool, true, false, not,
  ◌&&◌, none, some, List, [], ◌∷◌, arith, ◌==◌, ==_iff, Bool-cases, some-injective, IsU64, length,
  take, get_elem?,
}
use tracepress.Context.Types.{ContextBlockSummary}
use tracepress.Context.Counts.{TokenTotal, no_tokens, increment, push}
use tracepress.Context.Delta.{prefix_loop, exact_prefix}
use tracepress.Context.Delta.Walks.{digests}

-- The first n blocks agree in their exact bytes, and the blocks behind them, if both are there, do
-- not.
pub record IsSharedPrefix (n : ℕ) (ps cs : List ℕ) : Type 0 where
  pub within : (n ≤ length ps) × (n ≤ length cs)
  pub agree : take n ps ≡ take n cs
  pub maximal : (x y : ℕ) → get_elem? ps n ≡ some x → get_elem? cs n ≡ some y → x ≢ y

abbrev LoopSpec :
    List ContextBlockSummary → List ContextBlockSummary → ℕ → ℕ × TokenTotal × Bool → Type 0
LoopSpec previous current blocks (total, tokens, mismatched) =
    (n : ℕ) × (total ≡ blocks + n)
    × IsSharedPrefix n (digests previous) (digests current)
    × ((mismatched ≡ false) × (length previous ≡ length current)
        ↔ (digests previous ≡ digests current))

IsSharedPrefix-cons :
    (n x : ℕ) (ps cs : List ℕ) → IsSharedPrefix n ps cs → IsSharedPrefix (suc n) (x ∷ ps) (x ∷ cs)
IsSharedPrefix-cons n x ps cs s = record {
  within = omega (arith, s.within);
  agree = ap (◌∷◌ x) s.agree;
  maximal = s.maximal;
}

prefix_loop-LoopSpec :
    (previous current : List ContextBlockSummary) (blocks : ℕ) (tokens : TokenTotal)
    → IsU64 (blocks + length current)
    → LoopSpec previous current blocks (prefix_loop previous current blocks tokens)
unfolding prefix_loop
prefix_loop-LoopSpec [] [] blocks tokens small = (
  0,
  omega arith,
  record { within = omega arith; agree = refl; maximal = λ x y p q. cc },
  (λ _. refl, λ _. (refl, refl)),
)
prefix_loop-LoopSpec [] (after ∷ current) blocks tokens small = (
  0,
  omega arith,
  record { within = omega arith; agree = refl; maximal = λ x y p q. cc },
  (λ (m, e). absurd (omega arith), λ e. cc),
)
prefix_loop-LoopSpec (before ∷ previous) [] blocks tokens small = (
  0,
  omega arith,
  record { within = omega arith; agree = refl; maximal = λ x y p q. cc },
  (λ (m, e). absurd (omega arith), λ e. cc),
)
prefix_loop-LoopSpec (before ∷ previous) (after ∷ current) blocks tokens small =
    elim (Bool-cases (before.exact_fingerprint == after.exact_fingerprint)) [
      | inl same ↦
          let up : increment blocks ≡ suc blocks = ground arith in
          let (n, total, shared, all) =
            prefix_loop-LoopSpec previous current (increment blocks)
              (push tokens after.estimated_tokens) (omega (arith, up)) in
          rw same (
            suc n,
            omega (arith, total, up),
            rw ((==_iff before.exact_fingerprint after.exact_fingerprint).0 same)
                (IsSharedPrefix-cons n after.exact_fingerprint _ _ shared),
            (
              λ (m, e).
                  rw ((==_iff before.exact_fingerprint after.exact_fingerprint).0 same)
                    (ap (◌∷◌ after.exact_fingerprint) (all.0 (m, omega arith))),
              λ e. let (m, sizes) = all.1 cc in (m, omega arith),
            ),
          )
      | inr differ ↦ rw differ (
        0,
        omega arith,
        record {
          within = omega arith;
          agree = refl;
          maximal = λ x y p q e.
              let h =
                (==_iff before.exact_fingerprint after.exact_fingerprint).1
                  (some-injective p ∙ e ∙ sym (some-injective q)) in
              cc;
        },
        (
          λ (m, e). cc,
          λ e. let h = (==_iff before.exact_fingerprint after.exact_fingerprint).1 cc in cc,
        ),
      )
    ]

-- For a current list of representable length: the number of common prefix blocks is withheld
-- exactly when a bound may have cut the lists and the fingerprints of the compared blocks are all the
-- same, and otherwise it is that of the longest prefix on which the exact fingerprints agree.
pub exact_prefix-PrefixSpec :
    (previous current : List ContextBlockSummary) (possibly_cut : Bool)
    → IsU64 (length current)
    → (((exact_prefix previous current possibly_cut).0 ≡ none)
        ↔ ((possibly_cut ≡ true) × (digests previous ≡ digests current)))
      × ((n : ℕ)
          → (exact_prefix previous current possibly_cut).0 ≡ some n
          → IsSharedPrefix n (digests previous) (digests current))
unfolding exact_prefix
exact_prefix-PrefixSpec previous current possibly_cut small =
    let (n, total, shared, all) = prefix_loop-LoopSpec previous current 0 no_tokens (omega arith) in
    let mismatched = (prefix_loop previous current 0 no_tokens).2 in
    let blocks : n ≡ (prefix_loop previous current 0 no_tokens).0 = omega (arith, total) in
    elim (Bool-cases (possibly_cut && not mismatched && (length previous == length current))) [
      | inl cut ↦
          rw cut ((λ _. (ground arith, all.0 (ground arith, ground arith)), λ _. refl), λ k e. cc)
      | inr kept ↦ rw kept (
        (λ e. cc, λ (c, e). let (m, sizes) = all.1 e in absurd (ground arith)),
        λ k e.
            subst (λ k. IsSharedPrefix k (digests previous) (digests current))
              (blocks ∙ some-injective e) shared,
      )
    ]
