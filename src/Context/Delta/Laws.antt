-- ===== src/Context/Delta/Laws.antt =====
-- Every block of a comparison is classified once.
use tracepress.Base.{ℕ, ◌+◌, min, ◌≡◌, Bool, List, arith, IsU64, length, length-take}
use tracepress.Context.Types.{ContextBlockSummary, ContextDelta, ContextDeltaRequest}
use tracepress.Context.Delta.{
  compute_context_delta, compute_bounded_delta, match_exact, start_matching, start_classifying,
  unmatched_previous_semantics,
}
use tracepress.Context.Delta.Walks.{matches-Matching, classify_unmatched-counts}
use tracepress.Context.Delta.Passes.{unmatched-Remaining}

-- The current blocks are the repeated, the changed and the new ones, the earlier blocks the
-- repeated, the changed and the removed ones.
pub record IsPartition (d : ContextDelta) : Type 0 where
  pub of_current : d.repeated_blocks + d.changed_blocks + d.new_blocks ≡ d.compared_current_blocks
  pub of_previous :
      d.repeated_blocks + d.changed_blocks + d.removed_blocks ≡ d.compared_previous_blocks

bounded-IsPartition :
    (i j : ℕ) (previous current : List ContextBlockSummary) (l m : Bool)
    → IsU64 (length previous)
    → IsU64 (length current)
    → IsPartition (compute_bounded_delta i j previous current l m)
unfolding compute_bounded_delta
bounded-IsPartition i j previous current l m small small' =
    let (taken, matched) = matches-Matching previous current small small' in
    let s = match_exact (start_matching previous) current in
    let (remaining, covered) =
      unmatched-Remaining previous s.exact_consumed s.preferred taken matched.exact
        matched.preferred (λ k. omega (arith, matched.available k)) small in
    let classified =
      classify_unmatched-counts
        (start_classifying (unmatched_previous_semantics previous s.exact_consumed s.preferred))
        s.current_unmatched covered (omega (arith, matched.split)) in
    record {
      of_current = ground (arith, matched.repeated, matched.split, classified.blocks);
      of_previous = ground (arith, matched.repeated, remaining, classified.left);
    }

-- For two lists of blocks of representable lengths: in the comparison of their bounded prefixes
-- every compared current block is counted exactly once as repeated, changed or new, and every
-- compared earlier block exactly once as repeated, changed or removed.
pub compute_context_delta-IsPartition :
    (r : ContextDeltaRequest)
    → IsU64 (length r.previous)
    → IsU64 (length r.current)
    → IsPartition (compute_context_delta r)
unfolding compute_context_delta
compute_context_delta-IsPartition r small small' =
    bounded-IsPartition r.previous_snapshot_id r.current_snapshot_id _ _ _ _
      (omega (arith, length-take (min (length r.previous) r.max_blocks) r.previous))
      (omega (arith, length-take (min (length r.current) r.max_blocks) r.current))
