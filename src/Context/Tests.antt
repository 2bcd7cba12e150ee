-- ===== src/Context/Tests.antt =====
-- Runs of crates/tracepress-context on small inputs.
use tracepress.Base.{
  ℕ, ◌≤◌, min, ◌≡◌, refl, ◌↔◌, true, false, Option, none, some, List, [], ◌∷◌, ◌++◌, arith, ◌==◌,
  length,
}
use tracepress.Base.Int.{ℤ, negsuc, sub_ℕ}
use tracepress.Context.Types.{ContextBlockSummary, ContextDeltaRequest, ContextAnalysisStatus}
use tracepress.Context.Delta.Walks.{digests}
use tracepress.Context.Delta.Prefix.{IsSharedPrefix, exact_prefix-PrefixSpec}
use tracepress.Context.Delta.Represents.{count}
use tracepress.Context.Delta.Walks.{digests}
use tracepress.Context.Delta.Repeated.{repeated_blocks-intersection}
use tracepress.Context.Delta.{
  compute_bounded_delta, exact_prefix, prefix_loop, compute_context_delta,
}
use tracepress.Context.Delta.Laws.{IsPartition, compute_context_delta-IsPartition}
use tracepress.Context.Visibility.{
  ContextVisibility, references_provider_managed_content, references_external_content,
}
use tracepress.Context.Reconciliation.{reconcile, i64_max, comparable_approximate}
use tracepress.Context.Reconciliation.Laws.{reconcile-residual, reconcile-comparable}

abbrev block : ℕ → Option ℕ → ContextBlockSummary
block d s = record { exact_fingerprint = d; semantic_fingerprint = s; estimated_tokens = some 3 }

-- One block stays, one changes, one goes and one is new.
abbrev request : ContextDeltaRequest
request = record {
  previous_snapshot_id = 1;
  current_snapshot_id = 2;
  previous = block 10 none ∷ block 11 (some 7) ∷ block 12 (some 8) ∷ [];
  current = block 10 none ∷ block 13 (some 7) ∷ block 14 none ∷ [];
  previous_analysis_status = ContextAnalysisStatus.complete;
  current_analysis_status = ContextAnalysisStatus.complete;
  max_blocks = 8;
}

compute_context_delta-IsPartition_example : IsPartition (compute_context_delta request)
compute_context_delta-IsPartition_example =
    compute_context_delta-IsPartition request (omega arith) (omega arith)

abbrev stable : List ContextBlockSummary
stable = block 10 none ∷ block 11 (some 7) ∷ []

exact_prefix-PrefixSpec_example :
    (((exact_prefix stable (block 10 none ∷ block 12 none ∷ []) true).0 ≡ none)
      ↔ ((true ≡ true) × (digests stable ≡ digests (block 10 none ∷ block 12 none ∷ []))))
    × ((n : ℕ)
        → (exact_prefix stable (block 10 none ∷ block 12 none ∷ []) true).0 ≡ some n
        → IsSharedPrefix n (digests stable) (digests (block 10 none ∷ block 12 none ∷ [])))
exact_prefix-PrefixSpec_example =
    exact_prefix-PrefixSpec stable (block 10 none ∷ block 12 none ∷ []) true (omega arith)

-- A list that a bound may have cut, and a longer one that goes on where it ends.
exact_prefix-shorter : (exact_prefix stable (stable ++ block 12 none ∷ []) true).0 ≡ some 2
unfolding exact_prefix prefix_loop
exact_prefix-shorter = refl

repeated_blocks-intersection_example :
    (shared : List ℕ) × ((compute_bounded_delta 1 2 stable stable false false).repeated_blocks
      ≡ length shared)
    × ((k : ℕ)
        → count ◌==◌ k shared ≡ min (count ◌==◌ k (digests stable)) (count ◌==◌ k (digests stable)))
repeated_blocks-intersection_example =
    repeated_blocks-intersection 1 2 stable stable false false (omega arith) (omega arith)

abbrev visibility : ContextVisibility
visibility = record {
  explicit_request_complete = true;
  uses_previous_response = false;
  uses_conversation_state = false;
  uses_item_references = false;
  uses_prompt_reference = false;
  uses_external_files = true;
  uses_external_images = false;
  contains_opaque_items = false;
}

reconcile-residual_example :
    ((reconcile 1 visibility (some 10) (some 7) true).residual_tokens ≡ some (negsuc 2)) ↔ (
      (p l : ℕ) × (some 7 ≡ some p)
      × (some 10 ≡ some l)
      × (p ≤ i64_max)
      × (l ≤ i64_max)
      × (true ≡ true)
      × (negsuc 2 ≡ sub_ℕ p l))
reconcile-residual_example = reconcile-residual 1 visibility (some 10) (some 7) true (negsuc 2)

reconcile-comparable_example :
    ((reconcile 1 visibility (some 10) (some 7) true).comparability ≡ comparable_approximate) ↔ (
      ((z : ℤ) × ((reconcile 1 visibility (some 10) (some 7) true).residual_tokens ≡ some z))
      × (true ≡ true)
      × (references_provider_managed_content visibility ≡ false)
      × (references_external_content visibility ≡ false))
reconcile-comparable_example = reconcile-comparable 1 visibility (some 10) (some 7) true
