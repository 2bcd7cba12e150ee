-- ===== src/Context/Delta.antt =====
-- crates/tracepress-context/src/delta.rs: the bounded comparison of two ordered lists of block
-- summaries.
pub mod Represents
mod Passes
pub mod Walks
pub mod Prefix
pub mod Repeated
pub mod Laws
use tracepress.Base.{
  ℕ, ◌-◌, min, Bool, true, false, not, ◌&&◌, ◌||◌, Option, none, some, List, [], ◌∷◌, ◌++◌, ltb,
  ◌==◌, if◌then◌else◌, to_u64, length, take,
}
use tracepress.Context.Types.{
  ContextBlockSummary, ContextAnalysisStatus, ContextDeltaRequest, ContextDelta, resource_limit,
  complete,
}
use tracepress.Context.Counts.{
  increment, TokenTotal, no_tokens, push, finish, CountsOf, no_counts, increment_entry, take_one,
  Identity, eq_identity, identity,
}

-- What the first loop over the current blocks keeps.
pub record ExactMatches : Type 0 where
  pub exact_available : CountsOf ℕ
  pub exact_consumed : CountsOf ℕ
  pub preferred : CountsOf Identity
  pub current_unmatched : List ContextBlockSummary
  pub repeated_blocks : ℕ
  pub repeated_tokens : TokenTotal

pub count_exact : CountsOf ℕ → List ContextBlockSummary → CountsOf ℕ
count_exact counts [] = counts
count_exact counts (b ∷ bs) = count_exact (increment_entry ◌==◌ counts b.exact_fingerprint) bs

-- One round of the loop, on the answer of `take_one`.
abbrev pub match_one : ExactMatches → ContextBlockSummary → Bool × CountsOf ℕ → ExactMatches
match_one s b (true, available) = record s {
  exact_available = available;
  repeated_blocks = increment s.repeated_blocks;
  exact_consumed = increment_entry ◌==◌ s.exact_consumed b.exact_fingerprint;
  preferred = increment_entry eq_identity s.preferred (identity b);
  repeated_tokens = push s.repeated_tokens b.estimated_tokens;
}
match_one s b (false, available) = record s {
  exact_available = available;
  current_unmatched = s.current_unmatched ++ (b ∷ []);
}

pub match_exact : ExactMatches → List ContextBlockSummary → ExactMatches
match_exact s [] = s
match_exact s (b ∷ bs) =
    match_exact (match_one s b (take_one ◌==◌ s.exact_available b.exact_fingerprint)) bs

-- The first pass of `unmatched_previous_semantics`: which blocks it consumes, and what is left of
-- `exact_consumed`.
pub consume_preferred :
    CountsOf Identity → CountsOf ℕ → List ContextBlockSummary → List Bool × CountsOf ℕ
consume_preferred preferred exact [] = ([], exact)
consume_preferred preferred exact (b ∷ bs) =
    let (taken, preferred') = take_one eq_identity preferred (identity b) in
    let exact' = if taken then (take_one ◌==◌ exact b.exact_fingerprint).1 else exact in
    let (flags, left) = consume_preferred preferred' exact' bs in (taken ∷ flags, left)

-- The second pass, over the blocks with their flags.
pub consume_remaining : CountsOf ℕ → List ContextBlockSummary → List Bool → List Bool
consume_remaining exact (b ∷ bs) (true ∷ flags) = true ∷ consume_remaining exact bs flags
consume_remaining exact (b ∷ bs) (false ∷ flags) =
    let (taken, exact') = take_one ◌==◌ exact b.exact_fingerprint in
    taken ∷ consume_remaining exact' bs flags
consume_remaining exact _ _ = []

abbrev pub count_semantic : CountsOf ℕ → Option ℕ → CountsOf ℕ
count_semantic semantics none = semantics
count_semantic semantics (some s) = increment_entry ◌==◌ semantics s

-- The third loop: the semantics of the blocks that were not consumed, and how many those are.
pub count_unmatched : CountsOf ℕ → ℕ → List ContextBlockSummary → List Bool → CountsOf ℕ × ℕ
count_unmatched semantics remaining (b ∷ bs) (true ∷ flags) =
    count_unmatched semantics remaining bs flags
count_unmatched semantics remaining (b ∷ bs) (false ∷ flags) =
    count_unmatched (count_semantic semantics b.semantic_fingerprint) (increment remaining) bs flags
count_unmatched semantics remaining _ _ = (semantics, remaining)

pub unmatched_previous_semantics :
    List ContextBlockSummary → CountsOf ℕ → CountsOf Identity → CountsOf ℕ × ℕ
unmatched_previous_semantics previous exact preferred =
    let (flags, exact') = consume_preferred preferred exact previous in
    count_unmatched no_counts 0 previous (consume_remaining exact' previous flags)

-- `semantic.is_some_and(|semantic| take_one(&mut semantic_available, &semantic))`.
abbrev pub take_semantic : CountsOf ℕ → Option ℕ → Bool × CountsOf ℕ
take_semantic available none = (false, available)
take_semantic available (some s) = take_one ◌==◌ available s

-- What the loop over the unmatched current blocks keeps.
pub record Classified : Type 0 where
  pub semantic_available : CountsOf ℕ
  pub remaining_previous : ℕ
  pub changed_blocks : ℕ
  pub new_blocks : ℕ
  pub new_tokens : TokenTotal

abbrev pub classify_one : Classified → ContextBlockSummary → Bool × CountsOf ℕ → Classified
classify_one s b (true, available) = record s {
  semantic_available = available;
  changed_blocks = increment s.changed_blocks;
  remaining_previous = s.remaining_previous - 1;
}
classify_one s b (false, available) = record s {
  semantic_available = available;
  new_blocks = increment s.new_blocks;
  new_tokens = push s.new_tokens b.estimated_tokens;
}

pub classify_unmatched : Classified → List ContextBlockSummary → Classified
classify_unmatched s [] = s
classify_unmatched s (b ∷ bs) =
    classify_unmatched
      (classify_one s b (take_semantic s.semantic_available b.semantic_fingerprint)) bs

-- The loop of `exact_prefix`: blocks, tokens, and whether it broke off.
unfoldable pub prefix_loop :
    List ContextBlockSummary → List ContextBlockSummary → ℕ → TokenTotal → ℕ × TokenTotal × Bool
prefix_loop (before ∷ previous) (after ∷ current) blocks tokens =
    let rest =
      prefix_loop previous current (increment blocks) (push tokens after.estimated_tokens) in
    if before.exact_fingerprint == after.exact_fingerprint then rest else (blocks, tokens, true)
prefix_loop _ _ blocks tokens = (blocks, tokens, false)

unfoldable pub exact_prefix :
    List ContextBlockSummary → List ContextBlockSummary → Bool → Option ℕ × Option ℕ
exact_prefix previous current possibly_cut =
    let (blocks, tokens, mismatched) = prefix_loop previous current 0 no_tokens in
    if possibly_cut && not mismatched && (length previous == length current)
    then (none, none)
    else (some blocks, finish tokens)

-- The state before the first loop.
abbrev pub start_matching : List ContextBlockSummary → ExactMatches
start_matching previous = record {
  exact_available = count_exact no_counts previous;
  exact_consumed = no_counts;
  preferred = no_counts;
  current_unmatched = [];
  repeated_blocks = 0;
  repeated_tokens = no_tokens;
}

abbrev pub start_classifying : CountsOf ℕ × ℕ → Classified
start_classifying (semantics, remaining) = record {
  semantic_available = semantics;
  remaining_previous = remaining;
  changed_blocks = 0;
  new_blocks = 0;
  new_tokens = no_tokens;
}

pub compute_bounded_delta :
    ℕ → ℕ → List ContextBlockSummary → List ContextBlockSummary → Bool → Bool → ContextDelta
compute_bounded_delta previous_id current_id previous current previous_limited current_limited =
    let matches = match_exact (start_matching previous) current in
    let unmatched =
      unmatched_previous_semantics previous matches.exact_consumed matches.preferred in
    let classified = classify_unmatched (start_classifying unmatched) matches.current_unmatched in
    let prefix = exact_prefix previous current (previous_limited || current_limited) in
    record {
      previous_snapshot_id = previous_id;
      current_snapshot_id = current_id;
      status = if previous_limited || current_limited then resource_limit else complete;
      compared_previous_blocks = to_u64 (length previous);
      compared_current_blocks = to_u64 (length current);
      repeated_blocks = matches.repeated_blocks;
      new_blocks = classified.new_blocks;
      changed_blocks = classified.changed_blocks;
      removed_blocks = classified.remaining_previous;
      repeated_estimated_tokens = finish matches.repeated_tokens;
      new_estimated_tokens = finish classified.new_tokens;
      common_prefix_blocks = prefix.0;
      common_prefix_estimated_tokens = prefix.1;
    }

abbrev is_complete : ContextAnalysisStatus → Bool
is_complete ContextAnalysisStatus.complete = true
is_complete _ = false

abbrev pub was_limited : ContextAnalysisStatus → List ContextBlockSummary → ℕ → Bool
was_limited status blocks maximum = not (is_complete status) || ltb maximum (length blocks)

pub compute_context_delta : ContextDeltaRequest → ContextDelta
compute_context_delta r =
    compute_bounded_delta r.previous_snapshot_id r.current_snapshot_id
      (take (min (length r.previous) r.max_blocks) r.previous)
      (take (min (length r.current) r.max_blocks) r.current)
      (was_limited r.previous_analysis_status r.previous r.max_blocks)
      (was_limited r.current_analysis_status r.current r.max_blocks)
