-- ===== src/Core/Lifecycle/Laws.antt =====
-- No success is invented.
use tracepress.Base.{◌≡◌, ◌≢◌, ◌↔◌, ◌⊎◌, true, arith, is_ok, ok}
use tracepress.Core.Lifecycle.{
  SessionState, active, closing, OperationStatus, InferenceStatus, CommitState, committed,
  finalize_inference,
}

-- The session takes transitions.
abbrev pub IsOpen : SessionState → Type 0
IsOpen s = (s ≡ active) ⊎ (s ≡ closing)

-- The inference has ended.
abbrev pub IsTerminal : InferenceStatus → Type 0
IsTerminal s = (s ≢ InferenceStatus.started) × (s ≢ InferenceStatus.streaming)

-- An operation is reported completed exactly when the session takes transitions, the inference
-- completed and the commit is certain.
pub finalize_inference-completed :
    (s : SessionState) (i : InferenceStatus) (c : CommitState)
    → (finalize_inference s i c ≡ ok OperationStatus.completed)
      ↔ (IsOpen s × (i ≡ InferenceStatus.completed) × (c ≡ committed))
unfolding finalize_inference
finalize_inference-completed s i c = ground arith

-- An inference is finalized, with whatever status, exactly when the session takes transitions, the
-- inference is terminal, and the commit is certain if it completed; and never as started.
pub finalize_inference-ok :
    (s : SessionState) (i : InferenceStatus) (c : CommitState)
    → ((is_ok (finalize_inference s i c) ≡ true)
        ↔ (IsOpen s × IsTerminal i × (i ≡ InferenceStatus.completed → c ≡ committed)))
      × (finalize_inference s i c ≢ ok OperationStatus.started)
unfolding finalize_inference
finalize_inference-ok s i c = ground arith
