-- ===== src/Context/Types.antt =====
-- crates/tracepress-context/src/delta.rs and domain.rs: the data of a comparison. A digest, a semantic
-- fingerprint and a snapshot are known by their numbers.
use tracepress.Base.{ℕ, Option, List}

pub record ContextBlockSummary : Type 0 where
  pub exact_fingerprint : ℕ
  pub semantic_fingerprint : Option ℕ
  pub estimated_tokens : Option ℕ

pub data ContextAnalysisStatus : Type 0 where
  complete partial resource_limit malformed observer_backpressure : ContextAnalysisStatus
  correlation_degraded unsupported cancelled : ContextAnalysisStatus

pub data ContextDeltaStatus : Type 0 where
  complete resource_limit : ContextDeltaStatus

-- `max_blocks` is the one limit that the comparison reads.
pub record ContextDeltaRequest : Type 0 where
  pub previous_snapshot_id : ℕ
  pub current_snapshot_id : ℕ
  pub previous : List ContextBlockSummary
  pub current : List ContextBlockSummary
  pub previous_analysis_status : ContextAnalysisStatus
  pub current_analysis_status : ContextAnalysisStatus
  pub max_blocks : ℕ

pub record ContextDelta : Type 0 where
  pub previous_snapshot_id : ℕ
  pub current_snapshot_id : ℕ
  pub status : ContextDeltaStatus
  pub compared_previous_blocks : ℕ
  pub compared_current_blocks : ℕ
  pub repeated_blocks : ℕ
  pub new_blocks : ℕ
  pub changed_blocks : ℕ
  pub removed_blocks : ℕ
  pub repeated_estimated_tokens : Option ℕ
  pub new_estimated_tokens : Option ℕ
  pub common_prefix_blocks : Option ℕ
  pub common_prefix_estimated_tokens : Option ℕ
