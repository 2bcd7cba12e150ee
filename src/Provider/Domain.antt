-- ===== src/Provider/Domain.antt =====
-- crates/tracepress-provider/src/domain.rs: the limits, errors and states of an observation.
use tracepress.Base.{ℕ, Bool, false, ◌||◌, Option, none, some}

pub record ObservationLimits : Type 0 where
  pub max_semantic_bytes : ℕ
  pub max_usage_bytes : ℕ
  pub max_sse_event_bytes : ℕ
  pub max_sse_events : ℕ
  pub max_json_depth : ℕ
  pub max_json_items : ℕ
  pub max_string_bytes : ℕ

pub data ObservationError : Type 0 where
  resource_limit invalid_text malformed : ObservationError

pub data ObservationStatus : Type 0 where
  complete partial unsupported malformed resource_limit observer_backpressure cancelled :
      ObservationStatus

pub data ProviderResponseState : Type 0 where
  queued in_progress completed incomplete failed cancelled disconnected unknown :
      ProviderResponseState

pub data UsageStatus : Type 0 where
  final partial unavailable : UsageStatus

pub data UsageError : Type 0 where
  resource_limit malformed : UsageError

abbrev pub status_for_error : ObservationError → ObservationStatus
status_for_error resource_limit = resource_limit
status_for_error invalid_text = malformed
status_for_error malformed = malformed

pub record AnomalyFlags : Type 0 where
  pub invalid_number : Bool
  pub overflow : Bool
  pub cached_exceeds_input : Bool
  pub reasoning_exceeds_output : Bool
  pub inconsistent_total : Bool

abbrev pub no_anomalies : AnomalyFlags
no_anomalies = record {
  invalid_number = false;
  overflow = false;
  cached_exceeds_input = false;
  reasoning_exceeds_output = false;
  inconsistent_total = false;
}

abbrev pub any : AnomalyFlags → Bool
any f =
    f.invalid_number || f.overflow || f.cached_exceeds_input || f.reasoning_exceeds_output
    || f.inconsistent_total

-- `normalizer_version` is a constant.
pub record NormalizedUsage : Type 0 where
  pub input_total : Option ℕ
  pub input_cached : Option ℕ
  pub input_uncached : Option ℕ
  pub cache_write : Option ℕ
  pub output_total : Option ℕ
  pub output_reasoning : Option ℕ
  pub total : Option ℕ
  pub status : UsageStatus
  pub anomalies : AnomalyFlags

pub data CompactionTrigger : Type 0 where
  manual auto unknown : CompactionTrigger

pub data CompactionProtocol : Type 0 where
  responses_trigger_v2 dedicated_endpoint_legacy : CompactionProtocol

pub data ProviderRequestKind : Type 0 where
  turn : ProviderRequestKind
  compaction : CompactionProtocol → CompactionTrigger → ProviderRequestKind

abbrev pub compaction_trigger_of : ProviderRequestKind → Option CompactionTrigger
compaction_trigger_of turn = none
compaction_trigger_of (compaction protocol trigger) = some trigger

pub data ProviderTransport : Type 0 where
  open_ai_public_api chat_gpt_codex_subscription : ProviderTransport

pub data ContentEncoding : Type 0 where
  identity zstd unsupported : ContentEncoding
