-- ===== src/Compression/Types.antt =====
-- crates/tracepress-compression/src/lib.rs: metadata, limits, errors and the bounds that the
-- compressors share.
use tracepress.Base.{
  ℕ, Bool, true, false, ◌&&◌, ◌||◌, Option, Bytes, ltb, if◌then◌else◌, saturating_add, to_u64,
  length, Result, ok, err,
}

pub data BlockOrigin : Type 0 where
  tool_generated human_authored agent_generated tool_schema provider_managed other : BlockOrigin

pub data BlockKind : Type 0 where
  tool_result other : BlockKind

pub data DetectedKind : Type 0 where
  json plain_text unknown other : DetectedKind

pub record BlockMetadata : Type 0 where
  pub origin : BlockOrigin
  pub kind : BlockKind
  pub detected_kind : DetectedKind
  pub input_estimated_tokens : Option ℕ
  pub request_offset : ℕ
  pub request_analysis_bytes : ℕ
  pub persistence : Option ℕ
  pub exact_repetition : Option Bool

abbrev is_tool_generated : BlockOrigin → Bool
is_tool_generated tool_generated = true
is_tool_generated _ = false

abbrev is_tool_result : BlockKind → Bool
is_tool_result tool_result = true
is_tool_result _ = false

abbrev is_json : DetectedKind → Bool
is_json json = true
is_json _ = false

abbrev is_plain_text : DetectedKind → Bool
is_plain_text plain_text = true
is_plain_text _ = false

abbrev pub is_tool_result_json : BlockMetadata → Bool
is_tool_result_json m =
    is_tool_generated m.origin && is_tool_result m.kind && is_json m.detected_kind

abbrev pub is_tool_result_plain_text : BlockMetadata → Bool
is_tool_result_plain_text m =
    is_tool_generated m.origin && is_tool_result m.kind && is_plain_text m.detected_kind

pub record CompressionLimits : Type 0 where
  pub max_candidate_input_bytes : ℕ
  pub max_candidate_output_bytes : ℕ
  pub max_candidates_per_block : ℕ
  pub max_shadow_work_units : ℕ
  pub max_shadow_wall_time_ms : ℕ
  pub max_shadow_memory_bytes : ℕ

-- `CompressionLimits::default()`.
abbrev pub default_limits : CompressionLimits
default_limits = record {
  max_candidate_input_bytes = 1_048_576;
  max_candidate_output_bytes = 1_048_576;
  max_candidates_per_block = 16;
  max_shadow_work_units = 2_000_000;
  max_shadow_wall_time_ms = 100;
  max_shadow_memory_bytes = 4_194_304;
}

pub data TransformError : Type 0 where
  not_applicable resource_limit invalid_input internal : TransformError

pub record Transform : Type 0 where
  pub candidate : Bytes
  pub recovery : Bytes

unfoldable pub bounded_vec : Bytes → CompressionLimits → Result TransformError Bytes
bounded_vec bytes limits =
    let len = to_u64 (length bytes) in
    if ltb limits.max_candidate_output_bytes len || ltb limits.max_shadow_memory_bytes len
    then err resource_limit
    else ok bytes

unfoldable pub validate_recovery_inputs :
    Bytes → Bytes → CompressionLimits → Result TransformError (Unit {0})
validate_recovery_inputs candidate recovery limits =
    let candidate_bytes = to_u64 (length candidate) in
    let recovery_bytes = to_u64 (length recovery) in
    if ltb limits.max_candidate_output_bytes candidate_bytes
      || ltb limits.max_shadow_memory_bytes (saturating_add candidate_bytes recovery_bytes)
    then err resource_limit
    else ok tt
