-- ===== src/Core/Limits.antt =====
-- crates/tracepress-core/src/limits.rs: the finite resource limits and their startup validation.
-- The macro generates eleven types with one body; `Limit` is that body, and a field's name says
-- which of the types it has. An `i128` is an integer of any size.
pub mod Laws
use tracepress.Base.{
  ℕ, zero, suc, Bool, false, Option, none, some, ltb, ◌==◌, if◌then◌else◌, u64_max, Result, ◌>>=◌,
  ok, err,
}
use tracepress.Base.Int.{ℤ, pos, negsuc}

pub record Limit : Type 0 where
  pub value : ℕ

pub data LimitValueError : Type 0 where
  limit_value_error : LimitValueError

-- `NonZeroU64::new`.
abbrev non_zero : ℕ → Option ℕ
non_zero zero = none
non_zero (suc n) = some (suc n)

abbrev from_non_zero : ℕ → Limit
from_non_zero n = record { value = n }

pub new : ℕ → Result LimitValueError Limit
new value = elim (non_zero value) [ some v ↦ ok (from_non_zero v) | none ↦ err limit_value_error ]

pub data ResourceLimitField : Type 0 where
  raw_bytes request_body_bytes response_body_bytes decompressed_bytes : ResourceLimitField
  ipc_frame_bytes ipc_queue_items json_nesting json_items line_bytes : ResourceLimitField
  processing_time_ms cpu_work_units : ResourceLimitField

pub record ResourceLimitsConfig : Type 0 where
  pub max_raw_bytes : Option ℤ
  pub max_request_body_bytes : Option ℤ
  pub max_response_body_bytes : Option ℤ
  pub max_decompressed_bytes : Option ℤ
  pub max_ipc_frame_bytes : Option ℤ
  pub max_ipc_queue_items : Option ℤ
  pub max_json_nesting : Option ℤ
  pub max_json_items : Option ℤ
  pub max_line_bytes : Option ℤ
  pub max_processing_time_ms : Option ℤ
  pub max_cpu_work_units : Option ℤ

pub record ResourceLimits : Type 0 where
  pub max_raw_bytes : Limit
  pub max_request_body_bytes : Limit
  pub max_response_body_bytes : Limit
  pub max_decompressed_bytes : Limit
  pub max_ipc_frame_bytes : Limit
  pub max_ipc_queue_items : Limit
  pub max_json_nesting : Limit
  pub max_json_items : Limit
  pub max_line_bytes : Limit
  pub max_processing_time_ms : Limit
  pub max_cpu_work_units : Limit

pub data ResourceLimitsError : Type 0 where
  missing : ResourceLimitField → ResourceLimitsError
  zero_limit : ResourceLimitField → ResourceLimitsError
  invalid : ResourceLimitField → ℤ → ResourceLimitsError

-- `u64::try_from` of an `i128`.
abbrev to_u64_checked : ℤ → Option ℕ
to_u64_checked (pos n) = if ltb u64_max n then none else some n
to_u64_checked (negsuc n) = none

abbrev is_zero : ℤ → Bool
is_zero (pos n) = n == 0
is_zero (negsuc n) = false

abbrev parse_present : ℤ → ResourceLimitField → Result ResourceLimitsError ℕ
parse_present value field =
    if is_zero value then err (zero_limit field) else elim (to_u64_checked value) [
      | none ↦ err (invalid field value)
      | some n ↦ elim (non_zero n) [ none ↦ err (zero_limit field) | some v ↦ ok v ]
    ]

pub parse_limit : Option ℤ → ResourceLimitField → Result ResourceLimitsError ℕ
parse_limit none field = err (missing field)
parse_limit (some value) field = parse_present value field

pub try_from : ResourceLimitsConfig → Result ResourceLimitsError ResourceLimits
try_from config = do
  raw ← parse_limit config.max_raw_bytes raw_bytes
  request_body ← parse_limit config.max_request_body_bytes request_body_bytes
  response_body ← parse_limit config.max_response_body_bytes response_body_bytes
  decompressed ← parse_limit config.max_decompressed_bytes decompressed_bytes
  ipc_frame ← parse_limit config.max_ipc_frame_bytes ipc_frame_bytes
  ipc_queue ← parse_limit config.max_ipc_queue_items ipc_queue_items
  nesting ← parse_limit config.max_json_nesting json_nesting
  items ← parse_limit config.max_json_items json_items
  line ← parse_limit config.max_line_bytes line_bytes
  processing_time ← parse_limit config.max_processing_time_ms processing_time_ms
  work ← parse_limit config.max_cpu_work_units cpu_work_units
  ok (record {
    max_raw_bytes = from_non_zero raw;
    max_request_body_bytes = from_non_zero request_body;
    max_response_body_bytes = from_non_zero response_body;
    max_decompressed_bytes = from_non_zero decompressed;
    max_ipc_frame_bytes = from_non_zero ipc_frame;
    max_ipc_queue_items = from_non_zero ipc_queue;
    max_json_nesting = from_non_zero nesting;
    max_json_items = from_non_zero items;
    max_line_bytes = from_non_zero line;
    max_processing_time_ms = from_non_zero processing_time;
    max_cpu_work_units = from_non_zero work;
  })
