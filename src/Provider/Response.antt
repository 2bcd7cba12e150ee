-- ===== src/Provider/Response.antt =====
-- crates/tracepress-provider/src/response.rs: parse_response, which reads one whole document.
pub mod Final
use tracepress.Base.{
  ℕ, Bool, true, false, not, ◌||◌, Option, none, some, Bytes, ltb, if◌then◌else◌, eq_bytes,
  is_member, length, is_utf8, Result, ◌>>=◌, ◌>>◌, fail_if, ok, err,
}
use tracepress.Base.Ascii.{ascii}
use tracepress.Provider.Domain.{
  ObservationLimits, ObservationError, invalid_text, ObservationStatus, complete, partial,
  malformed, resource_limit, ProviderResponseState, queued, in_progress, completed, incomplete,
  failed, cancelled, unknown, UsageStatus, unavailable, NormalizedUsage, status_for_error,
}
use tracepress.Provider.Json.{Value, null, number, string, object, Members, get, parse_bounded}
use tracepress.Provider.Usage.{
  UsageOutcome, unusable, oversized, extract_usage, settle_usage_status, is_terminal_state,
}
use tracepress.Provider.Interpret.{Readers, keep_text, any_member, is_text}

-- The provider, the protocol and the parser version are constants, and the counters and times of a
-- document are none.
pub record ResponseObservation : Type 0 where
  pub status : ObservationStatus
  pub provider_response_id : Option Bytes
  pub model : Option Bytes
  pub created_at : Option ℕ
  pub response_state : ProviderResponseState
  pub incomplete_reason : Option Bytes
  pub error_code : Option Bytes
  pub raw_usage : Option Bytes
  pub compaction_output_seen : Bool
  pub normalized_usage : Option NormalizedUsage
  pub usage_status : UsageStatus

-- `ResponseObservation::empty`.
abbrev pub empty_response : ObservationStatus → ResponseObservation
empty_response status = record {
  status = status;
  provider_response_id = none;
  model = none;
  created_at = none;
  response_state = unknown;
  incomplete_reason = none;
  error_code = none;
  raw_usage = none;
  compaction_output_seen = false;
  normalized_usage = none;
  usage_status = unavailable;
}

-- `json::validate_text`.
unfoldable pub validate_input : Bytes → ObservationLimits → Result ObservationError (Unit {0})
validate_input bytes l = do
  fail_if (ltb l.max_semantic_bytes (length bytes)) resource_limit
  fail_if (is_member 0 bytes || not (is_utf8 bytes)) invalid_text
  ok tt

unfoldable pub map_status : Bytes → ProviderResponseState
map_status status =
    if eq_bytes status (ascii "queued")
    then queued
    else if eq_bytes status (ascii "in_progress")
    then in_progress
    else if eq_bytes status (ascii "completed")
    then completed
    else if eq_bytes status (ascii "incomplete")
    then incomplete
    else if eq_bytes status (ascii "failed") || eq_bytes status (ascii "error")
    then failed
    else if eq_bytes status (ascii "cancelled") || eq_bytes status (ascii "canceled")
    then cancelled
    else unknown

abbrev whole_number : Option ℕ → Option ℕ × Bool
whole_number none = (none, true)
whole_number (some n) = (some n, false)

-- A value, and whether reading it made the extraction partial.
abbrev pub optional_u64 : Option Value → Option ℕ × Bool
optional_u64 none = (none, false)
optional_u64 (some null) = (none, false)
optional_u64 (some (number n)) = whole_number n.as_u64
optional_u64 (some _) = (none, true)

abbrev pub state_of : Option Value → ProviderResponseState × Bool
state_of none = (unknown, false)
state_of (some null) = (unknown, false)
state_of (some (string status)) = (map_status status, false)
state_of (some _) = (unknown, true)

abbrev detail_of : ℕ → Option Value → Bytes → Option Bytes × Bool
detail_of max none key = (none, false)
detail_of max (some null) key = (none, false)
detail_of max (some (object details)) key = keep_text max (get details key)
detail_of max (some _) key = (none, true)

abbrev is_unusable : UsageOutcome → Bool
is_unusable unusable = true
is_unusable _ = false

abbrev is_oversized : UsageOutcome → Bool
is_oversized oversized = true
is_oversized _ = false

unfoldable pub read_response : Readers → ObservationLimits → Bytes → Members → ResponseObservation
read_response readers l bytes members =
    let max = l.max_string_bytes in
    let (id, p1) = keep_text max (get members (ascii "id")) in
    let (model, p2) = keep_text max (get members (ascii "model")) in
    let (created_at, p3) = optional_u64 (get members (ascii "created_at")) in
    let (state, p4) = state_of (get members (ascii "status")) in
    let (reason, p5) = detail_of max (get members (ascii "incomplete_details")) (ascii "reason") in
    let (code, p6) = detail_of max (get members (ascii "error")) (ascii "code") in
    let usage = extract_usage readers.read_value members bytes l.max_usage_bytes in
    let is_partial = p1 || p2 || p3 || p4 || p5 || p6 || is_unusable usage.outcome in
    record {
      status =
          if is_oversized usage.outcome
          then resource_limit
          else if is_partial
          then partial
          else complete;
      provider_response_id = id;
      model = model;
      created_at = created_at;
      response_state = state;
      incomplete_reason = reason;
      error_code = code;
      raw_usage = usage.raw;
      compaction_output_seen =
          is_text (get members (ascii "type")) (ascii "compaction") || any_member members;
      normalized_usage = usage.normalized;
      usage_status = settle_usage_status usage.status (is_terminal_state state);
    }

abbrev pub read_parsed :
    Readers → ObservationLimits → Bytes → Result ObservationError Value → ResponseObservation
read_parsed readers l bytes (err e) = empty_response (status_for_error e)
read_parsed readers l bytes (ok (object members)) = read_response readers l bytes members
read_parsed readers l bytes (ok _) = empty_response malformed

unfoldable pub parse_response : Readers → Bytes → ObservationLimits → ResponseObservation
parse_response readers bytes l =
    read_parsed readers l bytes (validate_input bytes l >> parse_bounded readers.from_slice bytes l)
