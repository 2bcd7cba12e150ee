-- ===== src/Provider/Interpret.antt =====
-- crates/tracepress-provider/src/sse.rs and src/response.rs: what one event of a stream says.
use tracepress.Base.{
  ℕ, Bool, true, false, not, ◌&&◌, ◌||◌, Option, none, some, [], ◌∷◌, Bytes, ltb, leb, ◌==◌,
  if◌then◌else◌, eq_bytes, is_member, length, Result, ok, err,
}
use tracepress.Base.Ascii.{ascii}
use tracepress.Provider.Domain.{
  ObservationLimits, ObservationError, ObservationStatus, complete, partial, unsupported, malformed,
  resource_limit, observer_backpressure, ProviderResponseState, queued, in_progress, completed,
  incomplete, failed, cancelled, unknown, UsageStatus, unavailable, NormalizedUsage,
}
use tracepress.Provider.Json.{
  Value, null, string, array, object, Values, end_array, item, Members, end_object, member, get,
  FromSlice, parse_bounded,
}
use tracepress.Provider.Span.{member_span}
use tracepress.Provider.Usage.{
  ReadValue, UsageOutcome, absent, retained, unusable, oversized, UsageEvidence, extract_usage,
  settle_usage_status, is_terminal_state,
}
use tracepress.Provider.Sse.{SseEvent}

-- The fields of `StreamingObserver` and of its response that events decide: `status`, `evidence`,
-- `usage_evidence` and `terminal` of the observer, the others of the response. The provider, the
-- protocol and the parser version are constants, and a stream has no `created_at`.
pub record Interpretation : Type 0 where
  pub status : ObservationStatus
  pub evidence : Option ProviderResponseState
  pub usage_evidence : Option UsageStatus
  pub terminal : Bool
  pub provider_response_id : Option Bytes
  pub model : Option Bytes
  pub response_state : ProviderResponseState
  pub incomplete_reason : Option Bytes
  pub error_code : Option Bytes
  pub raw_usage : Option Bytes
  pub compaction_output_seen : Bool
  pub normalized_usage : Option NormalizedUsage
  pub usage_status : UsageStatus

-- `ResponseObservation::empty(Complete)` in a new observer.
abbrev pub empty : Interpretation
empty = record {
  status = complete;
  evidence = none;
  usage_evidence = none;
  terminal = false;
  provider_response_id = none;
  model = none;
  response_state = unknown;
  incomplete_reason = none;
  error_code = none;
  raw_usage = none;
  compaction_output_seen = false;
  normalized_usage = none;
  usage_status = unavailable;
}

abbrev pub severity : ObservationStatus → ℕ
severity complete = 0
severity partial = 1
severity unsupported = 2
severity cancelled = 3
severity observer_backpressure = 4
severity malformed = 5
severity resource_limit = 6

abbrev pub worse : ObservationStatus → ObservationStatus → ObservationStatus
worse status current = if ltb (severity current) (severity status) then status else current

abbrev pub degrade : ObservationStatus → Interpretation → Interpretation
degrade status i = record i { status = worse status i.status }

abbrev pub degrade_if : Bool → ObservationStatus → Interpretation → Interpretation
degrade_if b status i = record i { status = if b then worse status i.status else i.status }

-- `str::contains` and `str::starts_with`, on bytes.
abbrev starts_with : Bytes → Bytes → Bool
starts_with [] text = true
starts_with (x ∷ xs) [] = false
starts_with (x ∷ xs) (b ∷ text) = x == b && starts_with xs text

abbrev pub contains : Bytes → Bytes → Bool
contains [] needle = starts_with needle []
contains (b ∷ text) needle = starts_with needle (b ∷ text) || contains text needle

abbrev pub event_name_of : Option Bytes → Bytes
event_name_of none = []
event_name_of (some name) = name

pub lifecycle_of : Bytes → Option ProviderResponseState
lifecycle_of name =
    if eq_bytes name (ascii "response.created") || eq_bytes name (ascii "response.queued")
    then some queued
    else if eq_bytes name (ascii "response.in_progress")
    then some in_progress
    else if eq_bytes name (ascii "response.completed")
    then some completed
    else if eq_bytes name (ascii "response.incomplete")
    then some incomplete
    else if eq_bytes name (ascii "response.failed") || eq_bytes name (ascii "error")
    then some failed
    else if eq_bytes name (ascii "response.cancelled") || eq_bytes name (ascii "response.canceled")
    then some cancelled
    else none

-- `contains_compaction_item` and `contains_compaction_item_object`.
abbrev pub is_text : Option Value → Bytes → Bool
is_text (some (string s)) text = eq_bytes s text
is_text _ text = false

unfoldable mutual
  pub contains_compaction_item : Value → Bool
  contains_compaction_item (object members) =
      is_text (get members (ascii "type")) (ascii "compaction") || any_member members
  contains_compaction_item (array values) = any_item values
  contains_compaction_item _ = false

  any_item : Values → Bool
  any_item end_array = false
  any_item (item v vs) = contains_compaction_item v || any_item vs

  pub any_member : Members → Bool
  any_member end_object = false
  any_member (member _ v ms) = contains_compaction_item v || any_member ms

-- `StringExtraction::extract`: the string, and whether the extraction becomes partial.
abbrev pub keep_text : ℕ → Option Value → Option Bytes × Bool
keep_text max none = (none, false)
keep_text max (some null) = (none, false)
keep_text max (some (string s)) =
    if leb (length s) max && not (is_member 0 s) then (some s, false) else (none, true)
keep_text max (some _) = (none, true)

-- A field that is still absent is extracted.
abbrev unless_known : Option Bytes → Option Bytes × Bool → Option Bytes × Bool
unless_known (some known) found = (some known, false)
unless_known none found = found

-- A member of a nested object; anything else is passed over.
abbrev within_object : ℕ → Option Value → Bytes → Option Bytes × Bool
within_object max (some (object details)) key = keep_text max (get details key)
within_object max _ key = (none, false)

abbrev extract_fields : ObservationLimits → Members → Interpretation → Interpretation
extract_fields l members i =
    let max = l.max_string_bytes in
    let (id, p1) = unless_known i.provider_response_id (keep_text max (get members (ascii "id"))) in
    let (model, p2) = unless_known i.model (keep_text max (get members (ascii "model"))) in
    let (reason, p3) =
      unless_known i.incomplete_reason
        (within_object max (get members (ascii "incomplete_details")) (ascii "reason")) in
    let (code, p4) =
      unless_known i.error_code (within_object max (get members (ascii "error")) (ascii "code")) in
    degrade_if (p1 || p2 || p3 || p4) partial (record i {
      provider_response_id = id;
      model = model;
      incomplete_reason = reason;
      error_code = code;
    })

abbrev take_usage : UsageOutcome → UsageEvidence → Interpretation → Interpretation
take_usage retained u i = record i {
  usage_evidence = some u.status;
  normalized_usage = u.normalized;
  raw_usage = u.raw;
}
take_usage unusable u i = degrade partial i
take_usage oversized u i = degrade resource_limit i
take_usage absent u i = i

-- serde_json: the visitor's calls, and the plain reading of a value.
pub record Readers : Type 0 where
  pub from_slice : FromSlice
  pub read_value : ReadValue

abbrev interpret_object :
    Readers → ObservationLimits → Value → Bytes → Interpretation → Interpretation
interpret_object readers l (object members) object_bytes i =
    let usage = extract_usage readers.read_value members object_bytes l.max_usage_bytes in
    take_usage usage.outcome usage (extract_fields l members i)
interpret_object readers l _ object_bytes i = i

-- `payload.get(key)` of a value that may be no object.
abbrev get_of : Value → Bytes → Option Value
get_of (object members) key = get members key
get_of _ key = none

abbrev or_empty : Option Bytes → Bytes
or_empty none = []
or_empty (some bytes) = bytes

abbrev interpret_nested :
    Readers → ObservationLimits → Option Value → Value → Bytes → Interpretation → Interpretation
interpret_nested readers l (some nested) payload bytes i =
    interpret_object readers l nested (or_empty (member_span bytes (ascii "response"))) i
interpret_nested readers l none payload bytes i = interpret_object readers l payload bytes i

-- Terminal evidence freezes the interpretation.
abbrev report_state : ProviderResponseState → Interpretation → Interpretation
report_state state i =
    let t = is_terminal_state state in
    record i {
      evidence = if t then some state else i.evidence;
      response_state = state;
      terminal = t || i.terminal;
    }

abbrev report_lifecycle : Option ProviderResponseState → Interpretation → Interpretation
report_lifecycle none i = i
report_lifecycle (some state) i = report_state state i

abbrev pub has_evidence : Option ProviderResponseState → Bool
has_evidence none = false
has_evidence (some _) = true

abbrev pub settled_status : Option UsageStatus → Bool → UsageStatus
settled_status none confirmed = unavailable
settled_status (some status) confirmed = settle_usage_status status confirmed

abbrev lacks_usage : Option ProviderResponseState → UsageStatus → Bool
lacks_usage (some completed) unavailable = true
lacks_usage _ _ = false

abbrev conclude_event : Interpretation → Interpretation
conclude_event i =
    let status = settled_status i.usage_evidence (has_evidence i.evidence) in
    degrade_if (lacks_usage i.evidence status) partial (record i { usage_status = status })

abbrev status_of_payload_error : ObservationError → ObservationStatus
status_of_payload_error resource_limit = resource_limit
status_of_payload_error _ = partial

abbrev interpret_payload :
    Readers
    → ObservationLimits
    → Option ProviderResponseState
    → Bytes
    → Result ObservationError Value
    → Interpretation
    → Interpretation
interpret_payload readers l lifecycle bytes (err e) i =
    degrade_if (has_evidence lifecycle) (status_of_payload_error e) i
interpret_payload readers l lifecycle bytes (ok payload) i =
    let seen = i.compaction_output_seen || contains_compaction_item payload in
    conclude_event (
      report_lifecycle lifecycle (
        interpret_nested readers l (get_of payload (ascii "response")) payload bytes
          (record i { compaction_output_seen = seen })))

-- `observe_event`, but for the readings of the clock.
pub interpret_event : Readers → ObservationLimits → SseEvent → Interpretation → Interpretation
interpret_event readers l e i =
    interpret_payload readers l (lifecycle_of (event_name_of e.event)) e.«data»
      (parse_bounded readers.from_slice e.«data» l) i
