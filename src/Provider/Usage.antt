-- ===== src/Provider/Usage.antt =====
-- crates/tracepress-provider/src/response.rs: the usage that a provider reports, kept and
-- normalized.
pub mod Consistency
use tracepress.Base.{
  ℕ, ◌-◌, Bool, true, false, not, ◌||◌, Option, none, some, [], ◌∷◌, Bytes, ltb, leb, ◌==◌,
  if◌then◌else◌, checked_add, length, Result, ◌>>=◌, ◌>>◌, fail_if, ok, err,
}
use tracepress.Base.Int.{ℤ, pos, negsuc}
use tracepress.Base.Ascii.{ascii}
use tracepress.Provider.Domain.{
  UsageStatus, final, partial, unavailable, UsageError, resource_limit, malformed, AnomalyFlags,
  no_anomalies, any, NormalizedUsage, ProviderResponseState, completed, incomplete, failed,
  cancelled,
}
use tracepress.Provider.Json.{Number, Value, null, number, object, Members, get}
use tracepress.Provider.Span.{member_span}

-- A value, and the anomalies with those that reading it added.
abbrev pub Reading : Type 0
Reading = AnomalyFlags × Option ℕ

abbrev mark_invalid : AnomalyFlags → Reading
mark_invalid flags = (record flags { invalid_number = true }, none)

abbrev overflowed : AnomalyFlags → Reading
overflowed flags = (record flags { overflow = true }, none)

abbrev durable_float : Number → AnomalyFlags → Reading
durable_float n flags = if n.has_durable_magnitude then mark_invalid flags else overflowed flags

abbrev durable_unsigned : Number → Option ℕ → AnomalyFlags → Reading
durable_unsigned n (some _) flags = overflowed flags
durable_unsigned n none flags = durable_float n flags

abbrev durable_signed : Number → Option ℤ → AnomalyFlags → Reading
durable_signed n (some (negsuc _)) flags = mark_invalid flags
durable_signed n (some (pos value)) flags = (flags, some value)
durable_signed n none flags = durable_unsigned n n.as_u64 flags

abbrev pub durable_count : Number → AnomalyFlags → Reading
durable_count n flags = durable_signed n n.as_i64 flags

-- `number` of the code.
abbrev pub count_of : Option Value → AnomalyFlags → Reading
count_of none flags = (flags, none)
count_of (some null) flags = (flags, none)
count_of (some (number n)) flags = durable_count n flags
count_of (some _) flags = mark_invalid flags

abbrev nested_in : Option Value → Bytes → AnomalyFlags → Reading
nested_in none key flags = (flags, none)
nested_in (some null) key flags = (flags, none)
nested_in (some (object members)) key flags = count_of (get members key) flags
nested_in (some _) key flags = mark_invalid flags

abbrev pub nested_number : Members → Bytes → Bytes → AnomalyFlags → Reading
nested_number members parent key flags = nested_in (get members parent) key flags

-- `or_else`: the second reading, with its anomalies, when the first gives none.
abbrev or_else : Reading → (AnomalyFlags → Reading) → Reading
or_else (flags, some n) second = (flags, some n)
or_else (flags, none) second = second flags

-- The `match` on the input and its cached part.
abbrev uncached : Option ℕ → Option ℕ → AnomalyFlags → Reading
uncached (some total) (some cached) flags =
    if leb cached total
    then (flags, some (total - cached))
    else (record flags { cached_exceeds_input = true }, none)
uncached _ _ flags = (flags, none)

abbrev check_reasoning : Option ℕ → Option ℕ → AnomalyFlags → AnomalyFlags
check_reasoning (some output) (some reasoning) flags =
    if ltb output reasoning then record flags { reasoning_exceeds_output = true } else flags
check_reasoning _ _ flags = flags

abbrev is_sum : ℕ → Option ℕ → Bool
is_sum total none = false
is_sum total (some sum) = sum == total

abbrev check_total : Option ℕ → Option ℕ → Option ℕ → AnomalyFlags → AnomalyFlags
check_total (some total) (some input) (some output) flags =
    if is_sum total (checked_add input output)
    then flags
    else record flags { inconsistent_total = true }
check_total _ _ _ flags = flags

abbrev has_some : Option ℕ → Bool
has_some none = false
has_some (some _) = true

abbrev status_of_usage : Bool → AnomalyFlags → UsageStatus
status_of_usage reported flags =
    if not reported then unavailable else if any flags then partial else final

-- What follows the reading of the six numbers.
unfoldable pub normalize_components :
    AnomalyFlags → Option ℕ → Option ℕ → Option ℕ → Option ℕ → Option ℕ → Option ℕ → NormalizedUsage
normalize_components flags input_total input_cached cache_write output_total output_reasoning
      total =
    let (flags1, input_uncached) = uncached input_total input_cached flags in
    let flags2 = check_reasoning output_total output_reasoning flags1 in
    let anomalies = check_total total input_total output_total flags2 in
    let reported =
      has_some input_total
      || has_some input_cached
      || has_some cache_write
      || has_some output_total
      || has_some output_reasoning
      || has_some total in
    record {
      input_total = input_total;
      input_cached = input_cached;
      input_uncached = input_uncached;
      cache_write = cache_write;
      output_total = output_total;
      output_reasoning = output_reasoning;
      total = total;
      status = status_of_usage reported anomalies;
      anomalies = anomalies;
    }

abbrev unavailable_with_anomalies : AnomalyFlags → NormalizedUsage
unavailable_with_anomalies flags = record {
  input_total = none;
  input_cached = none;
  input_uncached = none;
  cache_write = none;
  output_total = none;
  output_reasoning = none;
  total = none;
  status = unavailable;
  anomalies = flags;
}

unfoldable pub normalize_members : Members → NormalizedUsage
normalize_members members =
    let (f1, input_total) = count_of (get members (ascii "input_tokens")) no_anomalies in
    let (f2, input_cached) =
      nested_number members (ascii "input_tokens_details") (ascii "cached_tokens") f1 in
    let (f3, cache_write) =
      or_else (nested_number members (ascii "input_tokens_details") (ascii "cache_write_tokens") f2)
        (nested_number members (ascii "input_tokens_details") (ascii "cache_write")) in
    let (f4, output_total) = count_of (get members (ascii "output_tokens")) f3 in
    let (f5, output_reasoning) =
      nested_number members (ascii "output_tokens_details") (ascii "reasoning_tokens") f4 in
    let (f6, total) = count_of (get members (ascii "total_tokens")) f5 in
    normalize_components f6 input_total input_cached cache_write output_total output_reasoning total

-- `serde_json::from_slice::<Value>` is a parameter.
abbrev pub ReadValue : Type 0
ReadValue = Bytes → Option Value

abbrev pub normalize_value : Option Value → NormalizedUsage
normalize_value (some (object members)) = normalize_members members
normalize_value _ = unavailable_with_anomalies (record no_anomalies { invalid_number = true })

unfoldable pub normalize_usage : ReadValue → Bytes → NormalizedUsage
normalize_usage read_value raw = normalize_value (read_value raw)

abbrev starts_object : Bytes → Bool
starts_object [] = false
starts_object (b ∷ _) = b == 0x7b

abbrev is_value : Option Value → Bool
is_value none = false
is_value (some _) = true

-- `RawProviderUsage::new`; the value is its bytes.
unfoldable pub raw_provider_usage : ReadValue → Bytes → ℕ → Result UsageError Bytes
raw_provider_usage read_value bytes max_bytes = do
  fail_if (ltb max_bytes (length bytes)) resource_limit
  fail_if (not (starts_object bytes) || not (is_value (read_value bytes))) malformed
  ok bytes

pub data UsageOutcome : Type 0 where
  absent retained unusable oversized : UsageOutcome

pub record UsageEvidence : Type 0 where
  pub raw : Option Bytes
  pub normalized : Option NormalizedUsage
  pub status : UsageStatus
  pub outcome : UsageOutcome

abbrev without_usage : UsageOutcome → UsageStatus → UsageEvidence
without_usage outcome status = record {
  raw = none;
  normalized = none;
  status = status;
  outcome = outcome;
}

abbrev pub retain : ReadValue → Result UsageError Bytes → UsageEvidence
retain read_value (ok raw) =
    let normalized = normalize_usage read_value raw in
    record {
      raw = some raw;
      normalized = some normalized;
      status = normalized.status;
      outcome = retained;
    }
retain read_value (err resource_limit) = without_usage oversized unavailable
retain read_value (err malformed) = without_usage unusable partial

abbrev pub extract_span : ReadValue → ℕ → Option Bytes → UsageEvidence
extract_span read_value max_usage_bytes none = without_usage unusable partial
extract_span read_value max_usage_bytes (some bytes) =
    retain read_value (raw_provider_usage read_value bytes max_usage_bytes)

abbrev pub extract_member : ReadValue → Option Value → Bytes → ℕ → UsageEvidence
extract_member read_value none object_bytes max = without_usage absent unavailable
extract_member read_value (some null) object_bytes max = without_usage absent unavailable
extract_member read_value (some (object _)) object_bytes max =
    extract_span read_value max (member_span object_bytes (ascii "usage"))
extract_member read_value (some _) object_bytes max = without_usage unusable partial

unfoldable pub extract_usage : ReadValue → Members → Bytes → ℕ → UsageEvidence
extract_usage read_value members object_bytes max_usage_bytes =
    extract_member read_value (get members (ascii "usage")) object_bytes max_usage_bytes

abbrev pub settle_usage_status : UsageStatus → Bool → UsageStatus
settle_usage_status final terminal = if terminal then final else partial
settle_usage_status partial terminal = partial
settle_usage_status unavailable terminal = unavailable

abbrev pub is_terminal_state : ProviderResponseState → Bool
is_terminal_state completed = true
is_terminal_state incomplete = true
is_terminal_state failed = true
is_terminal_state cancelled = true
is_terminal_state _ = false
