-- ===== src/Provider/Usage/Consistency.antt =====
-- What a usage that is called final satisfies, and what a retained usage is.
use tracepress.Base.{
  ℕ, ◌+◌, ◌-◌, ◌≤◌, ◌≡◌, refl, sym, subst, false, Option, none, some, arith, Bytes, length, Result,
  ok, err,
}
use tracepress.Base.Ascii.{ascii}
use tracepress.Provider.Domain.{
  final, AnomalyFlags, any, NormalizedUsage, UsageError, resource_limit, malformed,
}
use tracepress.Provider.Json.{Value, null, boolean, number, string, array, object, Members, get}
use tracepress.Provider.Span.{member_span}
use tracepress.Provider.Span.Members.{IsSlice, member_span-IsSlice}
use tracepress.Provider.Usage.{
  normalize_components, normalize_members, ReadValue, normalize_usage, raw_provider_usage,
  UsageEvidence, extract_usage, normalize_value, retain, extract_span, extract_member,
}

-- The cached part is within the input, and the rest of the input is the other part.
abbrev pub CachedFits : Option ℕ → Option ℕ → Option ℕ → Type 0
CachedFits (some total) (some cached) rest = (cached ≤ total) × (rest ≡ some (total - cached))
CachedFits _ _ rest = rest ≡ none

abbrev pub ReasoningFits : Option ℕ → Option ℕ → Type 0
ReasoningFits (some output) (some reasoning) = reasoning ≤ output
ReasoningFits _ _ = Unit

abbrev pub TotalFits : Option ℕ → Option ℕ → Option ℕ → Type 0
TotalFits (some total) (some input) (some output) = total ≡ input + output
TotalFits _ _ _ = Unit

abbrev pub IsConsistent : NormalizedUsage → Type 0
IsConsistent u =
    CachedFits u.input_total u.input_cached u.input_uncached
    × ReasoningFits u.output_total u.output_reasoning
    × TotalFits u.total u.input_total u.output_total
    × (any u.anomalies ≡ false)

normalize_components-IsConsistent :
    (flags : AnomalyFlags) (i c w o r t : Option ℕ)
    → (normalize_components flags i c w o r t).status ≡ final
    → IsConsistent (normalize_components flags i c w o r t)
unfolding normalize_components
normalize_components-IsConsistent flags i c w o r t e = ground arith

normalize_value-IsConsistent :
    (o : Option Value) → (normalize_value o).status ≡ final → IsConsistent (normalize_value o)
unfolding normalize_members
normalize_value-IsConsistent (some (object members)) e =
    normalize_components-IsConsistent _ _ _ _ _ _ _ e
normalize_value-IsConsistent (some null) e = absurd cc
normalize_value-IsConsistent (some (boolean _)) e = absurd cc
normalize_value-IsConsistent (some (number _)) e = absurd cc
normalize_value-IsConsistent (some (string _)) e = absurd cc
normalize_value-IsConsistent (some (array _)) e = absurd cc
normalize_value-IsConsistent none e = absurd cc

normalize_usage-IsConsistent :
    (read_value : ReadValue) (raw : Bytes)
    → (normalize_usage read_value raw).status ≡ final
    → IsConsistent (normalize_usage read_value raw)
unfolding normalize_usage
normalize_usage-IsConsistent read_value raw = normalize_value-IsConsistent (read_value raw)

-- A usage that is called final is kept as it stands in the input, within the limit.
abbrev pub IsKept : Bytes → ℕ → UsageEvidence → Type 0
IsKept object_bytes max u =
    (raw : Bytes) × (usage : NormalizedUsage) × (u.raw ≡ some raw)
    × (u.normalized ≡ some usage)
    × IsSlice raw object_bytes
    × (length raw ≤ max)
    × IsConsistent usage

raw_provider_usage-ok :
    (read_value : ReadValue) (bytes raw : Bytes) (max : ℕ)
    → raw_provider_usage read_value bytes max ≡ ok raw
    → (raw ≡ bytes) × (length bytes ≤ max)
unfolding raw_provider_usage
raw_provider_usage-ok read_value bytes raw max e = ground arith

retain-IsKept :
    (read_value : ReadValue) (object_bytes : Bytes) (max : ℕ) (r : Result UsageError Bytes)
    → ((raw : Bytes) → r ≡ ok raw → IsSlice raw object_bytes × (length raw ≤ max))
    → (retain read_value r).status ≡ final
    → IsKept object_bytes max (retain read_value r)
retain-IsKept read_value object_bytes max (ok raw) within e =
    let (sliced, fits) = within raw refl in
    (
      raw,
      normalize_usage read_value raw,
      refl,
      refl,
      sliced,
      fits,
      normalize_usage-IsConsistent read_value raw e,
    )
retain-IsKept read_value object_bytes max (err resource_limit) within e = absurd cc
retain-IsKept read_value object_bytes max (err malformed) within e = absurd cc

extract_span-IsKept :
    (read_value : ReadValue) (object_bytes : Bytes) (max : ℕ) (o : Option Bytes)
    → ((span : Bytes) → o ≡ some span → IsSlice span object_bytes)
    → (extract_span read_value max o).status ≡ final
    → IsKept object_bytes max (extract_span read_value max o)
extract_span-IsKept read_value object_bytes max none sliced e = absurd cc
extract_span-IsKept read_value object_bytes max (some span) sliced e =
    retain-IsKept read_value object_bytes max (raw_provider_usage read_value span max)
      (λ raw kept.
        let (same, fits) = raw_provider_usage-ok read_value span raw max kept in
        (subst (λ w. IsSlice w object_bytes) (sym same) (sliced span refl), rw same fits))
      e

extract_member-IsKept :
    (read_value : ReadValue) (o : Option Value) (object_bytes : Bytes) (max : ℕ)
    → (extract_member read_value o object_bytes max).status ≡ final
    → IsKept object_bytes max (extract_member read_value o object_bytes max)
extract_member-IsKept read_value (some (object _)) object_bytes max e =
    extract_span-IsKept read_value object_bytes max (member_span object_bytes (ascii "usage"))
      (λ span. member_span-IsSlice object_bytes (ascii "usage") span) e
extract_member-IsKept read_value none object_bytes max e = absurd cc
extract_member-IsKept read_value (some null) object_bytes max e = absurd cc
extract_member-IsKept read_value (some (boolean _)) object_bytes max e = absurd cc
extract_member-IsKept read_value (some (number _)) object_bytes max e = absurd cc
extract_member-IsKept read_value (some (string _)) object_bytes max e = absurd cc
extract_member-IsKept read_value (some (array _)) object_bytes max e = absurd cc

-- For every reading of serde_json, every object and every limit: when the usage of a response
-- object is called final, its raw bytes are a part of the bytes of the object, not empty and within
-- the limit, and its numbers are consistent: the cached input is within the input and the uncached
-- input is the rest, reasoning output is within the output, a total is the sum of input and output
-- where all three are reported, and no anomaly is set.
pub extract_usage-IsKept :
    (read_value : ReadValue) (members : Members) (object_bytes : Bytes) (max : ℕ)
    → (extract_usage read_value members object_bytes max).status ≡ final
    → IsKept object_bytes max (extract_usage read_value members object_bytes max)
unfolding extract_usage
extract_usage-IsKept read_value members object_bytes max =
    extract_member-IsKept read_value (get members (ascii "usage")) object_bytes max
