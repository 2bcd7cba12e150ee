-- ===== src/Provider/Response/Final.antt =====
-- When a whole response reports final usage.
use tracepress.Base.{
  ◌≤◌, ◌≡◌, refl, Bool, true, some, arith, Bytes, length, Result, >>=-eq-ok, ◌>>◌, ok, err,
}
use tracepress.Base.Ascii.{ascii}
use tracepress.Provider.Domain.{
  ObservationLimits, ObservationError, UsageStatus, final, NormalizedUsage,
}
use tracepress.Provider.Json.{
  Value, null, boolean, number, string, array, object, Members, get, parse_bounded,
}
use tracepress.Provider.Span.Members.{IsSlice}
use tracepress.Provider.Usage.{settle_usage_status, is_terminal_state, extract_usage}
use tracepress.Provider.Usage.Consistency.{IsConsistent, extract_usage-IsKept}
use tracepress.Provider.Interpret.{Readers}
use tracepress.Provider.Response.{
  ResponseObservation, validate_input, state_of, read_response, read_parsed, parse_response,
}

-- The usage of a response that ended, kept as it stands in the document.
abbrev pub IsFinal : Bytes → ObservationLimits → ResponseObservation → Type 0
IsFinal bytes l r =
    (is_terminal_state r.response_state ≡ true)
    × (length bytes ≤ l.max_semantic_bytes)
    × (raw : Bytes) × (usage : NormalizedUsage) × (r.raw_usage ≡ some raw)
    × (r.normalized_usage ≡ some usage)
    × IsSlice raw bytes
    × (length raw ≤ l.max_usage_bytes)
    × IsConsistent usage

settled_final :
    (status : UsageStatus) (terminal : Bool)
    → settle_usage_status status terminal ≡ final
    → (status ≡ final) × (terminal ≡ true)
settled_final status terminal e = ground arith

validate_input-ok :
    (bytes : Bytes) (l : ObservationLimits)
    → validate_input bytes l ≡ ok tt
    → length bytes ≤ l.max_semantic_bytes
unfolding validate_input
validate_input-ok bytes l e = ground arith

read_response_final :
    (readers : Readers) (l : ObservationLimits) (bytes : Bytes) (members : Members)
    → length bytes ≤ l.max_semantic_bytes
    → (read_response readers l bytes members).usage_status ≡ final
    → IsFinal bytes l (read_response readers l bytes members)
unfolding read_response
read_response_final readers l bytes members short e =
    let usage = extract_usage readers.read_value members bytes l.max_usage_bytes in
    let (reported, ended) =
      settled_final usage.status (is_terminal_state (state_of (get members (ascii "status"))).0)
        e in
    let (raw, normalized, kept, read, sliced, fits, consistent) =
      extract_usage-IsKept readers.read_value members bytes l.max_usage_bytes reported in
    (ended, short, raw, normalized, kept, read, sliced, fits, consistent)

read_parsed_final :
    (readers : Readers) (l : ObservationLimits) (bytes : Bytes) (r : Result ObservationError Value)
    → ((v : Value) → r ≡ ok v → length bytes ≤ l.max_semantic_bytes)
    → (read_parsed readers l bytes r).usage_status ≡ final
    → IsFinal bytes l (read_parsed readers l bytes r)
read_parsed_final readers l bytes (ok (object members)) short e =
    read_response_final readers l bytes members (short (object members) refl) e
read_parsed_final readers l bytes (err _) short e = absurd cc
read_parsed_final readers l bytes (ok null) short e = absurd cc
read_parsed_final readers l bytes (ok (boolean _)) short e = absurd cc
read_parsed_final readers l bytes (ok (number _)) short e = absurd cc
read_parsed_final readers l bytes (ok (string _)) short e = absurd cc
read_parsed_final readers l bytes (ok (array _)) short e = absurd cc

-- For every reading of serde_json, every document and all limits: when `parse_response` calls the
-- usage final, the provider reported an end of its work, the document is within its limit, the raw
-- usage is a part of the document, not empty and within its limit, and its numbers are consistent.
pub parse_response-IsFinal :
    (readers : Readers) (bytes : Bytes) (l : ObservationLimits)
    → (parse_response readers bytes l).usage_status ≡ final
    → IsFinal bytes l (parse_response readers bytes l)
unfolding parse_response
parse_response-IsFinal readers bytes l =
    read_parsed_final readers l bytes
      (validate_input bytes l >> parse_bounded readers.from_slice bytes l)
      (λ v e.
        let (_, valid, _) = >>=-eq-ok (validate_input bytes l) _ e in
        validate_input-ok bytes l valid)
