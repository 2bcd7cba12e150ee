-- ===== src/Provider/Tests.antt =====
-- Runs of crates/tracepress-provider on small inputs.
use tracepress.Base.{
  ℕ, ◌+◌, ◌≤◌, ◌<◌, ◌≡◌, refl, true, false, Option, none, some, List, [], ◌∷◌, ◌++◌, arith, Bytes,
  eq_bytes, length, All, is_utf8, ok,
}
use tracepress.Base.Int.{pos}
use tracepress.Base.Ascii.{ascii}
use tracepress.Provider.Domain.{ObservationLimits, final, completed}
use tracepress.Provider.Json.{
  Number, Value, null, number, array, object, item, end_array, Members, member, end_object, unit,
  sequence, entries, element, end_sequence, end_entries, FromSlice, get, add_item, enter, visit,
  parse_bounded, string, Entries, entry,
}
use tracepress.Provider.Json.Shape.{count, nesting, HasDistinctKeys}
use tracepress.Provider.Json.Bounds.{parse_bounded-IsBounded}
use tracepress.Provider.Span.{
  skip_ascii_whitespace, string_contents, scan_container, value_length, json_value_span,
  read_member, find_member, member_span,
}
use tracepress.Provider.Span.Members.{find_member_enough}
use tracepress.Provider.Usage.{
  ReadValue, normalize_components, normalize_members, normalize_usage, raw_provider_usage,
  extract_usage,
}
use tracepress.Provider.Usage.Consistency.{IsKept, extract_usage-IsKept}
use tracepress.Provider.Sse.{SseEvent, session, push, push_all}
use tracepress.Provider.Sse.Text.{print_all}
use tracepress.Provider.Sse.Printed.{session-print_all}
use tracepress.Provider.Sse
use tracepress.Provider.Sse.Fragments.{all_bytes, push_all_fragments}
use tracepress.Provider.Sse.Bounds.{EventFits}
use tracepress.Provider.Sse.Session.{session-IsBounded}
use tracepress.Provider.Sse.Failure.{IsSettled, push-IsSettled}
use tracepress.Provider.Interpret.{empty, Readers, contains_compaction_item}
use tracepress.Provider.Request.{parse_request}
use tracepress.Provider.Request.Counts.{IsCounted, parse_request-IsCounted}
use tracepress.Provider.Response.{validate_input, map_status, read_response, parse_response}
use tracepress.Provider.Response.Final.{IsFinal, parse_response-IsFinal}
use tracepress.Provider.Observer.{
  StreamingObserver, new, Clock, finishes, cancels, end_with, observe_stream,
}
use tracepress.Provider.Observer.Streams.{observation, observation-fragments, observation_frozen}

abbrev limits : ObservationLimits
limits = record {
  max_semantic_bytes = 512;
  max_usage_bytes = 64;
  max_sse_event_bytes = 64;
  max_sse_events = 4;
  max_json_depth = 2;
  max_json_items = 4;
  max_string_bytes = 32;
}

-- An event and the end of its data, in three fragments or in one.
abbrev opening : Bytes
opening = ascii "event: response.comp"

abbrev middle : Bytes
middle = ascii "leted" ++ (0x0d ∷ [])

abbrev closing : Bytes
closing = 0x0a ∷ ascii "data: {}" ++ (0x0a ∷ 0x0a ∷ [])

abbrev cut : List Bytes
cut = opening ∷ middle ∷ closing ∷ []

abbrev whole : List Bytes
whole = (opening ++ middle ++ closing) ∷ []

push_all_fragments_example : push_all (Sse.new limits) cut ≡ push_all (Sse.new limits) whole
unfolding all_bytes
push_all_fragments_example = push_all_fragments (Sse.new limits) cut whole refl

session-IsBounded_example :
    let (s, events) = session limits cut in
    (length s.line + length s.«data» ≤ 64)
    × All (EventFits limits) events
    × (length events ≤ 4)
    × (length events ≡ s.event_count)
session-IsBounded_example = session-IsBounded limits cut

push-IsSettled_example : IsSettled (push (push_all (Sse.new limits) cut).0 opening)
push-IsSettled_example = push-IsSettled limits cut opening

-- A reading of every input as `[null]`, or as an object without members.
abbrev read_array : FromSlice
read_array _ = (sequence (element unit end_sequence), true)

abbrev one_null : Value
one_null = array (item null end_array)

parse_bounded-array : parse_bounded read_array (ascii "[null]") limits ≡ ok one_null
unfolding parse_bounded visit add_item enter
parse_bounded-array = refl

parse_bounded-IsBounded_example :
    (count one_null ≤ 4) × (nesting one_null ≤ 2) × HasDistinctKeys one_null
parse_bounded-IsBounded_example =
    parse_bounded-IsBounded read_array (ascii "[null]") limits one_null (omega arith) (omega arith)
      parse_bounded-array

-- `{"usage": {"input_tokens":7}}`
abbrev quoted : Bytes → Bytes
quoted text = 0x22 ∷ text ++ (0x22 ∷ [])

abbrev usage_text : Bytes
usage_text = ascii "{" ++ quoted (ascii "input_tokens") ++ ascii ":7}"

abbrev response_text : Bytes
response_text = ascii "{" ++ quoted (ascii "usage") ++ ascii ": " ++ usage_text ++ ascii "}"

member_span-usage : member_span response_text (ascii "usage") ≡ some usage_text
unfolding member_span find_member read_member json_value_span value_length scan_container
    string_contents skip_ascii_whitespace eq_bytes
member_span-usage = refl

find_member_enough_example :
    (answer : Option Bytes) × ((fuel : ℕ)
      → length (quoted (ascii "a") ++ ascii ":1}") < fuel
      → find_member fuel (quoted (ascii "a") ++ ascii ":1}") (ascii "b") ≡ some answer)
find_member_enough_example = find_member_enough (quoted (ascii "a") ++ ascii ":1}") (ascii "b")

abbrev seven : Number
seven = record { as_i64 = some (pos 7); as_u64 = some 7; has_durable_magnitude = true }

abbrev usage_members : Members
usage_members = member (ascii "input_tokens") (number seven) end_object

abbrev response_members : Members
response_members = member (ascii "usage") (object usage_members) end_object

abbrev read_usage : ReadValue
read_usage _ = some (object usage_members)

extract_usage-final : (extract_usage read_usage response_members response_text 64).status ≡ final
unfolding extract_usage get eq_bytes member_span find_member read_member json_value_span
    value_length scan_container string_contents skip_ascii_whitespace raw_provider_usage
    normalize_usage normalize_members normalize_components
extract_usage-final = refl

extract_usage-IsKept_example :
    IsKept response_text 64 (extract_usage read_usage response_members response_text 64)
extract_usage-IsKept_example =
    extract_usage-IsKept read_usage response_members response_text 64 extract_usage-final

abbrev readers : Readers
readers = record { from_slice = λ _. (entries end_entries, true); read_value = read_usage }

abbrev clock : Clock
clock n = some n

abbrev late_clock : Clock
late_clock n = none

abbrev cut_stream : List (Clock × Bytes)
cut_stream = (clock, opening) ∷ (late_clock, middle) ∷ (clock, closing) ∷ []

abbrev whole_stream : List (Clock × Bytes)
whole_stream = (late_clock, opening ++ middle ++ closing) ∷ []

observation-fragments_example :
    ((observation readers limits cut_stream finishes clock none).interpretation
      ≡ (observation readers limits whole_stream finishes late_clock (some 9)).interpretation)
    × ((observe_stream readers cut_stream (new limits)).measures.byte_count ≡ some 37)
    × ((observe_stream readers whole_stream (new limits)).measures.byte_count ≡ some 37)
unfolding all_bytes
observation-fragments_example =
    observation-fragments readers limits cut_stream whole_stream finishes clock late_clock none
      (some 9) refl (omega arith) (omega arith) (omega arith)

-- An observer whose provider reported the completion.
abbrev completed_observer : StreamingObserver
completed_observer = record {
  framer = Sse.new limits;
  interpretation = record empty {
    evidence = some completed;
    response_state = completed;
    terminal = true;
  };
  measures = record {
    chunk_count = some 1;
    byte_count = some 30;
    ttfb_us = some 3;
    ttft_us = none;
    duration_us = some 4;
  };
  settled = false;
}

observation_frozen_example :
    (end_with cancels readers clock none
      (observe_stream readers cut_stream completed_observer)).interpretation
    ≡ completed_observer.interpretation
unfolding all_bytes
observation_frozen_example =
    observation_frozen readers completed_observer completed 1 30 cut_stream cancels clock none refl
      refl refl (refl, refl) (omega arith) (omega arith)

-- `{"status":"completed","usage":{"input_tokens":7}}`
abbrev document_text : Bytes
document_text =
    ascii "{"
    ++ quoted (ascii "status")
    ++ ascii ":"
    ++ quoted (ascii "completed")
    ++ ascii ","
    ++ quoted (ascii "usage")
    ++ ascii ":"
    ++ usage_text
    ++ ascii "}"

abbrev usage_entries : Entries
usage_entries = entry (ascii "input_tokens") (number (some seven)) end_entries

abbrev document_readers : Readers
document_readers = record {
  from_slice = λ _. (
    entries (
        entry (ascii "status") (string (ascii "completed"))
          (entry (ascii "usage") (entries usage_entries) end_entries)),
    true,
  );
  read_value = read_usage;
}

parse_response-completed :
    (parse_response document_readers document_text limits).usage_status ≡ final
unfolding parse_response read_response validate_input is_utf8 map_status contains_compaction_item
    parse_bounded visit add_item enter extract_usage get eq_bytes member_span find_member
    read_member json_value_span value_length scan_container string_contents skip_ascii_whitespace
    raw_provider_usage normalize_usage normalize_members normalize_components
parse_response-completed = refl

parse_response-IsFinal_example :
    IsFinal document_text limits (parse_response document_readers document_text limits)
parse_response-IsFinal_example =
    parse_response-IsFinal document_readers document_text limits parse_response-completed

-- `{"input":[{"content":[{"type":"text"}]}]}`
abbrev request_entries : Entries
request_entries =
    entry (ascii "input")
      (sequence (
        element
          (entries (
            entry (ascii "content")
              (sequence (
                element (entries (entry (ascii "type") (string (ascii "text")) end_entries))
                  end_sequence))
              end_entries))
          end_sequence))
      end_entries

abbrev deep_limits : ObservationLimits
deep_limits = record limits { max_json_depth = 8; max_json_items = 9 }

abbrev read_request_text : FromSlice
read_request_text _ = (entries request_entries, true)

parse_request-IsCounted_example :
    IsCounted 9 (parse_request read_request_text (ascii "{}") deep_limits)
parse_request-IsCounted_example =
    parse_request-IsCounted read_request_text (ascii "{}") deep_limits (omega arith) (omega arith)

-- Two events, and their text in two chunks.
abbrev sent : List SseEvent
sent =
    record { event = some (ascii "a"); «data» = ascii "{}" }
    ∷ record { event = none; «data» = ascii "x" }
    ∷ []

abbrev chunks : List Bytes
chunks =
    (ascii "event: a" ++ 10 ∷ ascii "da")
    ∷ (ascii "ta: {}" ++ 10 ∷ 10 ∷ ascii "data: x" ++ 10 ∷ 10 ∷ [])
    ∷ []

session-print_all_example : (session limits chunks).1 ≡ sent
unfolding all_bytes print_all is_utf8
session-print_all_example =
    session-print_all limits sent chunks refl
      (
        (
          (((refl, refl), tt), refl, omega arith),
          ((refl, refl), ((refl, refl), tt)),
          omega arith,
          refl,
        ),
        ((tt, ((refl, refl), tt), omega arith, refl), tt),
      )
      (omega arith) (omega arith) (omega arith)
