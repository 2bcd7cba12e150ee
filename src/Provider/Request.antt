-- ===== src/Provider/Request.antt =====
-- crates/tracepress-provider/src/request.rs: what a request says of itself, without its content.

mod Blocks
pub mod Counts
use tracepress.Base.{
  ℕ, suc, Bool, true, false, ◌||◌, Option, none, some, Bytes, ltb, if◌then◌else◌, u64_max,
  checked_add, eq_bytes, length, Result, ◌>>◌, ok, err,
}
use tracepress.Base.Ascii.{ascii}
use tracepress.Provider.Domain.{
  ObservationLimits, ObservationError, ObservationStatus, complete, partial, unsupported, malformed,
  status_for_error, CompactionTrigger, unknown, responses_trigger_v2, ProviderRequestKind, turn,
  compaction, compaction_trigger_of, ProviderTransport, open_ai_public_api, ContentEncoding,
  identity,
}
use tracepress.Provider.Json.{
  Value, null, boolean, string, array, object, Values, end_array, item, Members, get, FromSlice,
  parse_bounded,
}
use tracepress.Provider.Interpret.{keep_text, is_text}
use tracepress.Provider.Response.{validate_input}

-- The provider, the protocol and the parser version are constants. What the proxy adds later, the
-- digest of the body and the report of its decoder, is none here.
pub record RequestObservation : Type 0 where
  pub transport : ProviderTransport
  pub request_kind : ProviderRequestKind
  pub compaction_trigger : Option CompactionTrigger
  pub endpoint_profile_version : Option ℕ
  pub status : ObservationStatus
  pub request_bytes : Option ℕ
  pub wire_bytes : Option ℕ
  pub decoded_bytes : Option ℕ
  pub content_encoding : ContentEncoding
  pub model : Option Bytes
  pub stream : Option Bool
  pub background : Option Bool
  pub store : Option Bool
  pub reasoning_effort : Option Bytes
  pub verbosity : Option Bytes
  pub truncation : Option Bytes
  pub has_previous_response_id : Bool
  pub input_item_count : Option ℕ
  pub tool_count : Option ℕ
  pub text_input_blocks : Option ℕ
  pub image_input_blocks : Option ℕ
  pub file_input_blocks : Option ℕ

-- `RequestObservation::empty`.
pub empty_request : ObservationStatus → RequestObservation
empty_request status = record {
  transport = open_ai_public_api;
  request_kind = turn;
  compaction_trigger = none;
  endpoint_profile_version = none;
  status = status;
  request_bytes = none;
  wire_bytes = none;
  decoded_bytes = none;
  content_encoding = identity;
  model = none;
  stream = none;
  background = none;
  store = none;
  reasoning_effort = none;
  verbosity = none;
  truncation = none;
  has_previous_response_id = false;
  input_item_count = none;
  tool_count = none;
  text_input_blocks = none;
  image_input_blocks = none;
  file_input_blocks = none;
}

pub transport_only :
    ProviderRequestKind → ℕ → ℕ → ContentEncoding → ProviderTransport → ℕ → RequestObservation
transport_only kind request_bytes wire_bytes content_encoding transport version =
    record (empty_request unsupported) {
      request_bytes = some request_bytes;
      wire_bytes = some wire_bytes;
      content_encoding = content_encoding;
      transport = transport;
      endpoint_profile_version = some version;
      request_kind = kind;
      compaction_trigger = compaction_trigger_of kind;
    }

-- `StringExtraction::extract_nested`. The Boolean says whether the extraction becomes partial.
abbrev nested_text : ℕ → Option Value → Bytes → Option Bytes × Bool
nested_text max none key = (none, false)
nested_text max (some null) key = (none, false)
nested_text max (some (object members)) key = keep_text max (get members key)
nested_text max (some _) key = (none, true)

abbrev optional_bool : Option Value → Option Bool × Bool
optional_bool none = (none, false)
optional_bool (some null) = (none, false)
optional_bool (some (boolean b)) = (some b, false)
optional_bool (some _) = (none, true)

abbrev previous_response : Option Value → Bool × Bool
previous_response none = (false, false)
previous_response (some null) = (false, false)
previous_response (some (string _)) = (true, false)
previous_response (some _) = (false, true)

-- `u64::try_from(n).ok()`.
abbrev pub as_u64_count : ℕ → Option ℕ
as_u64_count n = if ltb u64_max n then none else some n

abbrev pub number_of_items : Values → ℕ
number_of_items end_array = 0
number_of_items (item _ vs) = suc (number_of_items vs)

abbrev pub array_count : Option Value → Option ℕ × Bool
array_count none = (none, false)
array_count (some null) = (none, false)
array_count (some (array values)) = (as_u64_count (number_of_items values), false)
array_count (some _) = (none, true)

-- `InputBlockCounts`, and whether the extraction is partial.
pub record InputBlockCounts : Type 0 where
  pub text : ℕ
  pub image : ℕ
  pub file : ℕ
  pub is_partial : Bool

abbrev mark_partial : InputBlockCounts → InputBlockCounts
mark_partial c = record c { is_partial = true }

abbrev add_text : Option ℕ → InputBlockCounts → InputBlockCounts
add_text none c = mark_partial c
add_text (some n) c = record c { text = n }

abbrev add_image : Option ℕ → InputBlockCounts → InputBlockCounts
add_image none c = mark_partial c
add_image (some n) c = record c { image = n }

abbrev add_file : Option ℕ → InputBlockCounts → InputBlockCounts
add_file none c = mark_partial c
add_file (some n) c = record c { file = n }

pub count_kind : Bytes → InputBlockCounts → InputBlockCounts
count_kind kind c =
    if eq_bytes kind (ascii "input_text") || eq_bytes kind (ascii "text")
    then add_text (checked_add c.text 1) c
    else if eq_bytes kind (ascii "input_image")
        || eq_bytes kind (ascii "image_url")
        || eq_bytes kind (ascii "image")
    then add_image (checked_add c.image 1) c
    else if eq_bytes kind (ascii "input_file") || eq_bytes kind (ascii "file")
    then add_file (checked_add c.file 1) c
    else mark_partial c

-- A block whose type is no string is passed over.
abbrev pub count_typed : Option Value → InputBlockCounts → InputBlockCounts
count_typed (some (string kind)) c = count_kind kind c
count_typed _ c = c

abbrev pub count_block : Value → InputBlockCounts → InputBlockCounts
count_block (object members) c = count_typed (get members (ascii "type")) c
count_block _ c = c

pub count_each : Values → InputBlockCounts → InputBlockCounts
count_each end_array c = c
count_each (item block blocks) c = count_each blocks (count_block block c)

abbrev pub count_content : Option Value → InputBlockCounts → InputBlockCounts
count_content none c = c
count_content (some (array blocks)) c = count_each blocks c
count_content (some _) c = mark_partial c

abbrev pub count_blocks : Value → InputBlockCounts → InputBlockCounts
count_blocks (object members) c = count_content (get members (ascii "content")) c
count_blocks _ c = c

pub count_input : Values → InputBlockCounts → InputBlockCounts
count_input end_array c = c
count_input (item v vs) c = count_input vs (count_blocks v c)

abbrev is_compaction_trigger : Value → Bool
is_compaction_trigger (object members) =
    is_text (get members (ascii "type")) (ascii "compaction_trigger")
is_compaction_trigger _ = false

pub any_trigger : Values → Bool
any_trigger end_array = false
any_trigger (item v vs) = is_compaction_trigger v || any_trigger vs

-- The part of `parse_request` for an input that is an array, behind the other fields.
pub observe_input : Option Value → Bool → RequestObservation → RequestObservation
observe_input (some (array items)) p r =
    let c = count_input items (record { text = 0; image = 0; file = 0; is_partial = p }) in
    let is_compaction = any_trigger items in
    record r {
      request_kind =
          if is_compaction then compaction responses_trigger_v2 unknown else r.request_kind;
      compaction_trigger = if is_compaction then some unknown else r.compaction_trigger;
      text_input_blocks = some c.text;
      image_input_blocks = some c.image;
      file_input_blocks = some c.file;
      status = if c.is_partial then partial else r.status;
    }
observe_input _ p r = record r { status = if p then partial else r.status }

pub read_request : ObservationLimits → Members → RequestObservation → RequestObservation
read_request l members r =
    let max = l.max_string_bytes in
    let (model, p1) = keep_text max (get members (ascii "model")) in
    let (stream, p2) = optional_bool (get members (ascii "stream")) in
    let (background, p3) = optional_bool (get members (ascii "background")) in
    let (store, p4) = optional_bool (get members (ascii "store")) in
    let (effort, p5) = nested_text max (get members (ascii "reasoning")) (ascii "effort") in
    let (verbosity, p6) = nested_text max (get members (ascii "text")) (ascii "verbosity") in
    let (truncation, p7) = keep_text max (get members (ascii "truncation")) in
    let (has_previous, p8) = previous_response (get members (ascii "previous_response_id")) in
    let (items, p9) = array_count (get members (ascii "input")) in
    let (tools, p10) = array_count (get members (ascii "tools")) in
    observe_input (get members (ascii "input"))
      (p1 || p2 || p3 || p4 || p5 || p6 || p7 || p8 || p9 || p10)
      (record r {
        model = model;
        stream = stream;
        background = background;
        store = store;
        reasoning_effort = effort;
        verbosity = verbosity;
        truncation = truncation;
        has_previous_response_id = has_previous;
        input_item_count = items;
        tool_count = tools;
      })

abbrev pub read_parsed_request :
    ObservationLimits → RequestObservation → Result ObservationError Value → RequestObservation
read_parsed_request l r (err e) = record r { status = status_for_error e }
read_parsed_request l r (ok (object members)) = read_request l members r
read_parsed_request l r (ok _) = record r { status = malformed }

pub parse_request : FromSlice → Bytes → ObservationLimits → RequestObservation
parse_request from_slice bytes l =
    let size = as_u64_count (length bytes) in
    read_parsed_request l
      (record (empty_request complete) {
        request_bytes = size;
        wire_bytes = size;
        decoded_bytes = size;
      })
      (validate_input bytes l >> parse_bounded from_slice bytes l)
