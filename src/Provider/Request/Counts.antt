-- ===== src/Provider/Request/Counts.antt =====
-- What a request counts is bounded by the budget of its document.
use tracepress.Base.{
  ℕ, ◌+◌, ◌≤◌, ◌<◌, ◌≡◌, refl, ap, Bool, true, false, Option, none, some, arith, Bytes,
  if◌then◌else◌, u64_max, length, Result, >>=-eq-ok, ◌>>◌, ok, err,
}
use tracepress.Base.Ascii.{ascii}
use tracepress.Provider.Domain.{
  ObservationLimits, ObservationError, compaction_trigger_of, ObservationStatus, complete, unknown,
  responses_trigger_v2, compaction,
}
use tracepress.Provider.Json.{
  Value, null, boolean, number, string, array, object, get, FromSlice, parse_bounded,
}
use tracepress.Provider.Json.Shape.{count}
use tracepress.Provider.Json.Bounds.{parse_bounded-IsBounded}
use tracepress.Provider.Response.{validate_input}
use tracepress.Provider.Request.{
  RequestObservation, InputBlockCounts, number_of_items, array_count, observe_input, read_request,
  read_parsed_request, parse_request, as_u64_count, any_trigger, empty_request,
}
use tracepress.Provider.Request.Blocks.{AtMost, count-get, count_input_adds}

abbrev pub amount : Option ℕ → ℕ
amount none = 0
amount (some n) = n

-- The items of the input and the blocks in them, and the trigger that goes with the kind.
abbrev pub IsCounted : ℕ → RequestObservation → Type 0
IsCounted n r =
    (amount r.text_input_blocks
        + amount r.image_input_blocks
        + amount r.file_input_blocks
        + amount r.input_item_count
      ≤ n)
    × (r.compaction_trigger ≡ compaction_trigger_of r.request_kind)

-- Nothing is counted yet but the items of the input.
abbrev IsUncounted : Option Value → RequestObservation → Type 0
IsUncounted o r =
    (r.text_input_blocks ≡ none)
    × (r.image_input_blocks ≡ none)
    × (r.file_input_blocks ≡ none)
    × (r.input_item_count ≡ (array_count o).0)
    × (r.compaction_trigger ≡ compaction_trigger_of r.request_kind)

amount-as_u64_count : (n : ℕ) → amount (as_u64_count n) ≤ n
amount-as_u64_count n = ground arith

either_trigger :
    (b : Bool) (r : RequestObservation)
    → r.compaction_trigger ≡ compaction_trigger_of r.request_kind
    → (if b then some unknown else r.compaction_trigger)
      ≡ compaction_trigger_of
          (if b then compaction responses_trigger_v2 unknown else r.request_kind)
either_trigger true r agrees = refl
either_trigger false r agrees = agrees

uncounted-IsCounted :
    (n : ℕ) (r : RequestObservation)
    → r.text_input_blocks ≡ none
    → r.image_input_blocks ≡ none
    → r.file_input_blocks ≡ none
    → r.input_item_count ≡ none
    → r.compaction_trigger ≡ compaction_trigger_of r.request_kind
    → IsCounted n r
uncounted-IsCounted n r text image file items agrees =
    (omega (arith, ap amount text, ap amount image, ap amount file, ap amount items), agrees)

observe_input-IsCounted :
    (o : Option Value) (p : Bool) (n : ℕ) (r : RequestObservation)
    → AtMost o n
    → IsUncounted o r
    → IsCounted n (observe_input o p r)
unfolding observe_input count
observe_input-IsCounted (some (array vs)) p n r most (text, image, file, items, agrees) =
    let none_yet : InputBlockCounts = record { text = 0; image = 0; file = 0; is_partial = p } in
    (
      omega (
        arith,
        ap amount items,
        amount-as_u64_count (number_of_items vs),
        count_input_adds vs none_yet,
        most (array vs) refl,
      ),
      either_trigger (any_trigger vs) r agrees,
    )
observe_input-IsCounted none p n r most (text, image, file, items, agrees) =
    uncounted-IsCounted n r text image file items agrees
observe_input-IsCounted (some null) p n r most (text, image, file, items, agrees) =
    uncounted-IsCounted n r text image file items agrees
observe_input-IsCounted (some (boolean _)) p n r most (text, image, file, items, agrees) =
    uncounted-IsCounted n r text image file items agrees
observe_input-IsCounted (some (number _)) p n r most (text, image, file, items, agrees) =
    uncounted-IsCounted n r text image file items agrees
observe_input-IsCounted (some (string _)) p n r most (text, image, file, items, agrees) =
    uncounted-IsCounted n r text image file items agrees
observe_input-IsCounted (some (object _)) p n r most (text, image, file, items, agrees) =
    uncounted-IsCounted n r text image file items agrees

read_parsed-IsCounted :
    (l : ObservationLimits) (status : ObservationStatus) (size : Option ℕ)
    (parsed : Result ObservationError Value)
    → ((v : Value) → parsed ≡ ok v → count v ≤ l.max_json_items)
    → IsCounted l.max_json_items (
        read_parsed_request l
          (record (empty_request status) {
            request_bytes = size;
            wire_bytes = size;
            decoded_bytes = size;
          })
          parsed)
unfolding read_request empty_request count
read_parsed-IsCounted l status size (ok (object members)) most =
    observe_input-IsCounted (get members (ascii "input")) _ l.max_json_items _
      (λ v found.
        omega (arith, count-get members (ascii "input") v found, most (object members) refl))
      (refl, refl, refl, refl, refl)
read_parsed-IsCounted l status size (err _) most = (omega arith, refl)
read_parsed-IsCounted l status size (ok null) most = (omega arith, refl)
read_parsed-IsCounted l status size (ok (boolean _)) most = (omega arith, refl)
read_parsed-IsCounted l status size (ok (number _)) most = (omega arith, refl)
read_parsed-IsCounted l status size (ok (string _)) most = (omega arith, refl)
read_parsed-IsCounted l status size (ok (array _)) most = (omega arith, refl)

-- For every reading of serde_json, every request and limits below the largest `usize`: the text,
-- image and file blocks and the input items that `parse_request` counts are together at most
-- `max_json_items`, and a compaction trigger is reported exactly when the request kind has it.
pub parse_request-IsCounted :
    (from_slice : FromSlice) (bytes : Bytes) (l : ObservationLimits)
    → l.max_json_items < u64_max
    → l.max_json_depth < u64_max
    → IsCounted l.max_json_items (parse_request from_slice bytes l)
unfolding parse_request
parse_request-IsCounted from_slice bytes l items depth =
    read_parsed-IsCounted l complete (as_u64_count (length bytes))
      (validate_input bytes l >> parse_bounded from_slice bytes l)
      (λ v e.
        let (_, _, parsed) = >>=-eq-ok (validate_input bytes l) _ e in
        (parse_bounded-IsBounded from_slice bytes l v items depth parsed).0)
