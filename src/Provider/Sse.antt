-- ===== src/Provider/Sse.antt =====
-- crates/tracepress-provider/src/sse.rs: SseFramer, which cuts a stream of bytes into events.
pub mod Fragments
pub mod Calls
pub mod Bounds
pub mod Session
pub mod Failure
pub mod Text
pub mod Printed
use tracepress.Base.{
  ℕ, Bool, true, false, not, ◌&&◌, ◌||◌, Option, none, some, List, [], ◌∷◌, ◌++◌, Bytes, ltb, leb,
  ◌==◌, if◌then◌else◌, checked_add, eq_bytes, length, is_utf8, Result, ok, err,
}
use tracepress.Base.Ascii.{ascii}
use tracepress.Provider.Domain.{ObservationLimits, ObservationError, resource_limit}

pub record SseEvent : Type 0 where
  pub event : Option Bytes
  pub «data» : Bytes

pub record SseFramer : Type 0 where
  pub limits : ObservationLimits
  pub line : Bytes
  pub event_name : Option Bytes
  pub «data» : Bytes
  pub event_bytes : ℕ
  pub event_count : ℕ
  pub pending_cr : Bool
  pub failure : Option ObservationError

unfoldable pub new : ObservationLimits → SseFramer
new limits = record {
  limits = limits;
  line = [];
  event_name = none;
  «data» = [];
  event_bytes = 0;
  event_count = 0;
  pending_cr = false;
  failure = none;
}

-- What a method leaves behind: the framer, the events it pushed, and whether it crossed a bound.
pub record Framed : Type 0 where
  pub framer : SseFramer
  pub events : List SseEvent
  pub framing : Result ObservationError (Unit {0})

abbrev pub done : SseFramer → Framed
done s = record { framer = s; events = []; framing = ok tt }

abbrev pub stop : SseFramer → Framed
stop s = record { framer = s; events = []; framing = err resource_limit }

-- One method after another, with the `?` operator between them.
abbrev pub continue_with :
    SseFramer → List SseEvent → Result ObservationError (Unit {0}) → (SseFramer → Framed) → Framed
continue_with s events (err e) next = record { framer = s; events = events; framing = err e }
continue_with s events (ok _) next =
    let rest = next s in record rest { events = events ++ rest.events }

infixl 5 ◌>>>◌
abbrev pub ◌>>>◌ : Framed → (SseFramer → Framed) → Framed
f >>> next = continue_with f.framer f.events f.framing next

abbrev pub is_some : Option Bytes → Bool
is_some none = false
is_some (some _) = true

abbrev pub is_empty : Bytes → Bool
is_empty [] = true
is_empty (_ ∷ _) = false

-- An event is pending.
abbrev pub has_event : SseFramer → Bool
has_event s = is_some s.event_name || not (is_empty s.«data»)

abbrev emit_counted : SseFramer → Option ℕ → Framed
emit_counted s none = stop s
emit_counted s (some next) = if ltb s.limits.max_sse_events next then stop s else (record {
  framer = record s { event_count = next; event_name = none; «data» = []; event_bytes = 0 };
  events = record { event = s.event_name; «data» = s.«data» } ∷ [];
  framing = ok tt;
})

pub emit_event : SseFramer → Framed
emit_event s = emit_counted s (checked_add s.event_count 1)

-- `line.iter().position(|byte| *byte == b':')` and the two slices around it.
abbrev cons_field : ℕ → Bytes × Bytes → Bytes × Bytes
cons_field b (field, value) = (b ∷ field, value)

abbrev pub strip_space : Bytes → Bytes
strip_space [] = []
strip_space (b ∷ bs) = if b == 32 then bs else b ∷ bs

pub split_field : Bytes → Bytes × Bytes
split_field [] = ([], [])
split_field (b ∷ bs) =
    let rest = split_field bs in if b == 58 then ([], strip_space bs) else cons_field b rest

-- `checked_add(separator)` and `checked_add(value.len())`.
abbrev append_data : SseFramer → Bytes → Bytes → Option ℕ → Framed
append_data s separator value none = stop s
append_data s separator value (some next) =
    if ltb s.limits.max_sse_event_bytes next
    then stop s
    else done (record s { «data» = s.«data» ++ (separator ++ value) })

abbrev checked_add_some : Option ℕ → ℕ → Option ℕ
checked_add_some none n = none
checked_add_some (some m) n = checked_add m n

abbrev pub data_separator : Bytes → Bytes
data_separator [] = []
data_separator (_ ∷ _) = 10 ∷ []

-- The `match` on the field's name.
unfoldable pub apply_field : SseFramer → Bytes × Bytes → Framed
apply_field s (field, value) =
    if eq_bytes field (ascii "event")
    then done (
        if is_utf8 value && leb (length value) s.limits.max_string_bytes
        then record s { event_name = some value }
        else s)
    else if eq_bytes field (ascii "data")
    then append_data s (data_separator s.«data») value (
        checked_add_some (checked_add (length s.«data») (length (data_separator s.«data»)))
          (length value))
    else done s

abbrev is_comment : Bytes → Bool
is_comment [] = false
is_comment (b ∷ _) = b == 58

-- The line is taken out of the framer first.
abbrev pub interpret_line : SseFramer → Bytes → Framed
interpret_line s [] = if has_event s then emit_event s else done s
interpret_line s (b ∷ bs) =
    if is_comment (b ∷ bs) then done s else apply_field s (split_field (b ∷ bs))

pub finish_line : SseFramer → Framed
finish_line s = interpret_line (record s { line = [] }) s.line

abbrev push_counted : SseFramer → ℕ → Option ℕ → Framed
push_counted s b none = stop s
push_counted s b (some n) =
    if ltb s.limits.max_sse_event_bytes n
    then stop (record s { event_bytes = n })
    else done (record s { event_bytes = n; line = s.line ++ (b ∷ []) })

-- The `match` on the byte.
abbrev pub frame_plain : ℕ → SseFramer → Framed
frame_plain b s =
    if b == 13
    then done (record s { pending_cr = true })
    else if b == 10
    then finish_line s
    else push_counted s b (checked_add s.event_bytes 1)

-- What a byte behind a carriage return does, when one is pending.
abbrev pub frame_pending : Bool → ℕ → SseFramer → Framed
frame_pending false b s = frame_plain b s
frame_pending true b s =
    if b == 10
    then finish_line (record s { pending_cr = false })
    else finish_line (record s { pending_cr = false }) >>> frame_plain b

-- One round of the loop of `frame`.
pub frame_byte : SseFramer → ℕ → Framed
frame_byte s b = frame_pending s.pending_cr b s

pub frame : SseFramer → Bytes → Framed
frame s [] = done s
frame s (b ∷ bs) = frame_byte s b >>> (λ s'. frame s' bs)

abbrev pub flush_event : SseFramer → Framed
flush_event s = if has_event s then emit_event s else done s

-- The line that is still open, if any.
abbrev pub flush_line : Bool → SseFramer → Framed
flush_line true s = finish_line (record s { pending_cr = false })
flush_line false s = if not (is_empty s.line) then finish_line s else done s

pub flush : SseFramer → Framed
flush s = flush_line s.pending_cr s >>> flush_event

abbrev pub Delivered : Type 0
Delivered = SseFramer × Result ObservationError (List SseEvent)

-- `deliver`, with the failure that it latches.
abbrev pub deliver : SseFramer → List SseEvent → Result ObservationError (Unit {0}) → Delivered
deliver s events (ok _) = (s, ok events)
deliver s [] (err e) = (record s { failure = some e }, err e)
deliver s (x ∷ xs) (err e) = (record s { failure = some e }, ok (x ∷ xs))

-- The early return on a latched failure.
abbrev pub unless_failed : SseFramer → Option ObservationError → Framed → Delivered
unless_failed s (some e) f = (s, err e)
unless_failed s none f = deliver f.framer f.events f.framing

pub push : SseFramer → Bytes → Delivered
push s bytes = unless_failed s s.failure (frame s bytes)

pub finish : SseFramer → Delivered
finish s = unless_failed s s.failure (flush s)

-- The events that a call hands over, none with an error.
abbrev pub delivered : Result ObservationError (List SseEvent) → List SseEvent
delivered (err _) = []
delivered (ok events) = events

abbrev pub Received : Type 0
Received = SseFramer × List SseEvent

unfoldable pub observe : SseFramer → Bytes → SseFramer × List SseEvent
observe s chunk = ((push s chunk).0, delivered (push s chunk).1)

-- A reader that pushes chunk after chunk, whatever it is told, and collects the events.
unfoldable pub push_all : SseFramer → List Bytes → SseFramer × List SseEvent
push_all s [] = (s, [])
push_all s (chunk ∷ chunks) =
    let (t, events) = observe s chunk in let (u, later) = push_all t chunks in (u, events ++ later)

-- The chunks and then the end of the stream, with the events of every call.
pub session : ObservationLimits → List Bytes → Received
session limits chunks =
    let (s, events) = push_all (new limits) chunks in
    let (t, later) = finish s in (t, events ++ delivered later)
