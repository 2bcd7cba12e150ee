-- ===== src/Provider/Observer.antt =====
-- crates/tracepress-provider/src/sse.rs: StreamingObserver, from the first fragment to the decision
-- of the stream's owner. A reading of the clock is none when the time does not fit 64 bits.
mod Steps
mod Fragments
mod Endings
pub mod Streams
use tracepress.Base.{
  ℕ, suc, ◌+◌, Bool, true, false, ◌&&◌, ◌||◌, Option, none, some, List, [], ◌∷◌, Bytes,
  if◌then◌else◌, checked_add, length, Result, ok, err,
}
use tracepress.Base.Ascii.{ascii}
use tracepress.Provider.Domain.{
  ObservationLimits, ObservationError, ObservationStatus, partial, resource_limit, cancelled,
  ProviderResponseState, incomplete, disconnected, status_for_error,
}
use tracepress.Provider.Sse.{SseEvent, SseFramer}
use tracepress.Provider.Sse
use tracepress.Provider.Interpret.{
  Interpretation, empty, degrade, contains, event_name_of, Readers, interpret_event, has_evidence,
  settled_status,
}

-- What is measured of a stream, apart from what its events say.
pub record Measures : Type 0 where
  pub chunk_count : Option ℕ
  pub byte_count : Option ℕ
  pub ttfb_us : Option ℕ
  pub ttft_us : Option ℕ
  pub duration_us : Option ℕ

-- The fields of `StreamingObserver` and of its response, in groups.
pub record StreamingObserver : Type 0 where
  pub framer : SseFramer
  pub interpretation : Interpretation
  pub measures : Measures
  pub settled : Bool

pub new : ObservationLimits → StreamingObserver
new limits = record {
  framer = Sse.new limits;
  interpretation = empty;
  measures = record {
    chunk_count = some 0;
    byte_count = some 0;
    ttfb_us = none;
    ttft_us = none;
    duration_us = none;
  };
  settled = false;
}

-- `checked_add` of the module: the sum, and whether it overflowed.
abbrev counted : Option ℕ → ℕ → Option ℕ
counted none amount = checked_add 0 amount
counted (some current) amount = checked_add current amount

abbrev overflow_status : Option ℕ → Interpretation → Interpretation
overflow_status none i = record i { status = resource_limit }
overflow_status (some _) i = i

abbrev pub unless_measured : Option ℕ → Bool → Option ℕ → Option ℕ
unless_measured (some t) wanted now = some t
unless_measured none wanted now = if wanted then now else none

-- The first reading of a call is that of the fragment; each event has two.
abbrev pub Clock : Type 0
Clock = ℕ → Option ℕ

abbrev is_output : Bytes → Bool
is_output name =
    contains name (ascii "output")
    && (contains name (ascii "delta") || contains name (ascii "item"))

-- `observe_event`: the time of the first output, and the duration when the event is terminal.
abbrev pub observe_event : Readers → Clock → SseEvent → StreamingObserver → StreamingObserver
observe_event readers clock e o =
    let next = interpret_event readers o.framer.limits e o.interpretation in
    let m = o.measures in
    record o {
      interpretation = next;
      measures = record m {
        ttft_us = unless_measured m.ttft_us (is_output (event_name_of e.event)) (clock 0);
        duration_us = unless_measured m.duration_us next.terminal (clock 1);
      };
    }

pub observe_events : Readers → Clock → List SseEvent → StreamingObserver → StreamingObserver
observe_events readers clock [] o = o
observe_events readers clock (e ∷ es) o =
    let rest = observe_events readers (λ k. clock (k + 2)) es (observe_event readers clock e o) in
    if o.interpretation.terminal then o else rest

abbrev pub Answer : Type 0
Answer = StreamingObserver × Result ObservationError (Unit {0})

-- The `match` on what the framer answers.
abbrev pub observe_framed :
    Readers → Clock → Result ObservationError (List SseEvent) → StreamingObserver → Answer
observe_framed readers clock (ok events) o = (observe_events readers clock events o, ok tt)
observe_framed readers clock (err e) o =
    (record o { interpretation = degrade (status_for_error e) o.interpretation }, err e)

abbrev pub is_nonempty : Bytes → Bool
is_nonempty [] = false
is_nonempty (_ ∷ _) = true

-- The two counters.
abbrev pub count_fragment : ℕ → StreamingObserver → StreamingObserver
count_fragment size o =
    let m = o.measures in
    let chunks = counted m.chunk_count 1 in
    let bytes = counted m.byte_count size in
    record o {
      interpretation = overflow_status bytes (overflow_status chunks o.interpretation);
      measures = record m { chunk_count = chunks; byte_count = bytes };
    }

abbrev pub frame_fragment : Readers → Clock → Bytes → StreamingObserver → Answer
frame_fragment readers clock bytes o =
    let (framer, framed) = Sse.push o.framer bytes in
    let m = o.measures in
    observe_framed readers (λ k. clock (suc k)) framed
      (record o {
        framer = framer;
        measures = record m { ttfb_us = unless_measured m.ttfb_us (is_nonempty bytes) (clock 0) };
      })

pub push : Readers → Clock → Bytes → StreamingObserver → Answer
push readers clock bytes o =
    let counted = count_fragment (length bytes) o in
    if o.settled
    then (o, ok tt)
    else if counted.interpretation.terminal
    then (counted, ok tt)
    else frame_fragment readers clock bytes counted

-- `settle`, with the reading that `freeze` takes.
abbrev pub settle : Option ℕ → StreamingObserver → StreamingObserver
settle now o =
    let m = o.measures in
    let i = o.interpretation in
    record o {
      interpretation = record i { terminal = true };
      measures = record m { duration_us = unless_measured m.duration_us true now };
      settled = true;
    }

abbrev pub absorb_failure : Option ObservationError → Interpretation → Interpretation
absorb_failure none i = i
absorb_failure (some e) i = degrade (status_for_error e) i

-- `unconfirmed_usage_status`, and what holds when the provider reported no end of its own.
abbrev pub conclude : ProviderResponseState → ObservationStatus → Interpretation → Interpretation
conclude state status i =
    if has_evidence i.evidence
    then i
    else degrade status
        (record i { response_state = state; usage_status = settled_status i.usage_evidence false })

abbrev pub observe_end :
    Readers
    → Clock
    → SseFramer × Result ObservationError (List SseEvent)
    → StreamingObserver
    → StreamingObserver
observe_end readers clock (framer, err _) o = record o { framer = framer }
observe_end readers clock (framer, ok events) o =
    observe_events readers clock events (record o { framer = framer })

abbrev pub finish_live : Readers → Clock → StreamingObserver → StreamingObserver
finish_live readers clock o =
    let ended = observe_end readers clock (Sse.finish o.framer) o in
    record ended {
      interpretation =
          conclude incomplete partial (absorb_failure ended.framer.failure ended.interpretation);
    }

pub finish : Readers → Clock → Option ℕ → StreamingObserver → StreamingObserver
finish readers clock now o =
    let live = settle now (finish_live readers clock o) in
    if o.settled then o else if o.interpretation.terminal then settle now o else live

abbrev pub settle_without_completion :
    ProviderResponseState → ObservationStatus → Option ℕ → StreamingObserver → StreamingObserver
settle_without_completion state status now o =
    let i = o.interpretation in
    let absorbed = if i.terminal then i else absorb_failure o.framer.failure i in
    if o.settled
    then o
    else settle now (record o { interpretation = conclude state status absorbed })

pub cancel : Option ℕ → StreamingObserver → StreamingObserver
cancel = settle_without_completion cancelled cancelled

pub disconnect : Option ℕ → StreamingObserver → StreamingObserver
disconnect = settle_without_completion disconnected partial

-- How the owner of the stream ends it.
pub data Ending : Type 0 where
  finishes cancels disconnects : Ending

abbrev pub end_with : Ending → Readers → Clock → Option ℕ → StreamingObserver → StreamingObserver
end_with finishes readers clock now o = finish readers clock now o
end_with cancels readers clock now o = cancel now o
end_with disconnects readers clock now o = disconnect now o

-- Fragment after fragment, each with the readings of the clock during its call.
pub observe_stream : Readers → List (Clock × Bytes) → StreamingObserver → StreamingObserver
observe_stream readers [] o = o
observe_stream readers ((clock, bytes) ∷ rest) o =
    observe_stream readers rest (push readers clock bytes o).0
