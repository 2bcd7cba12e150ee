-- ===== src/Provider/Observer/Steps.antt =====
-- What one fragment does to the interpretation, whatever the clock says.
use tracepress.Base.{
  suc, ◌+◌, ◌≡◌, refl, sym, ap, ◌∙◌, inl, inr, Bool, true, false, List, [], ◌∷◌, ◌++◌, Bytes,
  if◌then◌else◌, Bool-cases, Result, ok, err,
}
use tracepress.Provider.Domain.{ObservationLimits, ObservationError, status_for_error}
use tracepress.Provider.Sse.{SseEvent}
use tracepress.Provider.Sse
use tracepress.Provider.Interpret.{Interpretation, degrade, Readers, interpret_event}
use tracepress.Provider.Observer.{
  StreamingObserver, Clock, observe_event, observe_events, observe_framed, frame_fragment,
  unless_measured, is_nonempty,
}

-- The events up to the first terminal one.
unfoldable pub interpret_events :
    Readers → ObservationLimits → List SseEvent → Interpretation → Interpretation
interpret_events readers l [] i = i
interpret_events readers l (e ∷ es) i =
    let rest = interpret_events readers l es (interpret_event readers l e i) in
    if i.terminal then i else rest

pub interpret_events_terminal :
    (readers : Readers) (l : ObservationLimits) (es : List SseEvent) (i : Interpretation)
    → i.terminal ≡ true
    → interpret_events readers l es i ≡ i
unfolding interpret_events
interpret_events_terminal readers l [] i h = refl
interpret_events_terminal readers l (e ∷ es) i h =
    ap (λ b. if b then i else interpret_events readers l es (interpret_event readers l e i)) h

interpret_events_live :
    (readers : Readers) (l : ObservationLimits) (e : SseEvent) (es : List SseEvent)
    (i : Interpretation)
    → i.terminal ≡ false
    → interpret_events readers l (e ∷ es) i
      ≡ interpret_events readers l es (interpret_event readers l e i)
unfolding interpret_events
interpret_events_live readers l e es i h =
    ap (λ b. if b then i else interpret_events readers l es (interpret_event readers l e i)) h

pub interpret_events-append :
    (readers : Readers) (l : ObservationLimits) (es fs : List SseEvent) (i : Interpretation)
    → interpret_events readers l (es ++ fs) i
      ≡ interpret_events readers l fs (interpret_events readers l es i)
unfolding interpret_events
interpret_events-append readers l [] fs i = refl
interpret_events-append readers l (e ∷ es) fs i = elim (Bool-cases i.terminal) [
  | inl done ↦
      interpret_events_terminal readers l (e ∷ es ++ fs) i done
      ∙ sym (
          ap (interpret_events readers l fs) (interpret_events_terminal readers l (e ∷ es) i done)
          ∙ interpret_events_terminal readers l fs i done)
  | inr live ↦
      interpret_events_live readers l e (es ++ fs) i live
      ∙ interpret_events-append readers l es fs (interpret_event readers l e i)
      ∙ sym (ap (interpret_events readers l fs) (interpret_events_live readers l e es i live))
]

-- What an operation leaves as it is.
abbrev pub Keeps : StreamingObserver → StreamingObserver → Type 0
Keeps o p =
    (p.framer ≡ o.framer)
    × (p.settled ≡ o.settled)
    × (p.measures.chunk_count ≡ o.measures.chunk_count)
    × (p.measures.byte_count ≡ o.measures.byte_count)

either_observed :
    (b : Bool) (o p : StreamingObserver) (i : Interpretation)
    → (p.interpretation ≡ i) × Keeps o p
    → (let q = if b then o else p in
        (q.interpretation ≡ (if b then o.interpretation else i)) × Keeps o q)
either_observed true o p i h = (refl, (refl, refl, refl, refl))
either_observed false o p i h = h

pub observe_events_interprets :
    (readers : Readers) (clock : Clock) (es : List SseEvent) (o : StreamingObserver)
    → (let p = observe_events readers clock es o in
        (p.interpretation ≡ interpret_events readers o.framer.limits es o.interpretation)
        × Keeps o p)
unfolding observe_events interpret_events
observe_events_interprets readers clock [] o = (refl, (refl, refl, refl, refl))
observe_events_interprets readers clock (e ∷ es) o =
    either_observed o.interpretation.terminal o
      (observe_events readers (λ k. clock (k + 2)) es (observe_event readers clock e o))
      (interpret_events readers o.framer.limits es
        (interpret_event readers o.framer.limits e o.interpretation))
      (observe_events_interprets readers (λ k. clock (k + 2)) es (observe_event readers clock e o))

-- What the framer's answer says.
abbrev pub interpret_framed :
    Readers
    → ObservationLimits
    → Result ObservationError (List SseEvent)
    → Interpretation
    → Interpretation
interpret_framed readers l (ok events) i = interpret_events readers l events i
interpret_framed readers l (err e) i = degrade (status_for_error e) i

-- A fragment that the framer takes.
abbrev pub FramedInto : Readers → StreamingObserver → Bytes → StreamingObserver → Type 0
FramedInto readers o bytes p =
    let (framer, framed) = Sse.push o.framer bytes in
    (p.framer ≡ framer)
    × (p.interpretation ≡ interpret_framed readers framer.limits framed o.interpretation)
    × (p.settled ≡ o.settled)
    × (p.measures.chunk_count ≡ o.measures.chunk_count)
    × (p.measures.byte_count ≡ o.measures.byte_count)

observe_framed_interprets :
    (readers : Readers) (clock : Clock) (r : Result ObservationError (List SseEvent))
    (o : StreamingObserver)
    → (let p = (observe_framed readers clock r o).0 in
        (p.interpretation ≡ interpret_framed readers o.framer.limits r o.interpretation)
        × Keeps o p)
observe_framed_interprets readers clock (ok events) o =
    observe_events_interprets readers clock events o
observe_framed_interprets readers clock (err e) o = (refl, (refl, refl, refl, refl))

pub frame_fragment_interprets :
    (readers : Readers) (clock : Clock) (bytes : Bytes) (o : StreamingObserver)
    → FramedInto readers o bytes (frame_fragment readers clock bytes o).0
frame_fragment_interprets readers clock bytes o =
    let m = o.measures in
    let (framer, framed) = Sse.push o.framer bytes in
    let (said, (kept, settled, chunks, size)) =
      observe_framed_interprets readers (λ k. clock (suc k)) framed
        (record o {
          framer = framer;
          measures = record m { ttfb_us = unless_measured m.ttfb_us (is_nonempty bytes) (clock 0) };
        }) in
    (kept, said, settled, chunks, size)
