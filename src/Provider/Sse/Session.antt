-- ===== src/Provider/Sse/Session.antt =====
-- A whole stream: chunk after chunk, then the end.
use tracepress.Base.{
  ℕ, ◌+◌, ◌≤◌, ◌≡◌, refl, Option, none, some, List, [], ◌∷◌, ◌++◌, arith, Bytes, length, All,
  length-append, All-append, Result, ok, err,
}
use tracepress.Provider.Domain.{ObservationLimits, ObservationError}
use tracepress.Provider.Sse.{
  SseFramer, SseEvent, Framed, new, frame, flush, deliver, unless_failed, push, finish, delivered,
  observe, push_all, session,
}
use tracepress.Provider.Sse.Bounds.{IsBounded, EventFits, Keeps, frame-Keeps, flush-Keeps}

-- What a framer and the events so far satisfy.
abbrev pub IsWithin : ObservationLimits → ℕ → SseFramer × List SseEvent → Type 0
IsWithin l before (s, events) =
    IsBounded l s × All (EventFits l) events × (s.event_count ≡ before + length events)

module _ (l : ObservationLimits) where
  deliver-IsWithin :
      (before : ℕ) (s : SseFramer) (events : List SseEvent) (r : Result ObservationError (Unit {0}))
      → IsWithin l before (s, events)
      → (let d = deliver s events r in IsWithin l before (d.0, delivered d.1))
  unfolding IsBounded
  deliver-IsWithin before s events (ok _) h = h
  deliver-IsWithin before s [] (err e) h = h
  deliver-IsWithin before s (x ∷ xs) (err e) h = h

  delivered-IsWithin :
      (s : SseFramer) (o : Option ObservationError) (f : Framed)
      → IsBounded l s
      → Keeps l s f
      → (let r = unless_failed s o f in IsWithin l s.event_count (r.0, delivered r.1))
  unfolding Keeps IsBounded
  delivered-IsWithin s (some e) f h kept = (h, tt, omega arith)
  delivered-IsWithin s none f h (kept, fit, count, _) =
      deliver-IsWithin s.event_count f.framer f.events f.framing (kept, fit, count)

  pub observe-IsWithin :
      (s : SseFramer) (chunk : Bytes) → IsBounded l s → IsWithin l s.event_count (observe s chunk)
  unfolding observe push
  observe-IsWithin s chunk h =
      delivered-IsWithin s s.failure (frame s chunk) h (frame-Keeps l s chunk h)

  finish-IsWithin :
      (s : SseFramer)
      → IsBounded l s
      → IsWithin l s.event_count ((finish s).0, delivered (finish s).1)
  unfolding finish
  finish-IsWithin s h = delivered-IsWithin s s.failure (flush s) h (flush-Keeps l s h)

  -- Two collections of events, one after the other.
  IsWithin-append :
      (before : ℕ) (s t : SseFramer) (events later : List SseEvent)
      → IsWithin l before (s, events)
      → IsWithin l s.event_count (t, later)
      → IsWithin l before (t, events ++ later)
  IsWithin-append before s t events later (_, fit, count) (bounded, fit', count') = (
    bounded,
    All-append (EventFits l) events later fit fit',
    omega (arith, length-append events later),
  )

  pub push_all-IsWithin :
      (s : SseFramer) (chunks : List Bytes)
      → IsBounded l s
      → IsWithin l s.event_count (push_all s chunks)
  unfolding push_all
  push_all-IsWithin s [] h = (h, tt, omega arith)
  push_all-IsWithin s (chunk ∷ chunks) h =
      let (bounded, fit, count) = observe-IsWithin s chunk h in
      let (t, events) = observe s chunk in
      let (u, later) = push_all t chunks in
      IsWithin-append s.event_count t u events later (bounded, fit, count)
        (push_all-IsWithin t chunks bounded)

-- For any limits and any chunks, a framer that started empty and was given the chunks and the end
-- of the stream holds at most `max_sse_event_bytes` in its line and its data together, every event
-- it handed over has data of at most `max_sse_event_bytes` and a name of at most
-- `max_string_bytes`, and there are at most `max_sse_events` events, as many as it counted.
pub session-IsBounded :
    (l : ObservationLimits) (chunks : List Bytes)
    → (let (s, events) = session l chunks in
        (length s.line + length s.«data» ≤ l.max_sse_event_bytes)
        × All (EventFits l) events
        × (length events ≤ l.max_sse_events)
        × (length events ≡ s.event_count))
unfolding session IsBounded new
session-IsBounded l chunks =
    let begun : IsBounded l (new l) = (refl, omega arith, omega arith, omega arith, tt) in
    let (s, events) = push_all (new l) chunks in
    let (bounded, fit, count) = push_all-IsWithin l (new l) chunks begun in
    let (bounded', fit', count') =
      IsWithin-append l 0 s (finish s).0 events (delivered (finish s).1) (bounded, fit, count)
        (finish-IsWithin l s bounded) in
    (bounded'.2, fit', omega arith, omega arith)
