-- ===== src/Provider/Sse/Printed.antt =====
-- A stream that was written event by event is read back as those events.
use tracepress.Base.{
  ℕ, suc, ◌+◌, ◌≤◌, ◌≡◌, refl, sym, ap, ◌∙◌, List, [], ◌∷◌, ◌++◌, append-nil, arith, Bytes, u64_max,
  length, All, ok,
}
use tracepress.Base.Ascii.{ascii}
use tracepress.Provider.Domain.{ObservationLimits}
use tracepress.Provider.Sse.{
  SseEvent, Framed, new, ◌>>>◌, frame, flush, finish, delivered, Received, push_all, session,
}
use tracepress.Provider.Sse.Fragments.{all_bytes, push_all_fragments, observe_live, latch}
use tracepress.Provider.Sse.Text.{
  print, print_all, name_size, IsSent, between, named, frame_name, frame_data, finish_line_emit,
  frame_byte_feed,
}

-- One event, and what follows it.
frame-print :
    (l : ObservationLimits) (n : ℕ) (e : SseEvent) (rest : Bytes)
    → IsSent l e
    → suc n ≤ l.max_sse_events
    → l.max_sse_events ≤ u64_max
    → l.max_sse_event_bytes ≤ u64_max
    → frame (between l n) (print e rest)
      ≡ record { framer = between l (n + 1); events = e ∷ []; framing = ok tt }
        >>> (λ t. frame t rest)
unfolding frame
frame-print l n e rest (sent, plain, fits, pending) count words word =
    frame_name l n e.event ((ascii "data: " ++ e.«data») ++ 10 ∷ 10 ∷ rest) sent (omega arith) word
    ∙ frame_data l n e.event (name_size e.event) e.«data» (10 ∷ rest) plain fits word
    ∙ ap (λ f. f >>> (λ t. frame t rest))
        (frame_byte_feed
            (record (named l n e.event (name_size e.event + (6 + length e.«data»))) {
              «data» = e.«data»;
            })
            refl
          ∙ finish_line_emit
              (record (between l n) { event_bytes = name_size e.event + (6 + length e.«data») }) e
              pending count words)

frame-print_all :
    (l : ObservationLimits) (n : ℕ) (es : List SseEvent)
    → All (IsSent l) es
    → n + length es ≤ l.max_sse_events
    → l.max_sse_events ≤ u64_max
    → l.max_sse_event_bytes ≤ u64_max
    → frame (between l n) (print_all es)
      ≡ record { framer = between l (n + length es); events = es; framing = ok tt }
unfolding frame print_all
frame-print_all l n [] sent count words word =
    let same : n ≡ n + 0 = omega arith in
    λ i. record { framer = between l (same i); events = []; framing = ok tt }
frame-print_all l n (e ∷ es) (one, sent) count words word =
    let same : n + 1 + length es ≡ n + suc (length es) = omega arith in
    frame-print l n e (print_all es) one (omega arith) words word
    ∙ ap (λ (g : Framed). record g { events = e ∷ g.events })
        (frame-print_all l (n + 1) es sent (omega arith) words word)
    ∙ (λ i. record { framer = between l (same i); events = e ∷ es; framing = ok tt })

-- A framer that was given the whole text.
push_all-print_all :
    (l : ObservationLimits) (es : List SseEvent) (chunks : List Bytes)
    → all_bytes chunks ≡ print_all es
    → All (IsSent l) es
    → length es ≤ l.max_sse_events
    → l.max_sse_events ≤ u64_max
    → l.max_sse_event_bytes ≤ u64_max
    → push_all (new l) chunks ≡ (between l (0 + length es), es)
unfolding new push_all all_bytes
push_all-print_all l es chunks same sent count words word =
    push_all_fragments (new l) chunks (print_all es ∷ []) (same ∙ sym (append-nil (print_all es)))
    ∙ ap (λ (d : Received). (d.0, d.1 ++ []))
        (observe_live (new l) (print_all es) refl
          ∙ ap (λ (f : Framed). (latch f.framer f.framing, f.events))
              (frame-print_all l 0 es sent (omega arith) words word))
    ∙ (λ i. (between l (0 + length es), append-nil es i))

finish-between : (l : ObservationLimits) (n : ℕ) → delivered (finish (between l n)).1 ≡ []
unfolding finish flush
finish-between l n = refl

-- For every list of events and limits that fit 64 bits: when each event has a name or data, both
-- without line feeds and carriage returns, the name is UTF-8, and the events are within the
-- limits, then a framer that is given their text, in chunks cut anywhere, and the end of the
-- stream hands over these events, in this order, and no others.
pub session-print_all :
    (l : ObservationLimits) (es : List SseEvent) (chunks : List Bytes)
    → all_bytes chunks ≡ print_all es
    → All (IsSent l) es
    → length es ≤ l.max_sse_events
    → l.max_sse_events ≤ u64_max
    → l.max_sse_event_bytes ≤ u64_max
    → (session l chunks).1 ≡ es
unfolding session
session-print_all l es chunks same sent count words word =
    ap (λ (d : Received). d.1 ++ delivered (finish d.0).1)
      (push_all-print_all l es chunks same sent count words word)
    ∙ ap (λ (later : List SseEvent). es ++ later) (finish-between l (0 + length es))
    ∙ append-nil es
