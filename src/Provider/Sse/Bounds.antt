-- ===== src/Provider/Sse/Bounds.antt =====
-- What the framer holds and hands over stays within its limits.
use tracepress.Base.{
  ℕ, ◌+◌, ◌≤◌, ◌≡◌, refl, ap, subst, inl, inr, Bool, true, false, not, Option, none, some, [], ◌∷◌,
  ◌++◌, arith, Bytes, ◌==◌, if◌then◌else◌, eq_bytes, eq_bytes_iff, length, All, length-append,
  All-append, Result, Result-cases, ok, err,
}
use tracepress.Base.Ascii.{ascii}
use tracepress.Provider.Domain.{ObservationLimits, ObservationError, resource_limit}
use tracepress.Provider.Sse.{
  SseFramer, SseEvent, Framed, done, ◌>>>◌, has_event, is_empty, emit_event, apply_field,
  interpret_line, finish_line, frame_plain, frame_pending, frame_byte, frame, flush_event,
  flush_line, flush, split_field, strip_space, data_separator,
}

abbrev pub NameFits : ObservationLimits → Option Bytes → Type 0
NameFits l none = Unit
NameFits l (some name) = length name ≤ l.max_string_bytes

abbrev pub EventFits : ObservationLimits → SseEvent → Type 0
EventFits l e = NameFits l e.event × (length e.«data» ≤ l.max_sse_event_bytes)

-- The bytes that wait, those of the line and of the data together, are among the counted ones.
unfoldable pub IsBounded : ObservationLimits → SseFramer → Type 0
IsBounded l s =
    (s.limits ≡ l)
    × (length s.line + length s.«data» ≤ s.event_bytes)
    × (length s.line + length s.«data» ≤ l.max_sse_event_bytes)
    × (s.event_count ≤ l.max_sse_events)
    × NameFits l s.event_name

abbrev pub IsLimited : Result ObservationError (Unit {0}) → Type 0
IsLimited (ok _) = Unit
IsLimited (err e) = e ≡ resource_limit

-- What a step keeps, when it starts within the limits.
unfoldable pub Keeps : ObservationLimits → SseFramer → Framed → Type 0
Keeps l s f =
    IsBounded l f.framer
    × All (EventFits l) f.events
    × (f.framer.event_count ≡ s.event_count + length f.events)
    × IsLimited f.framing

module _ (l : ObservationLimits) where
  if_either :
      (s : SseFramer) (f g : Framed) (c : Bool)
      → Keeps l s f
      → Keeps l s g
      → Keeps l s (if c then f else g)
  if_either s f g true hf hg = hf
  if_either s f g false hf hg = hg

  done-Keeps : (s : SseFramer) → IsBounded l s → Keeps l s (done s)
  unfolding Keeps
  done-Keeps s h = (h, tt, omega arith, tt)

  emit_event-Keeps : (s : SseFramer) → IsBounded l s → s.line ≡ [] → Keeps l s (emit_event s)
  unfolding Keeps emit_event IsBounded
  emit_event-Keeps s h empty = ground arith

  strip_space_fits : (bs : Bytes) → length (strip_space bs) ≤ length bs
  strip_space_fits [] = omega arith
  strip_space_fits (b ∷ bs) = ground arith

  split_field_fits :
      (line : Bytes) → length (split_field line).0 + length (split_field line).1 ≤ length line
  unfolding split_field
  split_field_fits [] = omega arith
  split_field_fits (b ∷ bs) = ground (arith, split_field_fits bs, strip_space_fits bs)

  data_length : (field : Bytes) → eq_bytes field (ascii "data") ≡ true → length field ≡ 4
  data_length field e = ap length ((eq_bytes_iff field (ascii "data")).0 e)

  apply_field-Keeps :
      (s : SseFramer) (field value : Bytes) (size : ℕ)
      → IsBounded l s
      → s.line ≡ []
      → length field + length value ≤ size
      → length s.«data» + size ≤ s.event_bytes
      → length s.«data» + size ≤ l.max_sse_event_bytes
      → Keeps l s (apply_field s (field, value))
  unfolding Keeps apply_field IsBounded
  apply_field-Keeps s field value size h empty fits counted bounded = ground (
    arith,
    data_length field,
    length-append s.«data» (data_separator s.«data» ++ value),
    length-append (data_separator s.«data») value,
  )

  interpret_line-Keeps :
      (s : SseFramer) (line : Bytes)
      → IsBounded l s
      → s.line ≡ []
      → length s.«data» + length line ≤ s.event_bytes
      → length s.«data» + length line ≤ l.max_sse_event_bytes
      → Keeps l s (interpret_line s line)
  interpret_line-Keeps s [] h empty counted bounded =
      if_either s (emit_event s) (done s) (has_event s) (emit_event-Keeps s h empty)
        (done-Keeps s h)
  interpret_line-Keeps s (b ∷ bs) h empty counted bounded =
      let (field, value) = split_field (b ∷ bs) in
      if_either s (done s) (apply_field s (field, value)) (b == 58) (done-Keeps s h) (
        apply_field-Keeps s field value (length (b ∷ bs)) h empty (split_field_fits (b ∷ bs))
          counted bounded)

  finish_line-Keeps : (s : SseFramer) → IsBounded l s → Keeps l s (finish_line s)
  unfolding finish_line IsBounded Keeps
  finish_line-Keeps s (limits, counted, bounded, count, name) =
      interpret_line-Keeps (record s { line = [] }) s.line
        (limits, omega arith, omega arith, count, name) refl (omega arith) (omega arith)

  >>>-Keeps :
      (s : SseFramer) (f : Framed) (next : SseFramer → Framed)
      → Keeps l s f
      → (IsBounded l f.framer → Keeps l f.framer (next f.framer))
      → Keeps l s (f >>> next)
  unfolding Keeps
  >>>-Keeps s f next (h, fit, count, limited) hnext = elim (Result-cases f.framing) [
    | inl (_, e) ↦ rw e (
        let (h', fit', count', limited') = hnext h in
        (
          h',
          All-append (EventFits l) f.events (next f.framer).events fit fit',
          omega (arith, length-append f.events (next f.framer).events),
          limited',
        ))
    | inr (_, e) ↦ rw e (h, fit, count, subst IsLimited e limited)
  ]

  frame_plain-Keeps : (b : ℕ) (s : SseFramer) → IsBounded l s → Keeps l s (frame_plain b s)
  unfolding Keeps IsBounded
  frame_plain-Keeps b s h = ground (arith, finish_line-Keeps s h, length-append s.line (b ∷ []))

  frame_pending-Keeps :
      (p : Bool) (b : ℕ) (s : SseFramer) → IsBounded l s → Keeps l s (frame_pending p b s)
  unfolding Keeps IsBounded
  frame_pending-Keeps false b s h = frame_plain-Keeps b s h
  frame_pending-Keeps true b s h =
      let cleared : SseFramer = record s { pending_cr = false } in
      let finished : Keeps l s (finish_line cleared) = finish_line-Keeps cleared h in
      if_either s (finish_line cleared) (finish_line cleared >>> frame_plain b) (b == 10) finished (
        >>>-Keeps s (finish_line cleared) (frame_plain b) finished
          (frame_plain-Keeps b (finish_line cleared).framer))

  pub frame-Keeps : (s : SseFramer) (bytes : Bytes) → IsBounded l s → Keeps l s (frame s bytes)
  unfolding frame frame_byte
  frame-Keeps s [] h = done-Keeps s h
  frame-Keeps s (b ∷ bs) h =
      >>>-Keeps s (frame_byte s b) (λ t. frame t bs) (frame_pending-Keeps s.pending_cr b s h)
        (frame-Keeps (frame_byte s b).framer bs)

  flush_event-Keeps : (s : SseFramer) → s.line ≡ [] → IsBounded l s → Keeps l s (flush_event s)
  flush_event-Keeps s empty h =
      if_either s (emit_event s) (done s) (has_event s) (emit_event-Keeps s h empty)
        (done-Keeps s h)

  interpret_line_takes :
      (s : SseFramer) (line : Bytes) → s.line ≡ [] → (interpret_line s line).framer.line ≡ []
  unfolding emit_event apply_field
  interpret_line_takes s [] empty = ground (arith, empty)
  interpret_line_takes s (b ∷ bs) empty =
      let (field, value) = split_field (b ∷ bs) in ground (arith, empty)

  finish_line_takes : (s : SseFramer) → (finish_line s).framer.line ≡ []
  unfolding finish_line
  finish_line_takes s = interpret_line_takes (record s { line = [] }) s.line refl

  flush_open-Keeps :
      (s : SseFramer) (line : Bytes)
      → s.line ≡ line
      → IsBounded l s
      → (let f = if not (is_empty line) then finish_line s else done s in
          Keeps l s f × (f.framer.line ≡ []))
  flush_open-Keeps s [] same h = (done-Keeps s h, same)
  flush_open-Keeps s (b ∷ bs) same h = (finish_line-Keeps s h, finish_line_takes s)

  flush_line-Keeps :
      (p : Bool) (s : SseFramer)
      → IsBounded l s
      → Keeps l s (flush_line p s) × ((flush_line p s).framer.line ≡ [])
  unfolding Keeps IsBounded
  flush_line-Keeps true s h =
      let cleared : SseFramer = record s { pending_cr = false } in
      (finish_line-Keeps cleared h, finish_line_takes cleared)
  flush_line-Keeps false s h = flush_open-Keeps s s.line refl h

  pub flush-Keeps : (s : SseFramer) → IsBounded l s → Keeps l s (flush s)
  unfolding flush
  flush-Keeps s h =
      let (kept, empty) = flush_line-Keeps s.pending_cr s h in
      >>>-Keeps s (flush_line s.pending_cr s) flush_event kept
        (flush_event-Keeps (flush_line s.pending_cr s).framer empty)
