-- ===== src/Provider/Sse/Fragments.antt =====
-- How the transport cuts the stream into chunks does not matter.
use tracepress.Base.{
  ℕ, ◌≡◌, refl, sym, ap, ◌∙◌, inl, inr, Bool, true, false, none, some, List, [], ◌∷◌, ◌++◌,
  append_assoc, append-nil, arith, Bytes, ◌==◌, if◌then◌else◌, Option-cases, Result, Result-cases,
  ok, err,
}
use tracepress.Provider.Domain.{ObservationError}
use tracepress.Provider.Sse.{
  SseFramer, SseEvent, Framed, ◌>>>◌, emit_event, apply_field, interpret_line, finish_line,
  frame_plain, frame_pending, frame_byte, frame, deliver, unless_failed, push, split_field,
  delivered, Received, observe, push_all,
}

-- What a step leaves unchanged, and the only error that it can end with.
abbrev IsFraming : SseFramer → Framed → Type 0
IsFraming s f = (f.framer.failure ≡ s.failure) × (f.framer.limits ≡ s.limits)

if_either :
    (s : SseFramer) (f g : Framed) (c : Bool)
    → IsFraming s f
    → IsFraming s g
    → IsFraming s (if c then f else g)
if_either s f g true hf hg = hf
if_either s f g false hf hg = hg

emit_event-IsFraming : (s : SseFramer) → IsFraming s (emit_event s)
unfolding emit_event
emit_event-IsFraming s = ground arith

apply_field-IsFraming :
    (s : SseFramer) (field value : Bytes) → IsFraming s (apply_field s (field, value))
unfolding apply_field
apply_field-IsFraming s field value = ground arith

>>>-IsFraming :
    (s : SseFramer) (f : Framed) (next : SseFramer → Framed)
    → IsFraming s f
    → ((t : SseFramer) → IsFraming t (next t))
    → IsFraming s (f >>> next)
>>>-IsFraming s f next (failure, limits) hnext = elim (Result-cases f.framing) [
  | inl (_, e) ↦ rw e ((hnext f.framer).0 ∙ failure, (hnext f.framer).1 ∙ limits)
  | inr (_, e) ↦ rw e (failure, limits)
]

>>>-assoc : (f : Framed) (g h : SseFramer → Framed) → (f >>> g) >>> h ≡ f >>> (λ s. g s >>> h)
>>>-assoc f g h = elim (Result-cases f.framing) [
  | inl (_, e) ↦ elim (Result-cases (g f.framer).framing) [
    | inl (_, e') ↦
        rw (e, e')
          (rw (append_assoc f.events (g f.framer).events (h (g f.framer).framer).events) refl)
    | inr (_, e') ↦ rw (e, e') refl
  ]
  | inr (_, e) ↦ rw e refl
]

interpret_line-IsFraming : (s : SseFramer) (line : Bytes) → IsFraming s (interpret_line s line)
interpret_line-IsFraming s [] = ground (arith, emit_event-IsFraming s)
interpret_line-IsFraming s (b ∷ bs) =
    let (field, value) = split_field (b ∷ bs) in ground (arith, apply_field-IsFraming s field value)

finish_line-IsFraming : (s : SseFramer) → IsFraming s (finish_line s)
unfolding finish_line
finish_line-IsFraming s = interpret_line-IsFraming (record s { line = [] }) s.line

frame_plain-IsFraming : (b : ℕ) (s : SseFramer) → IsFraming s (frame_plain b s)
frame_plain-IsFraming b s = ground (arith, finish_line-IsFraming s)

frame_pending-IsFraming : (p : Bool) (b : ℕ) (s : SseFramer) → IsFraming s (frame_pending p b s)
frame_pending-IsFraming false b s = frame_plain-IsFraming b s
frame_pending-IsFraming true b s =
    let cleared : SseFramer = record s { pending_cr = false } in
    if_either s (finish_line cleared) (finish_line cleared >>> frame_plain b) (b == 10)
      (finish_line-IsFraming cleared)
      (>>>-IsFraming s (finish_line cleared) (frame_plain b) (finish_line-IsFraming cleared)
        (frame_plain-IsFraming b))

frame_byte-IsFraming : (s : SseFramer) (b : ℕ) → IsFraming s (frame_byte s b)
unfolding frame_byte
frame_byte-IsFraming s b = frame_pending-IsFraming s.pending_cr b s

frame-append :
    (s : SseFramer) (xs ys : Bytes) → frame s (xs ++ ys) ≡ frame s xs >>> (λ t. frame t ys)
unfolding frame
frame-append s [] ys = refl
frame-append s (x ∷ xs) ys =
    (λ i. frame_byte s x >>> (λ t. frame-append t xs ys i))
    ∙ sym (>>>-assoc (frame_byte s x) (λ t. frame t xs) (λ t. frame t ys))

pub frame-IsFraming : (s : SseFramer) (bytes : Bytes) → IsFraming s (frame s bytes)
unfolding frame
frame-IsFraming s [] = (refl, refl)
frame-IsFraming s (b ∷ bs) =
    >>>-IsFraming s (frame_byte s b) (λ t. frame t bs) (frame_byte-IsFraming s b)
      (λ t. frame-IsFraming t bs)

-- The bytes of all chunks.
unfoldable pub all_bytes : List Bytes → Bytes
all_bytes [] = []
all_bytes (chunk ∷ chunks) = chunk ++ all_bytes chunks

abbrev pub latch : SseFramer → Result ObservationError (Unit {0}) → SseFramer
latch s (err e) = record s { failure = some e }
latch s (ok _) = s

pub observe_latched :
    (s : SseFramer) (bytes : Bytes) {e : ObservationError}
    → s.failure ≡ some e
    → observe s bytes ≡ (s, [])
unfolding push observe
observe_latched s bytes h =
    ap (λ o. let r = unless_failed s o (frame s bytes) in (r.0, delivered r.1)) h

deliver_lem :
    (s : SseFramer) (events : List SseEvent) (framing : Result ObservationError (Unit {0}))
    → ◌≡◌ {A = Received}
        ((deliver s events framing).0, delivered (deliver s events framing).1)
        (latch s framing, events)
deliver_lem s events (ok _) = refl
deliver_lem s [] (err e) = refl
deliver_lem s (x ∷ xs) (err e) = refl

pub observe_live :
    (s : SseFramer) (bytes : Bytes)
    → s.failure ≡ none
    → observe s bytes
      ≡ (latch (frame s bytes).framer (frame s bytes).framing, (frame s bytes).events)
unfolding push observe
observe_live s bytes h =
    ap (λ o. let r = unless_failed s o (frame s bytes) in (r.0, delivered r.1)) h
    ∙ deliver_lem (frame s bytes).framer (frame s bytes).events (frame s bytes).framing

-- One observation after another.
abbrev observe_both : SseFramer → Bytes → Bytes → SseFramer × List SseEvent
observe_both s xs ys =
    let (t, events) = observe s xs in let (u, later) = observe t ys in (u, events ++ later)

observe-append : (s : SseFramer) (xs ys : Bytes) → observe s (xs ++ ys) ≡ observe_both s xs ys
observe-append s xs ys = elim (Option-cases s.failure) [
  | inr (e, failed) ↦
      rw (observe_latched s (xs ++ ys) failed, observe_latched s xs failed)
        (rw (observe_latched s ys failed) refl)
  | inl live ↦
      rw (observe_live s xs live, observe_live s (xs ++ ys) live, frame-append s xs ys)
        (elim (Result-cases (frame s xs).framing) [
          | inl (_, e) ↦
              rw e (rw (observe_live (frame s xs).framer ys ((frame-IsFraming s xs).0 ∙ live)) refl)
          | inr (_, e) ↦ rw e (
              rw (observe_latched (record (frame s xs).framer { failure = some _ }) ys refl)
                (rw (append-nil (frame s xs).events) refl))
        ])
]

frame_nothing :
    (s : SseFramer)
    → ◌≡◌ {A = Received}
        (latch (frame s []).framer (frame s []).framing, (frame s []).events)
        (s, [])
unfolding frame
frame_nothing s = refl

observe-empty : (s : SseFramer) → observe s [] ≡ (s, [])
observe-empty s = elim (Option-cases s.failure) [
  | inr (e, failed) ↦ observe_latched s [] failed
  | inl live ↦ observe_live s [] live ∙ frame_nothing s
]

push_all-all_bytes :
    (s : SseFramer) (chunks : List Bytes) → push_all s chunks ≡ observe s (all_bytes chunks)
unfolding push_all all_bytes
push_all-all_bytes s [] = sym (observe-empty s)
push_all-all_bytes s (chunk ∷ chunks) =
    rw (push_all-all_bytes (observe s chunk).0 chunks)
      (sym (observe-append s chunk (all_bytes chunks)))

-- For every framer, two ways to cut the same bytes into chunks leave the same framer, its latched
-- failure included, and hand over the same events in the same order.
pub push_all_fragments :
    (s : SseFramer) (chunks others : List Bytes)
    → all_bytes chunks ≡ all_bytes others
    → push_all s chunks ≡ push_all s others
push_all_fragments s chunks others same =
    push_all-all_bytes s chunks ∙ ap (observe s) same ∙ sym (push_all-all_bytes s others)
