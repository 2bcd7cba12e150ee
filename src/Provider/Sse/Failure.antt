-- ===== src/Provider/Sse/Failure.antt =====
-- A bound that was crossed is reported from then on.
use tracepress.Base.{
  ◌≡◌, refl, sym, ap, ◌∙◌, subst, ◌⊎◌, inl, inr, Option, none, some, List, [], ◌∷◌, arith, Bytes,
  Result, ok, err,
}
use tracepress.Provider.Domain.{ObservationLimits, ObservationError, resource_limit}
use tracepress.Provider.Sse.{
  SseFramer, SseEvent, Framed, new, frame, flush, deliver, unless_failed, push, finish, observe,
  push_all, Delivered,
}
use tracepress.Provider.Sse.Fragments.{frame-IsFraming}
use tracepress.Provider.Sse.Bounds.{IsBounded, Keeps, IsLimited, frame-Keeps}
use tracepress.Provider.Sse.Session.{observe-IsWithin}

-- Either nothing failed and the call answered with events, or every later call answers with
-- `ResourceLimit` and leaves the framer as it is.
abbrev pub IsSettled : Delivered → Type 0
IsSettled (t, r) =
    ((t.failure ≡ none) × (events : List SseEvent) × (r ≡ ok events))
    ⊎ ((t.failure ≡ some resource_limit)
        × ((more : Bytes) → push t more ≡ (t, err resource_limit))
        × (finish t ≡ (t, err resource_limit)))

abbrev IsLatched : Option ObservationError → Type 0
IsLatched o = (o ≡ none) ⊎ (o ≡ some resource_limit)

failed_IsSettled :
    (t : SseFramer) (r : Result ObservationError (List SseEvent))
    → t.failure ≡ some resource_limit
    → IsSettled (t, r)
unfolding push finish
failed_IsSettled t r failed = inr (
  failed,
  (λ more. ap (λ o. unless_failed t o (frame t more)) failed),
  ap (λ o. unless_failed t o (flush t)) failed,
)

deliver-IsSettled :
    (s : SseFramer) (events : List SseEvent) (r : Result ObservationError (Unit {0}))
    → s.failure ≡ none
    → IsLimited r
    → IsSettled (deliver s events r)
deliver-IsSettled s events (ok _) live _ = inl (live, events, refl)
deliver-IsSettled s [] (err e) live limited =
    failed_IsSettled (record s { failure = some e }) (err e) (ap some limited)
deliver-IsSettled s (x ∷ xs) (err e) live limited =
    failed_IsSettled (record s { failure = some e }) (ok (x ∷ xs)) (ap some limited)

unless_failed-IsSettled :
    (s : SseFramer) (f : Framed)
    → IsLatched s.failure
    → f.framer.failure ≡ s.failure
    → IsLimited f.framing
    → IsSettled (unless_failed s s.failure f)
unless_failed-IsSettled s f (inl live) same limited =
    subst (λ o. IsSettled (unless_failed s o f)) (sym live)
      (deliver-IsSettled f.framer f.events f.framing (same ∙ live) limited)
unless_failed-IsSettled s f (inr failed) same limited =
    subst (λ o. IsSettled (unless_failed s o f)) (sym failed)
      (failed_IsSettled s (err resource_limit) failed)

IsSettled-IsLatched : (d : Delivered) → IsSettled d → IsLatched d.0.failure
IsSettled-IsLatched d (inl (live, _, _)) = inl live
IsSettled-IsLatched d (inr (failed, _, _)) = inr failed

push-IsSettled_bounded :
    (l : ObservationLimits) (s : SseFramer) (chunk : Bytes)
    → IsBounded l s
    → IsLatched s.failure
    → IsSettled (push s chunk)
unfolding push Keeps
push-IsSettled_bounded l s chunk h latched =
    let (_, _, _, limited) = frame-Keeps l s chunk h in
    unless_failed-IsSettled s (frame s chunk) latched (frame-IsFraming s chunk).0 limited

push_all-IsSettled :
    (l : ObservationLimits) (s : SseFramer) (chunks : List Bytes) (chunk : Bytes)
    → IsBounded l s
    → IsLatched s.failure
    → IsSettled (push (push_all s chunks).0 chunk)
unfolding push_all observe
push_all-IsSettled l s [] chunk h latched = push-IsSettled_bounded l s chunk h latched
push_all-IsSettled l s (first ∷ chunks) chunk h latched =
    push_all-IsSettled l (push s first).0 chunks chunk (observe-IsWithin l s first h).0
      (IsSettled-IsLatched (push s first) (push-IsSettled_bounded l s first h latched))

-- For any limits, any chunks given to a framer that started empty, and one more chunk: either no
-- failure is latched and the call answered with events, or the failure `ResourceLimit` is latched,
-- and every later `push` and `finish` answers with it, without an event, and leaves the framer as
-- it is.
pub push-IsSettled :
    (l : ObservationLimits) (chunks : List Bytes) (chunk : Bytes)
    → IsSettled (push (push_all (new l) chunks).0 chunk)
unfolding new IsBounded
push-IsSettled l chunks chunk =
    push_all-IsSettled l (new l) chunks chunk (refl, omega arith, omega arith, omega arith, tt)
      (inl refl)
