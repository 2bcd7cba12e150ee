-- ===== src/Provider/Sse/Calls.antt =====
-- What a call of the framer leaves of its limits, and the failure behind an error.
use tracepress.Base.{
  ◌≡◌, refl, ap, ◌∙◌, inl, inr, Option, none, some, List, [], ◌∷◌, Bytes, Option-cases, Result, ok,
  err,
}
use tracepress.Provider.Domain.{ObservationError}
use tracepress.Provider.Sse.{
  SseFramer, SseEvent, Framed, frame, flush, deliver, unless_failed, push, finish,
}
use tracepress.Provider.Sse.Fragments.{frame-IsFraming}

deliver_limits :
    (s : SseFramer) (events : List SseEvent) (r : Result ObservationError (Unit {0}))
    → (deliver s events r).0.limits ≡ s.limits
deliver_limits s events (ok _) = refl
deliver_limits s [] (err e) = refl
deliver_limits s (x ∷ xs) (err e) = refl

deliver_fails :
    (s : SseFramer) (events : List SseEvent) (r : Result ObservationError (Unit {0}))
    (e : ObservationError)
    → (deliver s events r).1 ≡ err e
    → (deliver s events r).0.failure ≡ some e
deliver_fails s events (ok _) e h = absurd cc
deliver_fails s [] (err d) e h = cc
deliver_fails s (x ∷ xs) (err d) e h = absurd cc

unless_failed_fails :
    (s : SseFramer) (o : Option ObservationError)
    → s.failure ≡ o
    → (f : Framed) (e : ObservationError) → (unless_failed s o f).1 ≡ err e
    → (unless_failed s o f).0.failure ≡ some e
unless_failed_fails s (some d) same f e h = let errors : d ≡ e = cc in same ∙ ap some errors
unless_failed_fails s none same f e h = deliver_fails f.framer f.events f.framing e h

-- What a call leaves of the limits, and the failure behind an error.
pub push-IsFraming : (s : SseFramer) (bytes : Bytes) → (push s bytes).0.limits ≡ s.limits
unfolding push
push-IsFraming s bytes = elim (Option-cases s.failure) [
  | inr (e, failed) ↦ ap (λ o. (unless_failed s o (frame s bytes)).0.limits) failed
  | inl live ↦
      ap (λ o. (unless_failed s o (frame s bytes)).0.limits) live
      ∙ deliver_limits (frame s bytes).framer (frame s bytes).events (frame s bytes).framing
      ∙ (frame-IsFraming s bytes).1
]

pub latched_fails :
    (s : SseFramer) (f : Framed) {e : ObservationError}
    → s.failure ≡ some e
    → unless_failed s s.failure f ≡ (s, err e)
latched_fails s f failed = ap (λ o. unless_failed s o f) failed

pub push-latched :
    (s : SseFramer) (bytes : Bytes) {e : ObservationError}
    → s.failure ≡ some e
    → push s bytes ≡ (s, err e)
unfolding push
push-latched s bytes = latched_fails s (frame s bytes)

pub finish-latched :
    (s : SseFramer) {e : ObservationError} → s.failure ≡ some e → finish s ≡ (s, err e)
unfolding finish
finish-latched s = latched_fails s (flush s)

pub push-fails :
    (s : SseFramer) (bytes : Bytes) (e : ObservationError)
    → (push s bytes).1 ≡ err e
    → (push s bytes).0.failure ≡ some e
unfolding push
push-fails s bytes e = unless_failed_fails s s.failure refl (frame s bytes) e
