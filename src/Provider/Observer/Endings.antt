-- ===== src/Provider/Observer/Endings.antt =====
-- The end of a stream, from what the framer and the events say.
use tracepress.Base.{
  ℕ, ◌≡◌, refl, sym, ap, ◌∙◌, inl, inr, Bool, true, false, Option, List, if◌then◌else◌, Result, ok,
  err,
}
use tracepress.Provider.Domain.{
  ObservationError, ObservationStatus, partial, ProviderResponseState, incomplete, status_for_error,
}
use tracepress.Provider.Domain.{cancelled, disconnected}
use tracepress.Provider.Sse.{SseEvent, SseFramer}
use tracepress.Provider.Sse
use tracepress.Provider.Sse.Calls.{finish-latched}
use tracepress.Provider.Interpret.{Interpretation, degrade, Readers}
use tracepress.Provider.Observer.{
  StreamingObserver, Clock, settle, absorb_failure, conclude, observe_end, finish_live, finish,
  settle_without_completion, cancel, disconnect, Ending, finishes, cancels, disconnects, end_with,
}
use tracepress.Provider.Observer.Steps.{interpret_events, observe_events_interprets}
use tracepress.Provider.Observer.Fragments.{SaysOf, Agrees, says_terminal, degrade_twice}

-- The last events of the framer, and the bound that it crossed.
abbrev finish_events :
    Readers → SseFramer × Result ObservationError (List SseEvent) → Interpretation → Interpretation
finish_events readers (t, ok events) i = interpret_events readers t.limits events i
finish_events readers (t, err _) i = i

abbrev pub absorbed :
    Readers → SseFramer × Result ObservationError (List SseEvent) → Interpretation → Interpretation
absorbed readers d i = absorb_failure d.0.failure (finish_events readers d i)

abbrev pub closed : Interpretation → Interpretation
closed i = record i { terminal = true }

abbrev pub unconcluded :
    ProviderResponseState → ObservationStatus → SseFramer → Interpretation → Interpretation
unconcluded state status s i =
    conclude state status (if i.terminal then i else absorb_failure s.failure i)

-- What an ending says, from the framer and the interpretation of all events.
abbrev pub concluded : Ending → Readers → SseFramer → Interpretation → Interpretation
concluded finishes readers s i =
    closed
      (if i.terminal then i else conclude incomplete partial (absorbed readers (Sse.finish s) i))
concluded cancels readers s i = closed (unconcluded cancelled cancelled s i)
concluded disconnects readers s i = closed (unconcluded disconnected partial s i)

absorb_says :
    (s : SseFramer) (i j : Interpretation)
    → SaysOf s i j
    → absorb_failure s.failure j ≡ absorb_failure s.failure i
absorb_says s i j (inl same) = ap (absorb_failure s.failure) same
absorb_says s i j (inr (e, failed, degraded)) =
    ap (λ o. absorb_failure o j) failed
    ∙ ap (degrade (status_for_error e)) degraded
    ∙ degrade_twice (status_for_error e) i
    ∙ sym (ap (λ o. absorb_failure o i) failed)

absorbed_says :
    (readers : Readers) (s : SseFramer) (i j : Interpretation)
    → SaysOf s i j
    → absorbed readers (Sse.finish s) j ≡ absorbed readers (Sse.finish s) i
absorbed_says readers s i j (inl same) = ap (absorbed readers (Sse.finish s)) same
absorbed_says readers s i j (inr (e, failed, degraded)) =
    let latched = finish-latched s failed in
    ap (λ d. absorbed readers d j) latched
    ∙ absorb_says s i j (inr (e, failed, degraded))
    ∙ sym (ap (λ d. absorbed readers d i) latched)

observe_end_interprets :
    (readers : Readers) (clock : Clock) (d : SseFramer × Result ObservationError (List SseEvent))
    (o : StreamingObserver)
    → (let p = observe_end readers clock d o in
        (p.framer ≡ d.0) × (p.interpretation ≡ finish_events readers d o.interpretation))
observe_end_interprets readers clock (t, err _) o = (refl, refl)
observe_end_interprets readers clock (t, ok events) o =
    let (said, (kept, _, _, _)) =
      observe_events_interprets readers clock events (record o { framer = t }) in
    (kept, said)

finish_live_says :
    (readers : Readers) (clock : Clock) (o : StreamingObserver)
    → (finish_live readers clock o).interpretation
      ≡ conclude incomplete partial (absorbed readers (Sse.finish o.framer) o.interpretation)
finish_live_says readers clock o =
    let (kept, said) = observe_end_interprets readers clock (Sse.finish o.framer) o in
    λ i. conclude incomplete partial (absorb_failure (kept i).failure (said i))

abbrev is_terminal : Interpretation → Bool
is_terminal i = i.terminal

finish_terminal :
    (readers : Readers) (clock : Clock) (now : Option ℕ) (o : StreamingObserver)
    → o.settled ≡ false
    → o.interpretation.terminal ≡ true
    → (finish readers clock now o).interpretation ≡ closed o.interpretation
unfolding finish
finish_terminal readers clock now o unsettled ended =
    let live = settle now (finish_live readers clock o) in
    let other = if o.interpretation.terminal then settle now o else live in
    ap (λ b. (if b then o else other).interpretation) unsettled
    ∙ ap (λ b. (if b then settle now o else live).interpretation) ended

finish_unended :
    (readers : Readers) (clock : Clock) (now : Option ℕ) (o : StreamingObserver)
    → o.settled ≡ false
    → o.interpretation.terminal ≡ false
    → (finish readers clock now o).interpretation
      ≡ closed (finish_live readers clock o).interpretation
unfolding finish
finish_unended readers clock now o unsettled goes_on =
    let live = settle now (finish_live readers clock o) in
    let other = if o.interpretation.terminal then settle now o else live in
    ap (λ b. (if b then o else other).interpretation) unsettled
    ∙ ap (λ b. (if b then settle now o else live).interpretation) goes_on

finish_says :
    (readers : Readers) (clock : Clock) (now : Option ℕ) (o : StreamingObserver) (s : SseFramer)
    (i : Interpretation)
    → o.settled ≡ false
    → Agrees o s i
    → (finish readers clock now o).interpretation ≡ concluded finishes readers s i
unfolding finish
finish_says readers clock now o s i unsettled (inl (ended, said)) =
    finish_terminal readers clock now o unsettled (ap is_terminal said ∙ ended)
    ∙ ap closed said
    ∙ sym (
        ap
          (λ b.
            closed
              (if b then i else conclude incomplete partial (absorbed readers (Sse.finish s) i)))
          ended)
finish_says readers clock now o s i unsettled (inr (live, same, said)) =
    finish_unended readers clock now o unsettled (says_terminal s i o.interpretation said ∙ live)
    ∙ ap closed (
        finish_live_says readers clock o
        ∙ ap (λ f. conclude incomplete partial (absorbed readers (Sse.finish f) o.interpretation))
            same
        ∙ ap (conclude incomplete partial) (absorbed_says readers s i o.interpretation said))
    ∙ sym (
        ap
          (λ b.
            closed
              (if b then i else conclude incomplete partial (absorbed readers (Sse.finish s) i)))
          live)

absorbed_Agrees :
    (o : StreamingObserver) (s : SseFramer) (i : Interpretation)
    → Agrees o s i
    → (let j = o.interpretation in
        (if j.terminal then j else absorb_failure o.framer.failure j)
        ≡ (if i.terminal then i else absorb_failure s.failure i))
absorbed_Agrees o s i (inl (ended, said)) =
    let j = o.interpretation in
    ap (λ b. if b then j else absorb_failure o.framer.failure j) (ap is_terminal said ∙ ended)
    ∙ said
    ∙ sym (ap (λ b. if b then i else absorb_failure s.failure i) ended)
absorbed_Agrees o s i (inr (live, same, said)) =
    let j = o.interpretation in
    ap (λ b. if b then j else absorb_failure o.framer.failure j) (says_terminal s i j said ∙ live)
    ∙ ap (λ (f : SseFramer). absorb_failure f.failure j) same
    ∙ absorb_says s i j said
    ∙ sym (ap (λ b. if b then i else absorb_failure s.failure i) live)

settle_says :
    (state : ProviderResponseState) (status : ObservationStatus) (now : Option ℕ)
    (o : StreamingObserver) (s : SseFramer) (i : Interpretation)
    → o.settled ≡ false
    → Agrees o s i
    → (settle_without_completion state status now o).interpretation
      ≡ closed (unconcluded state status s i)
settle_says state status now o s i unsettled agrees =
    ap
      (λ b.
        (if b
          then o
          else settle now (record o {
            interpretation = conclude state status (
                if o.interpretation.terminal
                then o.interpretation
                else absorb_failure o.framer.failure o.interpretation);
          })).interpretation)
      unsettled
    ∙ ap (λ j. closed (conclude state status j)) (absorbed_Agrees o s i agrees)

-- An ending says what the framer of all bytes and the interpretation of all events determine.
pub end_with_says :
    (ending : Ending) (readers : Readers) (clock : Clock) (now : Option ℕ) (o : StreamingObserver)
    (s : SseFramer) (i : Interpretation)
    → o.settled ≡ false
    → Agrees o s i
    → (end_with ending readers clock now o).interpretation ≡ concluded ending readers s i
unfolding cancel disconnect
end_with_says finishes readers clock now o s i unsettled =
    finish_says readers clock now o s i unsettled
end_with_says cancels readers clock now o s i unsettled =
    settle_says cancelled cancelled now o s i unsettled
end_with_says disconnects readers clock now o s i unsettled =
    settle_says disconnected partial now o s i unsettled
