-- ===== src/Provider/Observer/Streams.antt =====
-- A whole stream says the same however it was cut.
use tracepress.Base.{
  ℕ, suc, ◌+◌, ◌≤◌, ◌≡◌, refl, sym, ap, ◌∙◌, subst, inl, inr, true, false, Option, some, List, [],
  ◌∷◌, arith, Bytes, if◌then◌else◌, u64_max, length, length-append,
}
use tracepress.Provider.Domain.{
  ObservationLimits, ObservationStatus, partial, ProviderResponseState, incomplete, cancelled,
  disconnected,
}
use tracepress.Provider.Sse.{SseEvent, SseFramer, delivered}
use tracepress.Provider.Sse
use tracepress.Provider.Sse.Fragments.{all_bytes, push_all_fragments}
use tracepress.Provider.Interpret.{
  Interpretation, empty, degrade, Readers, has_evidence, settled_status,
}
use tracepress.Provider.Observer.{
  StreamingObserver, new, Clock, push, absorb_failure, conclude, Ending, finishes, cancels,
  disconnects, end_with, observe_stream,
}
use tracepress.Provider.Observer.Steps.{
  interpret_events, interpret_events_terminal, interpret_events-append,
}
use tracepress.Provider.Observer.Fragments.{Agrees, Counts, Stands, push-Stands}
use tracepress.Provider.Observer.Endings.{absorbed, closed, unconcluded, concluded, end_with_says}

abbrev pub fragments : List (Clock × Bytes) → List Bytes
fragments [] = []
fragments ((_, bytes) ∷ rest) = bytes ∷ fragments rest

observe_stream-Stands :
    (readers : Readers) (l : ObservationLimits) (xs : List (Clock × Bytes)) (o : StreamingObserver)
    (s : SseFramer) (i : Interpretation) (chunks total : ℕ)
    → Stands l o s i chunks total
    → chunks + length xs ≤ u64_max
    → total + length (all_bytes (fragments xs)) ≤ u64_max
    → (let (t, events) = Sse.push_all s (fragments xs) in
        Stands l
          (observe_stream readers xs o)
          t
          (interpret_events readers l events i)
          (chunks + length xs)
          (total + length (all_bytes (fragments xs))))
unfolding observe_stream Sse.push_all Sse.observe all_bytes interpret_events
observe_stream-Stands readers l [] o s i chunks total (limits, unsettled, agrees, (c, b)) h k =
    (limits, unsettled, agrees, (c ∙ ap some (omega arith), b ∙ ap some (omega arith)))
observe_stream-Stands readers l ((clock, bytes) ∷ xs) o s i chunks total stands h k =
    let (t, r) = Sse.push s bytes in
    let (u, later) = Sse.push_all t (fragments xs) in
    let size = length-append bytes (all_bytes (fragments xs)) in
    let one =
      push-Stands readers l clock bytes o s i chunks total stands (omega arith) (omega arith) in
    let rest =
      observe_stream-Stands readers l xs (push readers clock bytes o).0 t
        (interpret_events readers l (delivered r) i) (suc chunks) (total + length bytes) one
        (omega arith) (omega arith) in
    let (limits, unsettled, agrees, (c, b)) = rest in
    (
      limits,
      unsettled,
      subst (Agrees (observe_stream readers xs (push readers clock bytes o).0) u)
          (sym (interpret_events-append readers l (delivered r) later i)) agrees,
      (c ∙ ap some (omega arith), b ∙ ap some (omega (arith, size))),
    )

new-Stands : (l : ObservationLimits) → Stands l (new l) (Sse.new l) empty 0 0
unfolding new Sse.new
new-Stands l = (refl, refl, inr (refl, refl, inl refl), (refl, refl))

from_zero : (n : ℕ) → ◌≡◌ {A = Option ℕ} (some (0 + n)) (some n)
from_zero n = ap some (omega arith)

-- A whole observation: every fragment, and the end.
abbrev pub observation :
    Readers
    → ObservationLimits
    → List (Clock × Bytes)
    → Ending
    → Clock
    → Option ℕ
    → StreamingObserver
observation readers l xs ending clock now =
    end_with ending readers clock now (observe_stream readers xs (new l))

-- For every reading of serde_json, all limits, and two ways to cut the same bytes into fragments,
-- each with fewer fragments and bytes than 2^64: however the clock runs, whether the owner then
-- finishes, cancels or disconnects, both observers say the same of the stream, in all fields that
-- events decide, and both have counted all bytes before the end.
pub observation-fragments :
    (readers : Readers) (l : ObservationLimits) (xs ys : List (Clock × Bytes)) (ending : Ending)
    (clock clock' : Clock) (now now' : Option ℕ)
    → all_bytes (fragments xs) ≡ all_bytes (fragments ys)
    → length xs ≤ u64_max
    → length ys ≤ u64_max
    → length (all_bytes (fragments xs)) ≤ u64_max
    → ((observation readers l xs ending clock now).interpretation
        ≡ (observation readers l ys ending clock' now').interpretation)
      × ((observe_stream readers xs (new l)).measures.byte_count
          ≡ some (length (all_bytes (fragments xs))))
      × ((observe_stream readers ys (new l)).measures.byte_count
          ≡ some (length (all_bytes (fragments xs))))
observation-fragments readers l xs ys ending clock clock' now now' same hx hy hb =
    let (_, unsettled, agrees, (_, bytes)) =
      observe_stream-Stands readers l xs (new l) (Sse.new l) empty 0 0 (new-Stands l) (omega arith)
        (omega arith) in
    let (_, unsettled', agrees', (_, bytes')) =
      observe_stream-Stands readers l ys (new l) (Sse.new l) empty 0 0 (new-Stands l) (omega arith)
        (omega (arith, subst (λ bs. length bs ≤ u64_max) same hb)) in
    let one = push_all_fragments (Sse.new l) (fragments xs) (fragments ys) same in
    (
      end_with_says ending readers clock now _ _ _ unsettled agrees
          ∙ ap
              (λ (d : SseFramer × List SseEvent).
                concluded ending readers d.0 (interpret_events readers l d.1 empty))
              one
          ∙ sym (end_with_says ending readers clock' now' _ _ _ unsettled' agrees'),
      bytes ∙ from_zero (length (all_bytes (fragments xs))),
      bytes'
          ∙ from_zero (length (all_bytes (fragments ys)))
          ∙ ap (λ (bs : Bytes). some (length bs)) (sym same),
    )

closed_terminal : (i : Interpretation) → i.terminal ≡ true → closed i ≡ i
closed_terminal i ended = λ k. record i { terminal = sym ended k }

unconcluded_terminal :
    (state : ProviderResponseState) (status : ObservationStatus) (s : SseFramer)
    (i : Interpretation) {reported : ProviderResponseState}
    → i.terminal ≡ true
    → i.evidence ≡ some reported
    → closed (unconcluded state status s i) ≡ i
unconcluded_terminal state status s i ended evidence =
    ap (λ b. closed (conclude state status (if b then i else absorb_failure s.failure i))) ended
    ∙ ap
        (λ o. closed (
          if has_evidence o
          then i
          else degrade status (record i {
            response_state = state;
            usage_status = settled_status i.usage_evidence false;
          })))
        evidence
    ∙ closed_terminal i ended

concluded_terminal :
    (ending : Ending) (readers : Readers) (s : SseFramer) (i : Interpretation)
    {reported : ProviderResponseState}
    → i.terminal ≡ true
    → i.evidence ≡ some reported
    → concluded ending readers s i ≡ i
concluded_terminal finishes readers s i ended evidence =
    ap
      (λ b.
        closed (if b then i else conclude incomplete partial (absorbed readers (Sse.finish s) i)))
      ended
    ∙ closed_terminal i ended
concluded_terminal cancels readers s i ended evidence =
    unconcluded_terminal cancelled cancelled s i ended evidence
concluded_terminal disconnects readers s i ended evidence =
    unconcluded_terminal disconnected partial s i ended evidence

-- For an observer that has not been settled, whose provider reported its own end and froze the
-- interpretation: whatever fragments follow, as long as the counters stay below 2^64, and however
-- the owner then ends the stream, every field that events decide is as it was.
pub observation_frozen :
    (readers : Readers) (o : StreamingObserver) (reported : ProviderResponseState)
    (chunks bytes : ℕ) (xs : List (Clock × Bytes)) (ending : Ending) (clock : Clock)
    (now : Option ℕ)
    → o.settled ≡ false
    → o.interpretation.terminal ≡ true
    → o.interpretation.evidence ≡ some reported
    → Counts o chunks bytes
    → chunks + length xs ≤ u64_max
    → bytes + length (all_bytes (fragments xs)) ≤ u64_max
    → (end_with ending readers clock now (observe_stream readers xs o)).interpretation
      ≡ o.interpretation
observation_frozen readers o reported chunks bytes xs ending clock now unsettled ended evidence
      counts h k =
    let i = o.interpretation in
    let (t, events) = Sse.push_all o.framer (fragments xs) in
    let l = o.framer.limits in
    let (_, unsettled', agrees, _) =
      observe_stream-Stands readers l xs o o.framer i chunks bytes
        (refl, unsettled, inl (ended, refl), counts) h k in
    let same = interpret_events_terminal readers l events i ended in
    end_with_says ending readers clock now _ _ _ unsettled' agrees
    ∙ ap (concluded ending readers t) same
    ∙ concluded_terminal ending readers t i ended evidence
