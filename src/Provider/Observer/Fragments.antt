-- ===== src/Provider/Observer/Fragments.antt =====
-- What an observation says of the events does not depend on how the stream was cut.
use tracepress.Base.{
  ℕ, suc, ◌+◌, ◌≤◌, ◌<◌, ◌≡◌, refl, sym, ap, ◌∙◌, subst, ◌⊎◌, inl, inr, true, false, some, List,
  arith, Bytes, if◌then◌else◌, Bool-cases, u64_max, length, Result, ok, err,
}
use tracepress.Provider.Domain.{
  ObservationLimits, ObservationError, ObservationStatus, status_for_error,
}
use tracepress.Provider.Sse.{SseEvent, SseFramer, delivered}
use tracepress.Provider.Sse
use tracepress.Provider.Sse.Calls.{push-IsFraming, push-latched, push-fails}
use tracepress.Provider.Interpret.{Interpretation, degrade, worse, Readers}
use tracepress.Provider.Observer.{StreamingObserver, Clock, count_fragment, frame_fragment, push}
use tracepress.Provider.Observer.Steps.{
  interpret_events, interpret_events_terminal, interpret_framed, frame_fragment_interprets,
}

abbrev pub Counts : StreamingObserver → ℕ → ℕ → Type 0
Counts o chunks bytes =
    (o.measures.chunk_count ≡ some chunks) × (o.measures.byte_count ≡ some bytes)

-- The interpretation is i, or i degraded by the failure that the framer latched.
abbrev pub SaysOf : SseFramer → Interpretation → Interpretation → Type 0
SaysOf s i said =
    (said ≡ i)
    ⊎ ((e : ObservationError) × (s.failure ≡ some e) × (said ≡ degrade (status_for_error e) i))

-- The observer stands where a framer s that was given all bytes, and an interpretation i of all its
-- events, stand. Behind a terminal event the framer is given nothing more.
abbrev pub Agrees : StreamingObserver → SseFramer → Interpretation → Type 0
Agrees o s i =
    ((i.terminal ≡ true) × (o.interpretation ≡ i))
    ⊎ ((i.terminal ≡ false) × (o.framer ≡ s) × SaysOf s i o.interpretation)

count_fragment_lem :
    (size : ℕ) (o : StreamingObserver) (chunks bytes : ℕ)
    → Counts o chunks bytes
    → chunks < u64_max
    → bytes + size ≤ u64_max
    → ((count_fragment size o).interpretation ≡ o.interpretation)
      × Counts (count_fragment size o) (suc chunks) (bytes + size)
count_fragment_lem size o chunks bytes counts h k = ground arith

push_frozen :
    (readers : Readers) (clock : Clock) (bytes : Bytes) (o : StreamingObserver)
    → o.settled ≡ false
    → (count_fragment (length bytes) o).interpretation.terminal ≡ true
    → (push readers clock bytes o).0 ≡ count_fragment (length bytes) o
unfolding push
push_frozen readers clock bytes o live frozen =
    let counted = count_fragment (length bytes) o in
    let framed = frame_fragment readers clock bytes counted in
    let inner = if counted.interpretation.terminal then (counted, ok tt) else framed in
    ap (λ b. (if b then (o, ok tt) else inner).0) live
    ∙ ap (λ b. (if b then (counted, ok tt) else framed).0) frozen

push_framed :
    (readers : Readers) (clock : Clock) (bytes : Bytes) (o : StreamingObserver)
    → o.settled ≡ false
    → (count_fragment (length bytes) o).interpretation.terminal ≡ false
    → (push readers clock bytes o).0
      ≡ (frame_fragment readers clock bytes (count_fragment (length bytes) o)).0
unfolding push
push_framed readers clock bytes o live goes_on =
    let counted = count_fragment (length bytes) o in
    let framed = frame_fragment readers clock bytes counted in
    let inner = if counted.interpretation.terminal then (counted, ok tt) else framed in
    ap (λ b. (if b then (o, ok tt) else inner).0) live
    ∙ ap (λ b. (if b then (counted, ok tt) else framed).0) goes_on

-- An answer of the framer to a live observer.
framed_Agrees :
    (readers : Readers) (l : ObservationLimits) (r : Result ObservationError (List SseEvent))
    (p : StreamingObserver) (t : SseFramer) (i : Interpretation)
    → i.terminal ≡ false
    → p.framer ≡ t
    → p.interpretation ≡ interpret_framed readers l r i
    → ((e : ObservationError) → r ≡ err e → t.failure ≡ some e)
    → Agrees p t (interpret_events readers l (delivered r) i)
unfolding interpret_events
framed_Agrees readers l (ok events) p t i live same said fails =
    elim (Bool-cases (interpret_events readers l events i).terminal) [
      | inl ended ↦ inl (ended, said)
      | inr goes_on ↦ inr (goes_on, same, inl said)
    ]
framed_Agrees readers l (err e) p t i live same said fails =
    inr (live, same, inr (e, fails e refl, said))

-- Degrading by the same status twice is degrading once.
worse_twice :
    (status current : ObservationStatus)
    → worse status (worse status current) ≡ worse status current
worse_twice status current = ground arith

pub degrade_twice :
    (status : ObservationStatus) (i : Interpretation)
    → degrade status (degrade status i) ≡ degrade status i
degrade_twice status i = ap (λ s. record i { status = s }) (worse_twice status i.status)

-- A live observer that frames a fragment.
live_Agrees :
    (readers : Readers) (l : ObservationLimits) (bytes : Bytes) (o p : StreamingObserver)
    (s : SseFramer) (i : Interpretation)
    → s.limits ≡ l
    → i.terminal ≡ false
    → SaysOf s i o.interpretation
    → p.framer ≡ (Sse.push s bytes).0
    → p.interpretation ≡ interpret_framed readers l (Sse.push s bytes).1 o.interpretation
    → Agrees p (Sse.push s bytes).0 (interpret_events readers l (delivered (Sse.push s bytes).1) i)
unfolding interpret_events
live_Agrees readers l bytes o p s i limits live (inl same) framed said =
    framed_Agrees readers l (Sse.push s bytes).1 p (Sse.push s bytes).0 i live framed
      (said ∙ ap (interpret_framed readers l (Sse.push s bytes).1) same) (push-fails s bytes)
live_Agrees readers l bytes o p s i limits live (inr (e, failed, degraded)) framed said =
    subst (λ (d : Sse.Delivered). Agrees p d.0 (interpret_events readers l (delivered d.1) i))
      (sym (push-latched s bytes failed))
      (inr (
        live,
        framed ∙ ap (λ (d : Sse.Delivered). d.0) (push-latched s bytes failed),
        inr (
          e,
          failed,
          said
              ∙ ap (λ (d : Sse.Delivered). interpret_framed readers l d.1 o.interpretation)
                  (push-latched s bytes failed)
              ∙ ap (degrade (status_for_error e)) degraded
              ∙ degrade_twice (status_for_error e) i,
        ),
      ))

-- Where an observer, its owner and its counters stand.
abbrev pub Stands :
    ObservationLimits → StreamingObserver → SseFramer → Interpretation → ℕ → ℕ → Type 0
Stands l o s i chunks bytes =
    (s.limits ≡ l) × (o.settled ≡ false) × Agrees o s i × Counts o chunks bytes

pub says_terminal : (s : SseFramer) (i j : Interpretation) → SaysOf s i j → j.terminal ≡ i.terminal
says_terminal s i j (inl same) = ap (λ (k : Interpretation). k.terminal) same
says_terminal s i j (inr (_, _, degraded)) = ap (λ (k : Interpretation). k.terminal) degraded

pub push-Stands :
    (readers : Readers) (l : ObservationLimits) (clock : Clock) (bytes : Bytes)
    (o : StreamingObserver) (s : SseFramer) (i : Interpretation) (chunks total : ℕ)
    → Stands l o s i chunks total
    → chunks < u64_max
    → total + length bytes ≤ u64_max
    → Stands l
        (push readers clock bytes o).0
        (Sse.push s bytes).0
        (interpret_events readers l (delivered (Sse.push s bytes).1) i)
        (suc chunks)
        (total + length bytes)
push-Stands readers l clock bytes o s i chunks total (limits, unsettled, inl (ended, said), counts)
      h k =
    let (kept, counted) = count_fragment_lem (length bytes) o chunks total counts h k in
    let (t, r) = Sse.push s bytes in
    let frozen =
      push_frozen readers clock bytes o unsettled
        (ap (λ (j : Interpretation). j.terminal) (kept ∙ said) ∙ ended) in
    let same = interpret_events_terminal readers l (delivered r) i ended in
    subst
      (λ p.
        Stands l p t (interpret_events readers l (delivered r) i) (suc chunks)
          (total + length bytes))
      (sym frozen)
      (
        push-IsFraming s bytes ∙ limits,
        unsettled,
        inl (ap (λ (j : Interpretation). j.terminal) same ∙ ended, kept ∙ said ∙ sym same),
        counted,
      )
push-Stands readers l clock bytes o s i chunks total
      (limits, unsettled, inr (live, same, said), counts) h k =
    let (kept, counted) = count_fragment_lem (length bytes) o chunks total counts h k in
    let (t, r) = Sse.push s bytes in
    let goes_on = push_framed readers clock bytes o unsettled (
      ap (λ (j : Interpretation). j.terminal) kept
      ∙ says_terminal s i o.interpretation said
      ∙ live) in
    let p = (frame_fragment readers clock bytes (count_fragment (length bytes) o)).0 in
    let (framed, told, settled, chunks', bytes') =
      frame_fragment_interprets readers clock bytes (count_fragment (length bytes) o) in
    let (framed', told') =
      subst
        (λ f.
          (p.framer ≡ (Sse.push f bytes).0)
          × (p.interpretation
              ≡ interpret_framed readers (Sse.push f bytes).0.limits (Sse.push f bytes).1
                  (count_fragment (length bytes) o).interpretation))
        same (framed, told) in
    let words =
      told'
      ∙ ap (λ m. interpret_framed readers m r (count_fragment (length bytes) o).interpretation)
          (push-IsFraming s bytes ∙ limits)
      ∙ ap (interpret_framed readers l r) kept in
    subst
      (λ q.
        Stands l q t (interpret_events readers l (delivered r) i) (suc chunks)
          (total + length bytes))
      (sym goes_on)
      (
        push-IsFraming s bytes ∙ limits,
        settled ∙ unsettled,
        live_Agrees readers l bytes o p s i limits live said framed' words,
        (chunks' ∙ counted.0, bytes' ∙ counted.1),
      )
