-- ===== src/Ipc/Frame/Exact.antt =====
-- An exact read does not depend on how the bytes are cut into chunks.
use tracepress.Base.{
  ℕ, ◌+◌, ◌-◌, ◌<◌, ◌≡◌, refl, sym, ap, ◌∙◌, inl, inr, true, false, List, [], ◌∷◌, ◌++◌,
  append_assoc, append-nil, arith, Bytes, leb, le→leb, Bool-cases, length, take, drop,
  length-append, Result, ok,
}
use tracepress.Ipc.Frame.{
  FramePart, IpcError, ReadEvent, data_ready, cancellation, failure, read_exact,
}
use tracepress.Ipc.Frame.Split.{append_split, take_cut, drop_cut}

-- The reader only has data, and never answers with no bytes.
abbrev pub IsFlowing : List ReadEvent → Type 0
IsFlowing [] = Unit {0}
IsFlowing (data_ready (c ∷ chunk) ∷ events) = IsFlowing events
IsFlowing _ = ⊥

-- All the bytes that the reader has.
abbrev pub available : List ReadEvent → Bytes
available [] = []
available (data_ready chunk ∷ events) = chunk ++ available events
available (_ ∷ events) = available events

-- The read gives these bytes, and leaves the others to be read.
abbrev pub Leaves : Result IpcError (Bytes × List ReadEvent) → Bytes → Bytes → Type 0
Leaves r bytes more =
    (rest : List ReadEvent) × (r ≡ ok (bytes, rest)) × IsFlowing rest × (available rest ≡ more)

IsFlowing-cons :
    (chunk : Bytes) (events : List ReadEvent)
    → 0 < length chunk
    → IsFlowing events
    → IsFlowing (data_ready chunk ∷ events)
IsFlowing-cons [] events h f = absurd (omega arith)
IsFlowing-cons (c ∷ chunk) events h f = f

-- A chunk that fits is taken whole.
read_fits :
    (part : FramePart) (expected : ℕ) (got : Bytes) (c : ℕ) (chunk : Bytes)
    (events : List ReadEvent) (es ys more : Bytes)
    → leb expected (length got) ≡ false
    → leb (length (c ∷ chunk)) (expected - length got) ≡ true
    → ys ≡ (c ∷ chunk) ++ es
    → Leaves
        (read_exact part expected (got ++ (c ∷ chunk)) events)
        ((got ++ (c ∷ chunk)) ++ es)
        more
    → Leaves (read_exact part expected got (data_ready (c ∷ chunk) ∷ events)) (got ++ ys) more
unfolding read_exact
read_fits part expected got c chunk events es ys more early fits p (rest, r, flows, left) =
    let same : (got ++ (c ∷ chunk)) ++ es ≡ got ++ ys =
      append_assoc got (c ∷ chunk) es ∙ ap (λ b. got ++ b) (sym p) in
    rw (early, fits) (rest, r ∙ ap (λ b. ok (b, rest)) same, flows, left)

pub read_exact-Leaves :
    (part : FramePart) (expected : ℕ) (got : Bytes) (events : List ReadEvent) (xs more : Bytes)
    → IsFlowing events
    → available events ≡ xs ++ more
    → length got + length xs ≡ expected
    → Leaves (read_exact part expected got events) (got ++ xs) more
unfolding read_exact
read_exact-Leaves part expected got [] [] more f e size =
    rw (le→leb expected (length got) (omega arith)) ([], rw append-nil refl, tt, e)
read_exact-Leaves part expected got [] (x ∷ xs) more f e size = cc
read_exact-Leaves part expected got (cancellation ∷ events) xs more f e size = absurd f
read_exact-Leaves part expected got (failure ∷ events) xs more f e size = absurd f
read_exact-Leaves part expected got (data_ready [] ∷ events) xs more f e size = absurd f
read_exact-Leaves part expected got (data_ready (c ∷ chunk) ∷ events) [] more f e size =
    rw (le→leb expected (length got) (omega arith))
      (data_ready (c ∷ chunk) ∷ events, rw append-nil refl, f, e)
read_exact-Leaves part expected got (data_ready (c ∷ chunk) ∷ events) (x ∷ xs) more f e size =
    let whole = c ∷ chunk in
    let early : leb expected (length got) ≡ false = ground arith in
    elim (Bool-cases (leb (length whole) (expected - length got))) [
      | inl fits ↦
          let (es, p, q) = append_split whole (available events) (x ∷ xs) more e (ground arith) in
          let ih =
            read_exact-Leaves part expected (got ++ whole) events es more f q
              (omega (arith, length-append got whole, length-append whole es, ap length p)) in
          read_fits part expected got c chunk events es (x ∷ xs) more early fits p ih
      | inr over ↦
          let (es, p, q) =
            append_split (x ∷ xs) more whole (available events) (sym e) (ground arith) in
          let n : expected - length got ≡ length (x ∷ xs) = omega arith in
          let taken : take (expected - length got) whole ≡ x ∷ xs =
            take_cut _ whole (x ∷ xs) es n p in
          let left : drop (expected - length got) whole ≡ es = drop_cut _ whole (x ∷ xs) es n p in
          let some_left : 0 < length es = ground (arith, ap length p, length-append (x ∷ xs) es) in
          rw (early, over)
            (
              data_ready es ∷ events,
              rw (taken, left) refl,
              IsFlowing-cons es events some_left f,
              sym q,
            )
    ]
