-- ===== src/Ipc/Serialize/Laws.antt =====
-- A message is framed exactly when it fits.
use tracepress.Base.{
  ℕ, ◌+◌, ◌≤◌, ◌<◌, min, ◌≡◌, refl, ap, ◌∙◌, inl, inr, Bool, true, false, none, some, List, [], ◌∷◌,
  ◌++◌, append_assoc, append-nil, arith, Bytes, ltb, ltb→lt, Bool-cases, u64_max, IsU64, length,
  length-append, ok, err,
}
use tracepress.Ipc.Frame.{frame_too_large, written, write_frame, u32_max, to_be_bytes}
use tracepress.Ipc.Frame.RoundTrip.{admit_frame-ok}
use tracepress.Ipc.Serialize.{
  BoundedOutput, new, limit, write_pieces, serialized, serialize_bounded, write_message,
}

-- All the bytes that are to be written.
abbrev pub joined : List Bytes → Bytes
joined [] = []
joined (piece ∷ pieces) = piece ++ joined pieces

write_pieces-fits :
    (can_reserve : ℕ → Bool) (got : Bytes) (maximum : ℕ) (pieces : List Bytes)
    → ((n : ℕ) → can_reserve n ≡ true)
    → length got + length (joined pieces) ≤ maximum
    → IsU64 maximum
    → write_pieces can_reserve (record { bytes = got; maximum = maximum; failure = none }) pieces
      ≡ (record { bytes = got ++ joined pieces; maximum = maximum; failure = none }, true)
unfolding write_pieces
write_pieces-fits can_reserve got maximum [] room fits word = rw append-nil refl
write_pieces-fits can_reserve got maximum (piece ∷ pieces) room fits word =
    let size = length-append piece (joined pieces) in
    let sum : ltb u64_max (length got + length piece) ≡ false = ground (arith, size) in
    let small : ltb maximum (length got + length piece) ≡ false = ground (arith, size) in
    rw (sum, small, room (length piece))
      (write_pieces-fits can_reserve (got ++ piece) maximum pieces room
          (omega (arith, size, length-append got piece)) word
        ∙ ap (λ b. (record { bytes = b; maximum = maximum; failure = none }, true))
            (append_assoc got piece (joined pieces)))

-- The output stopped at a length above its maximum.
abbrev Stopped : ℕ → BoundedOutput × Bool → Type 0
Stopped maximum r = (observed : ℕ) × (r.0.failure ≡ some (limit observed)) × (maximum < observed)

write_pieces-Stopped :
    (can_reserve : ℕ → Bool) (got : Bytes) (maximum : ℕ) (pieces : List Bytes)
    → ((n : ℕ) → can_reserve n ≡ true)
    → length got ≤ maximum
    → maximum < length got + length (joined pieces)
    → IsU64 (length got + length (joined pieces))
    → Stopped maximum (
        write_pieces can_reserve (record { bytes = got; maximum = maximum; failure = none }) pieces)
unfolding write_pieces
write_pieces-Stopped can_reserve got maximum [] room held large word = absurd (omega arith)
write_pieces-Stopped can_reserve got maximum (piece ∷ pieces) room held large word =
    let size = length-append piece (joined pieces) in
    let sum : ltb u64_max (length got + length piece) ≡ false = ground (arith, size) in
    elim (Bool-cases (ltb maximum (length got + length piece))) [
      | inl over ↦ rw (sum, over) (length got + length piece, refl, ltb→lt _ _ over)
      | inr small ↦
          rw (sum, small, room (length piece))
            (write_pieces-Stopped can_reserve (got ++ piece) maximum pieces room
              (ground (arith, length-append got piece))
              (omega (arith, size, length-append got piece))
              (omega (arith, size, length-append got piece)))
    ]

serialized-Stopped :
    (maximum bound : ℕ) (ends : Bool) (r : BoundedOutput × Bool)
    → Stopped bound r
    → (observed : ℕ) × (serialized maximum ends r ≡ err (frame_too_large observed maximum))
      × (bound < observed)
serialized-Stopped maximum bound ends r (observed, failed, over) = (observed, rw failed refl, over)

-- When memory can be reserved, serde_json has no error of its own and the connection takes all
-- bytes: a message whose bytes fit both the maximum and a 32-bit length is written as one frame with
-- exactly those bytes, and any other message of representable length is refused as too large, with
-- an observed length above that bound.
pub write_message-framed :
    (can_reserve : ℕ → Bool) (pieces : List Bytes) (maximum : ℕ)
    → ((n : ℕ) → can_reserve n ≡ true)
    → IsU64 (length (joined pieces))
    → (length (joined pieces) ≤ min maximum u32_max
        → write_message can_reserve pieces true maximum written
          ≡ ok (to_be_bytes (length (joined pieces)) ++ joined pieces))
      × (min maximum u32_max < length (joined pieces)
          → (observed : ℕ) × (write_message can_reserve pieces true maximum written
              ≡ err (frame_too_large observed maximum))
            × (min maximum u32_max < observed))
unfolding write_message serialize_bounded write_frame
write_message-framed can_reserve pieces maximum room word = (
  λ fits.
      let whole : write_pieces can_reserve (new (min maximum u32_max)) pieces ≡ (
        record { bytes = joined pieces; maximum = min maximum u32_max; failure = none },
        true,
      ) =
        write_pieces-fits can_reserve [] (min maximum u32_max) pieces room (omega arith)
          (omega arith) in
      let a : ltb u64_max (length (joined pieces)) ≡ false = ground arith in
      let b : ltb u32_max (length (joined pieces)) ≡ false = ground arith in
      rw (whole, a, admit_frame-ok (joined pieces) maximum (omega arith) word, b) refl,
  λ large.
      let (observed, refused, over) =
        serialized-Stopped maximum (min maximum u32_max) true
          (write_pieces can_reserve (new (min maximum u32_max)) pieces)
          (write_pieces-Stopped can_reserve [] (min maximum u32_max) pieces room (omega arith)
            (omega arith) (omega arith)) in
      (observed, rw refused refl, over),
)
