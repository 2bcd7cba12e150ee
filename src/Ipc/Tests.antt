-- ===== src/Ipc/Tests.antt =====
-- Runs of crates/tracepress-ipc on small inputs.
use tracepress.Base.{
  ℕ, ◌≤◌, ◌<◌, min, ◌≡◌, refl, Bool, true, List, [], ◌∷◌, ◌++◌, arith, Bytes, leb, length, ok, err,
}
use tracepress.Base.Ascii.{ascii}
use tracepress.Core.ByteBoundary.{classify_ipc_frame, classify_framed_bytes}
use tracepress.Ipc.Serialize.{write_message}
use tracepress.Ipc.Serialize.Laws.{joined, write_message-framed}
use tracepress.Ipc.Frame.{
  u32_max, to_be_bytes, frame_too_large, ReadEvent, data_ready, written, read_frame, write_frame,
}
use tracepress.Ipc.Frame.Exact.{Leaves}
use tracepress.Ipc.Frame.RoundTrip.{read_frame-write_frame}

abbrev wire : Bytes
wire = 0 ∷ 0 ∷ 0 ∷ 2 ∷ ascii "hi"

write_frame-hi : write_frame (ascii "hi") 16 written ≡ ok wire
unfolding write_frame classify_ipc_frame classify_framed_bytes
write_frame-hi = refl

-- The frame and a byte behind it, in three chunks.
abbrev events : List ReadEvent
events = data_ready (0 ∷ 0 ∷ []) ∷ data_ready (0 ∷ 2 ∷ ascii "h") ∷ data_ready (ascii "iz") ∷ []

abbrev can_reserve : ℕ → Bool
can_reserve n = leb n 1024

read_frame-write_frame_example : Leaves (read_frame can_reserve 16 events) (ascii "hi") (ascii "z")
read_frame-write_frame_example =
    read_frame-write_frame can_reserve (ascii "hi") 16 written events (ascii "z") write_frame-hi
      refl tt refl

abbrev pieces : List Bytes
pieces = ascii "{" ∷ ascii "}" ∷ []

write_message-framed_example :
    (length (joined pieces) ≤ min 1 u32_max
      → write_message (λ _. true) pieces true 1 written
        ≡ ok (to_be_bytes (length (joined pieces)) ++ joined pieces))
    × (min 1 u32_max < length (joined pieces)
        → (observed : ℕ) × (write_message (λ _. true) pieces true 1 written
            ≡ err (frame_too_large observed 1))
          × (min 1 u32_max < observed))
write_message-framed_example = write_message-framed (λ _. true) pieces 1 (λ _. refl) (omega arith)
