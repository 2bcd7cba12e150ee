-- ===== src/Ipc/Serialize.antt =====
-- crates/tracepress-ipc/src/frame/serialize.rs, and `write_message` of src/frame.rs: a serializer
-- that cannot outgrow a frame. What serde_json writes, piece by piece, and whether it ends without
-- an error of its own are parameters, and so is whether memory can be reserved.
pub mod Laws
use tracepress.Base.{
  ℕ, min, Bool, true, false, not, ◌&&◌, Option, none, some, List, [], ◌∷◌, ◌++◌, Bytes, ltb,
  if◌then◌else◌, checked_add, length, Result, ◌>>=◌, ok, err,
}
use tracepress.Ipc.Frame.{
  IpcError, frame_too_large, allocation_failed, malformed_message, WriteOutcome, write_frame,
  u32_max,
}

pub data WriteFailure : Type 0 where
  limit allocation : ℕ → WriteFailure

pub record BoundedOutput : Type 0 where
  pub bytes : Bytes
  pub maximum : ℕ
  pub failure : Option WriteFailure

abbrev pub new : ℕ → BoundedOutput
new maximum = record { bytes = []; maximum = maximum; failure = none }

-- The branches of `write` behind `checked_add`; the flag says that the write succeeded.
abbrev pub write_observed : (ℕ → Bool) → BoundedOutput → Bytes → Option ℕ → BoundedOutput × Bool
write_observed can_reserve output input none = (output, false)
write_observed can_reserve output input (some observed) =
    if ltb output.maximum observed
    then (record output { failure = some (limit observed) }, false)
    else if not (can_reserve (length input))
    then (record output { failure = some (allocation observed) }, false)
    else (record output { bytes = output.bytes ++ input }, true)

abbrev pub write : (ℕ → Bool) → BoundedOutput → Bytes → BoundedOutput × Bool
write can_reserve output input =
    write_observed can_reserve output input (checked_add (length output.bytes) (length input))

-- `serde_json::to_writer` stops at the first write that fails.
pub write_pieces : (ℕ → Bool) → BoundedOutput → List Bytes → BoundedOutput × Bool
write_pieces can_reserve output [] = (output, true)
write_pieces can_reserve output (piece ∷ pieces) =
    let (output', written) = write can_reserve output piece in
    let rest = write_pieces can_reserve output' pieces in if written then rest else (output', false)

-- The `match` on the failure. A length is representable, since `usize` has 64 bits.
abbrev pub serialized : ℕ → Bool → BoundedOutput × Bool → Result IpcError Bytes
serialized maximum ends (output, written) = elim output.failure [
  | some (limit observed) ↦ err (frame_too_large observed maximum)
  | some (allocation requested) ↦ err (allocation_failed requested)
  | none ↦ if written && ends then ok output.bytes else err malformed_message
]

pub serialize_bounded : (ℕ → Bool) → List Bytes → Bool → ℕ → Result IpcError Bytes
serialize_bounded can_reserve pieces ends maximum =
    serialized maximum ends (write_pieces can_reserve (new (min maximum u32_max)) pieces)

pub write_message : (ℕ → Bool) → List Bytes → Bool → ℕ → WriteOutcome → Result IpcError Bytes
write_message can_reserve pieces ends maximum outcome = do
  body ← serialize_bounded can_reserve pieces ends maximum
  write_frame body maximum outcome
