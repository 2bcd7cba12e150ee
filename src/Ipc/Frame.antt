-- ===== src/Ipc/Frame.antt =====
-- crates/tracepress-ipc/src/frame.rs: bounded frames behind a four-byte length. What a reader
-- answers, read by read, is a list of events, and whether memory can be reserved is a parameter.
mod Split
pub mod Exact
pub mod RoundTrip
use tracepress.Base.{
  ℕ, ◌+◌, ◌-◌, ◌*◌, ◌/◌, ◌%◌, ◌^◌, Bool, not, List, [], ◌∷◌, ◌++◌, Bytes, ltb, leb, if◌then◌else◌,
  u64_max, length, take, drop, Result, ◌>>=◌, ◌>>◌, fail_if, ok, err,
}
use tracepress.Core.ByteBoundary.{
  ByteDecision, reject, truncate_safe, ByteBoundaryError, classify_ipc_frame,
}

pub data FramePart : Type 0 where
  header payload authentication : FramePart

-- The variants without the error of a library that some of them carry.
pub data IpcError : Type 0 where
  cancelled frame_length_unrepresentable io : IpcError
  truncated : FramePart → ℕ → ℕ → IpcError
  frame_too_large : ℕ → ℕ → IpcError
  allocation_failed : ℕ → IpcError
  request_body_too_large response_body_too_large : ℕ → ℕ → IpcError
  malformed_message malformed_authentication invalid_authentication : IpcError
  tcp_must_be_loopback tcp_port_unassigned endpoint_contains_nul : IpcError
  queue_capacity_unrepresentable queue_closed : IpcError
  queue_full : ℕ → IpcError
  insecure_socket_directory socket_path_not_socket socket_not_owned : IpcError
  socket_marker_invalid socket_already_active socket_state_unknown : IpcError
  socket_artifact_changed : Bytes → ℕ → ℕ → ℕ → ℕ → IpcError
  unsupported_endpoint : IpcError

-- What one round of the `select!` in `read_exact_cancelled` meets: bytes that the reader has, of
-- which a read takes as many as fit, the cancellation, or a failure. No more events is the end.
pub data ReadEvent : Type 0 where
  data_ready : Bytes → ReadEvent
  cancellation failure : ReadEvent

-- The loop of `read_exact_cancelled`: what it read, and the events that are left.
pub read_exact : FramePart → ℕ → Bytes → List ReadEvent → Result IpcError (Bytes × List ReadEvent)
read_exact part expected got [] =
    if leb expected (length got) then ok (got, []) else err (truncated part expected (length got))
read_exact part expected got (cancellation ∷ events) =
    if leb expected (length got) then ok (got, cancellation ∷ events) else err cancelled
read_exact part expected got (failure ∷ events) =
    if leb expected (length got) then ok (got, failure ∷ events) else err io
read_exact part expected got (data_ready [] ∷ events) =
    if leb expected (length got)
    then ok (got, data_ready [] ∷ events)
    else err (truncated part expected (length got))
read_exact part expected got (data_ready (c ∷ chunk) ∷ events) =
    let remaining = expected - length got in
    let rest = read_exact part expected (got ++ (c ∷ chunk)) events in
    if leb expected (length got)
    then ok (got, data_ready (c ∷ chunk) ∷ events)
    else if leb (length (c ∷ chunk)) remaining
    then rest
    else ok (got ++ take remaining (c ∷ chunk), data_ready (drop remaining (c ∷ chunk)) ∷ events)

-- `u32::to_be_bytes` and `u32::from_be_bytes`.
abbrev pub to_be_bytes : ℕ → Bytes
to_be_bytes n = n / 2 ^ 24 % 256 ∷ n / 2 ^ 16 % 256 ∷ n / 2 ^ 8 % 256 ∷ n % 256 ∷ []

abbrev pub from_be_bytes : Bytes → ℕ
from_be_bytes (a ∷ b ∷ c ∷ d ∷ []) = a * 2 ^ 24 + b * 2 ^ 16 + c * 2 ^ 8 + d
from_be_bytes _ = 0

-- The two `match`es on the decision of the core boundary.
abbrev pub admit_frame : ℕ → Result ByteBoundaryError ByteDecision → Result IpcError (Unit {0})
admit_frame maximum (err _) = err frame_length_unrepresentable
admit_frame maximum (ok (ByteDecision.within_limit _)) = ok tt
admit_frame maximum (ok (reject v)) = err (frame_too_large v.observed v.maximum)
admit_frame maximum (ok (ByteDecision.bypass _ v)) = err (frame_too_large v.observed v.maximum)
admit_frame maximum (ok (truncate_safe _ m)) = err (frame_too_large m.original_bytes maximum)

-- `usize` has 64 bits, so the declared length is representable.
pub read_frame : (ℕ → Bool) → ℕ → List ReadEvent → Result IpcError (Bytes × List ReadEvent)
read_frame can_reserve maximum events = do
  (prefix, events1) ← read_exact header 4 [] events
  let declared = from_be_bytes prefix
  fail_if (ltb maximum declared) (frame_too_large declared maximum)
  fail_if (not (can_reserve declared)) (allocation_failed declared)
  (body, events2) ← read_exact payload declared [] events1
  admit_frame maximum (classify_ipc_frame body declared maximum)
  ok (body, events2)

-- How the writing ends: all was written and flushed, or not.
pub data WriteOutcome : Type 0 where
  written cancellation failure : WriteOutcome

abbrev finish_write : Bytes → WriteOutcome → Result IpcError Bytes
finish_write wire written = ok wire
finish_write wire cancellation = err cancelled
finish_write wire failure = err io

-- `u32::MAX`.
abbrev pub u32_max : ℕ
u32_max = 4294967295

-- The bytes that were written.
unfoldable pub write_frame : Bytes → ℕ → WriteOutcome → Result IpcError Bytes
write_frame body maximum outcome = do
  fail_if (ltb u64_max (length body)) frame_length_unrepresentable
  admit_frame maximum (classify_ipc_frame body (length body) maximum)
  fail_if (ltb u32_max (length body)) frame_length_unrepresentable
  finish_write (to_be_bytes (length body) ++ body) outcome
