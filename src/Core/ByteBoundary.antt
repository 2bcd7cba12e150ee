-- ===== src/Core/ByteBoundary.antt =====
-- crates/tracepress-core/src/byte_boundary.rs: decisions over borrowed opaque bytes. A limit is the
-- number that its `get` returns.
pub mod Laws
use tracepress.Base.{
  ℕ, ◌-◌, Option, none, some, Bytes, ltb, ◌==◌, if◌then◌else◌, u64_max, length, Result, ok, err,
  ◌>>=◌,
}

pub data ByteResource : Type 0 where
  raw_input request_body response_body decompressed_body ipc_frame line : ByteResource

pub record ByteLimitExceeded : Type 0 where
  pub resource : ByteResource
  pub observed : ℕ
  pub maximum : ℕ

pub record TruncationMetadata : Type 0 where
  pub original_bytes : ℕ
  pub retained_prefix_bytes : ℕ
  pub omitted_bytes : ℕ

pub data ByteDecision : Type 0 where
  within_limit : Bytes → ByteDecision
  reject : ByteLimitExceeded → ByteDecision
  bypass : Bytes → ByteLimitExceeded → ByteDecision
  truncate_safe : Bytes → TruncationMetadata → ByteDecision

pub data DeclaredLengthDecision : Type 0 where
  within_limit : DeclaredLengthDecision
  bypass : ByteLimitExceeded → DeclaredLengthDecision

pub data ByteBoundaryError : Type 0 where
  declared_length_mismatch : ByteResource → ℕ → ℕ → ByteBoundaryError
  length_unrepresentable : ByteResource → ByteBoundaryError
  stream_already_terminated : ByteBoundaryError

abbrev pub violation : ByteResource → ℕ → ℕ → ByteLimitExceeded
violation r o m = record { resource = r; observed = o; maximum = m }

-- `u64::try_from(bytes.len())`.
abbrev pub measured_len : Bytes → ByteResource → Result ByteBoundaryError ℕ
measured_len bytes r =
    if ltb u64_max (length bytes) then err (length_unrepresentable r) else ok (length bytes)

pub classify_raw_bytes : Bytes → ℕ → Result ByteBoundaryError ByteDecision
classify_raw_bytes bytes maximum = do
  observed ← measured_len bytes raw_input
  if ltb maximum observed
      then ok (ByteDecision.bypass bytes (violation raw_input observed maximum))
      else ok (ByteDecision.within_limit bytes)

-- The first guard of `classify_framed_bytes`: `if let Some(declared) … && declared > maximum`.
abbrev declared_above : Option ℕ → ℕ → Option ℕ
declared_above none maximum = none
declared_above (some d) maximum = if ltb maximum d then some d else none

-- Its last guard: `if let Some(declared) … && declared != actual`.
abbrev declared_differs : Option ℕ → ℕ → Option ℕ
declared_differs none actual = none
declared_differs (some d) actual = if d == actual then none else some d

abbrev check_declared : Bytes → Option ℕ → ℕ → ByteResource → Result ByteBoundaryError ByteDecision
check_declared bytes (some d) actual r = err (declared_length_mismatch r d actual)
check_declared bytes none actual r = ok (ByteDecision.within_limit bytes)

abbrev check_received : Bytes → Option ℕ → ℕ → ByteResource → Result ByteBoundaryError ByteDecision
check_received bytes declared maximum r = do
  actual ← measured_len bytes r
  if ltb maximum actual
      then ok (reject (violation r actual maximum))
      else check_declared bytes (declared_differs declared actual) actual r

unfoldable pub classify_framed_bytes :
    Bytes → Option ℕ → ℕ → ByteResource → Result ByteBoundaryError ByteDecision
classify_framed_bytes bytes declared maximum r = elim (declared_above declared maximum) [
  | some d ↦ ok (reject (violation r d maximum))
  | none ↦ check_received bytes declared maximum r
]

unfoldable pub classify_request_body : Bytes → Option ℕ → ℕ → Result ByteBoundaryError ByteDecision
unfolding classify_framed_bytes
classify_request_body bytes declared maximum =
    classify_framed_bytes bytes declared maximum request_body

unfoldable pub classify_ipc_frame : Bytes → ℕ → ℕ → Result ByteBoundaryError ByteDecision
unfolding classify_framed_bytes
classify_ipc_frame bytes declared maximum =
    classify_framed_bytes bytes (some declared) maximum ipc_frame

pub classify_decompressed_length : ℕ → ℕ → DeclaredLengthDecision
classify_decompressed_length declared maximum =
    if ltb maximum declared
    then DeclaredLengthDecision.bypass (violation decompressed_body declared maximum)
    else DeclaredLengthDecision.within_limit

-- `checked_sub` cannot fail under its guard, but its error branch is kept.
abbrev checked_sub : ℕ → ℕ → Option ℕ
checked_sub a b = if ltb a b then none else some (a - b)

abbrev truncated_line : Bytes → ℕ → ℕ → Option ℕ → Result ByteBoundaryError ByteDecision
truncated_line bytes observed maximum none = err (length_unrepresentable line)
truncated_line bytes observed maximum (some omitted) = ok (
    truncate_safe bytes (record {
      original_bytes = observed;
      retained_prefix_bytes = maximum;
      omitted_bytes = omitted;
    }))

pub classify_line_bytes : Bytes → ℕ → Result ByteBoundaryError ByteDecision
classify_line_bytes bytes maximum = do
  observed ← measured_len bytes line
  if ltb maximum observed
      then truncated_line bytes observed maximum (checked_sub observed maximum)
      else ok (ByteDecision.within_limit bytes)
