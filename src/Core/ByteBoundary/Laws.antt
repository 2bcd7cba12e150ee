-- ===== src/Core/ByteBoundary/Laws.antt =====
-- What the byte decisions promise.
use tracepress.Base.{
  ℕ, ◌≤◌, ◌<◌, ◌≡◌, ◌≢◌, Option, none, some, arith, Bytes, IsU64, length, take, drop, length-take,
  length-drop, Result, ok, err,
}
use tracepress.Core.ByteBoundary.{
  truncate_safe, classify_line_bytes, ByteResource, ByteDecision, reject, ByteBoundaryError,
  declared_length_mismatch, violation, classify_framed_bytes,
}

-- The decision that the documentation of a framed boundary describes: the claimed length is looked
-- at first, then the received length, then their agreement.
abbrev pub FramedSpec :
    Bytes → Option ℕ → ℕ → ByteResource → Result ByteBoundaryError ByteDecision → Type 0
FramedSpec bytes none maximum r d =
    (length bytes ≤ maximum → d ≡ ok (ByteDecision.within_limit bytes))
    × (maximum < length bytes → d ≡ ok (reject (violation r (length bytes) maximum)))
FramedSpec bytes (some declared) maximum r d =
    (maximum < declared → d ≡ ok (reject (violation r declared maximum)))
    × (declared ≤ maximum
        → maximum < length bytes
        → d ≡ ok (reject (violation r (length bytes) maximum)))
    × (declared ≤ maximum
        → length bytes ≤ maximum
        → declared ≢ length bytes
        → d ≡ err (declared_length_mismatch r declared (length bytes)))
    × (declared ≤ maximum → declared ≡ length bytes → d ≡ ok (ByteDecision.within_limit bytes))

-- For bytes of representable length: a claimed length above the maximum is rejected whatever was
-- received, then received bytes above the maximum are, then a claimed length that differs from the
-- received one is an error, and else the bytes are passed on unchanged.
pub classify_framed_bytes-FramedSpec :
    (bytes : Bytes) (declared : Option ℕ) (maximum : ℕ) (r : ByteResource)
    → IsU64 (length bytes)
    → FramedSpec bytes declared maximum r (classify_framed_bytes bytes declared maximum r)
unfolding classify_framed_bytes
classify_framed_bytes-FramedSpec bytes none maximum r h = ground arith
classify_framed_bytes-FramedSpec bytes (some d) maximum r h = ground arith

-- What a decision on a line says.
abbrev pub LineSpec : Bytes → ℕ → Result ByteBoundaryError ByteDecision → Type 0
LineSpec bytes maximum (ok (ByteDecision.within_limit b)) = (b ≡ bytes) × (length bytes ≤ maximum)
LineSpec bytes maximum (ok (truncate_safe b m)) =
    (b ≡ bytes)
    × (m.original_bytes ≡ length bytes)
    × (m.retained_prefix_bytes ≡ length (take maximum bytes))
    × (m.omitted_bytes ≡ length (drop maximum bytes))
    × (0 < m.omitted_bytes)
LineSpec bytes maximum _ = ⊥

-- A line of representable length is kept whole when it fits the limit; otherwise the metadata
-- counts exactly the prefix of `maximum` bytes and the non-empty rest, over the unchanged bytes.
pub classify_line_bytes-LineSpec :
    (bytes : Bytes) (maximum : ℕ)
    → IsU64 (length bytes)
    → LineSpec bytes maximum (classify_line_bytes bytes maximum)
unfolding classify_line_bytes
classify_line_bytes-LineSpec bytes maximum h =
    ground (arith, length-take maximum bytes, length-drop maximum bytes)
