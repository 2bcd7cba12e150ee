-- ===== src/Ipc/Frame/RoundTrip.antt =====
-- What `write_frame` writes, `read_frame` reads.
use tracepress.Base.{
  ℕ, ◌≤◌, ◌≡◌, refl, ap, ◌∙◌, inl, inr, Bool, true, false, some, List, [], ◌++◌, append_assoc,
  arith, Bytes, ltb, ltb→lt, ltb→le, Bool-cases, u64_max, IsU64, length, >>=-eq-ok, fail_if, ok,
}
use tracepress.Core.ByteBoundary.{ipc_frame, classify_ipc_frame}
use tracepress.Core.ByteBoundary.Laws.{classify_framed_bytes-FramedSpec}
use tracepress.Ipc.Frame.{
  header, payload, ReadEvent, WriteOutcome, written, cancellation, failure, to_be_bytes,
  from_be_bytes, admit_frame, finish_write, read_frame, write_frame, u32_max,
}
use tracepress.Ipc.Frame.Exact.{IsFlowing, available, Leaves, read_exact-Leaves}

from_be_bytes-to_be_bytes : (n : ℕ) → n ≤ u32_max → from_be_bytes (to_be_bytes n) ≡ n
from_be_bytes-to_be_bytes n h = omega arith

-- A frame of its declared length within the maximum is admitted.
pub admit_frame-ok :
    (body : Bytes) (maximum : ℕ)
    → length body ≤ maximum
    → IsU64 (length body)
    → admit_frame maximum (classify_ipc_frame body (length body) maximum) ≡ ok tt
unfolding classify_ipc_frame
admit_frame-ok body maximum fits small =
    let spec = classify_framed_bytes-FramedSpec body (some (length body)) maximum ipc_frame small in
    ap (admit_frame maximum) (spec.3 fits refl)

-- A frame that was not admitted was too large.
admit_frame-fits :
    (body : Bytes) (maximum : ℕ)
    → IsU64 (length body)
    → admit_frame maximum (classify_ipc_frame body (length body) maximum) ≡ ok tt
    → length body ≤ maximum
unfolding classify_ipc_frame
admit_frame-fits body maximum small e = elim (Bool-cases (ltb maximum (length body))) [
  | inr fits ↦ ltb→le _ _ fits
  | inl large ↦
      let spec =
        classify_framed_bytes-FramedSpec body (some (length body)) maximum ipc_frame small in
      let h = rw (spec.0 (ltb→lt maximum (length body) large)) at e in cc
]

finish_write_ok :
    (wire : Bytes) (outcome : WriteOutcome) {w : Bytes}
    → finish_write wire outcome ≡ ok w
    → w ≡ wire
finish_write_ok wire written e = cc
finish_write_ok wire cancellation e = cc
finish_write_ok wire failure e = cc

-- What a successful write says of the body, and what it wrote.
write_frame-ok :
    (body : Bytes) (maximum : ℕ) (outcome : WriteOutcome) {wire : Bytes}
    → write_frame body maximum outcome ≡ ok wire
    → (length body ≤ maximum) × (length body ≤ u32_max) × (wire ≡ to_be_bytes (length body) ++ body)
unfolding write_frame
write_frame-ok body maximum outcome e =
    let (_, small, e1) = >>=-eq-ok (fail_if (ltb u64_max (length body)) _) _ e in
    let (_, admitted, e2) = >>=-eq-ok (admit_frame maximum _) _ e1 in
    let (_, short, e3) = >>=-eq-ok (fail_if (ltb u32_max (length body)) _) _ e2 in
    (
      admit_frame-fits body maximum (ground arith) admitted,
      ground arith,
      finish_write_ok (to_be_bytes (length body) ++ body) outcome e3,
    )

-- A frame that was written is read back, however the bytes of the connection are cut into the
-- chunks that the reader answers with, if memory for the body can be reserved: the reader gives the
-- body, and exactly the bytes behind the frame are left to be read.
pub read_frame-write_frame :
    (can_reserve : ℕ → Bool) (body : Bytes) (maximum : ℕ) (outcome : WriteOutcome)
    (events : List ReadEvent) (more : Bytes) {wire : Bytes}
    → write_frame body maximum outcome ≡ ok wire
    → can_reserve (length body) ≡ true
    → IsFlowing events
    → available events ≡ wire ++ more
    → Leaves (read_frame can_reserve maximum events) body more
unfolding read_frame
read_frame-write_frame can_reserve body maximum outcome events more e room flows bytes =
    let (fits, short, wrote) = write_frame-ok body maximum outcome e in
    let prefix = to_be_bytes (length body) in
    let split : available events ≡ prefix ++ (body ++ more) =
      bytes ∙ ap (λ w. w ++ more) wrote ∙ append_assoc prefix body more in
    let (events1, r1, f1, left1) =
      read_exact-Leaves header 4 [] events prefix (body ++ more) flows split refl in
    let (events2, r2, f2, left2) =
      read_exact-Leaves payload (length body) [] events1 body more f1 left1 (omega arith) in
    let large : ltb maximum (length body) ≡ false = ground arith in
    (
      events2,
      rw
          (
            r1,
            from_be_bytes-to_be_bytes (length body) short,
            large,
            room,
            r2,
            admit_frame-ok body maximum fits (omega arith),
          )
          refl,
      f2,
      left2,
    )
