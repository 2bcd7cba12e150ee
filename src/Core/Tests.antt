-- ===== src/Core/Tests.antt =====
-- Runs of crates/tracepress-core on small inputs.
use tracepress.Base.{
  ℕ, ◌+◌, ◌≡◌, refl, ◌≢◌, ◌↔◌, true, none, some, List, [], ◌∷◌, map, arith, Bytes, is_ok, ok,
}
use tracepress.Base.Int.{pos}
use tracepress.Base.Ascii.{ascii}
use tracepress.Core.ByteBoundary.{classify_framed_bytes, classify_line_bytes, request_body}
use tracepress.Core.ByteBoundary.Laws.{
  FramedSpec, LineSpec, classify_framed_bytes-FramedSpec, classify_line_bytes-LineSpec,
}
use tracepress.Core.Stream.{new, observe_all}
use tracepress.Core.Stream.Laws.{observe_all-new}
use tracepress.Core.Budget.{ProcessingBudget, ProcessingCharge, charge, charge_all}
use tracepress.Core.Budget.Laws.{
  WithinBudget, accepted_time, accepted_work, ChargeSpec, charge-ChargeSpec, charge_all-accounted,
}
use tracepress.Core.Lifecycle.{
  active, closing, InferenceStatus, OperationStatus, committed, pending, finalize_inference,
}
use tracepress.Core.Lifecycle.Laws.{
  IsOpen, IsTerminal, finalize_inference-completed, finalize_inference-ok,
}
use tracepress.Core.Binding.{BindingCandidate, ContextBinding, freeze, ensure_compatible}
use tracepress.Core.Binding.Laws.{ensure_compatible_iff}
use tracepress.Core.Limits.{Limit, ResourceLimitsConfig, ResourceLimits, try_from}
use tracepress.Core.Limits.Laws.{DenotesAll, try_from_iff}
use tracepress.Core.Identity.{decode_nibble, as_chunks, decode_pairs, from_str, fmt}
use tracepress.Core.Identity.RoundTrip.{to_ascii_lowercase, IsDigest, from_str_iff}

abbrev chunks : List Bytes
chunks = ascii "ab" ∷ ascii "cde" ∷ ascii "f" ∷ []

-- The second chunk ends the stream, so the third does not count.
observe_all-new_example : (observe_all (new 4) chunks).accepted_bytes ≡ 2
observe_all-new_example =
    observe_all-new 4 chunks (omega arith) (omega arith, (omega arith, (omega arith, tt)))

-- Two bytes were received of the three that were claimed.
classify_framed_bytes-FramedSpec_example :
    FramedSpec
      (ascii "ab")
      (some 3)
      5
      request_body
      (classify_framed_bytes (ascii "ab") (some 3) 5 request_body)
classify_framed_bytes-FramedSpec_example =
    classify_framed_bytes-FramedSpec (ascii "ab") (some 3) 5 request_body (omega arith)

classify_line_bytes-LineSpec_example :
    LineSpec (ascii "abcde") 3 (classify_line_bytes (ascii "abcde") 3)
classify_line_bytes-LineSpec_example = classify_line_bytes-LineSpec (ascii "abcde") 3 (omega arith)

abbrev budget : ProcessingBudget
budget = record { maximum_time = 10; maximum_work = 20; elapsed_ms = 1; work_units = 2 }

abbrev spend : ℕ → ℕ → ProcessingCharge
spend t w = record { elapsed_ms = t; work_units = w }

charge-ChargeSpec_example : ChargeSpec budget (spend 3 30) (charge budget (spend 3 30))
charge-ChargeSpec_example = charge-ChargeSpec budget (spend 3 30) (omega arith) (omega arith)

-- The second charge has too much work.
abbrev charges : List ProcessingCharge
charges = spend 3 4 ∷ spend 1 30 ∷ spend 5 5 ∷ []

charge_all-accounted_example :
    WithinBudget (charge_all budget charges).0
    × ((charge_all budget charges).0.elapsed_ms
        ≡ 1 + accepted_time charges (charge_all budget charges).1)
    × ((charge_all budget charges).0.work_units
        ≡ 2 + accepted_work charges (charge_all budget charges).1)
charge_all-accounted_example =
    charge_all-accounted budget charges (omega arith, omega arith) (omega arith) (omega arith)

finalize_inference-completed_example :
    (finalize_inference closing InferenceStatus.completed pending ≡ ok OperationStatus.completed)
    ↔ (IsOpen closing
        × (InferenceStatus.completed ≡ InferenceStatus.completed)
        × (pending ≡ committed))
finalize_inference-completed_example =
    finalize_inference-completed closing InferenceStatus.completed pending

finalize_inference-ok_example :
    ((is_ok (finalize_inference active InferenceStatus.cancelled pending) ≡ true) ↔ (
      IsOpen active
      × IsTerminal InferenceStatus.cancelled
      × (InferenceStatus.cancelled ≡ InferenceStatus.completed → pending ≡ committed)))
    × (finalize_inference active InferenceStatus.cancelled pending ≢ ok OperationStatus.started)
finalize_inference-ok_example = finalize_inference-ok active InferenceStatus.cancelled pending

abbrev candidate : BindingCandidate
candidate = record {
  key = record { session_id = 1; logical_content_id = 2 };
  representation = record {
    raw_content_id = 3;
    rendered_content_id = 4;
    versions = record { compressor_version = ascii "c1"; policy_version = ascii "p1" };
  };
}

abbrev binding : ContextBinding
binding = record {
  binding_id = 9;
  session_id = 1;
  logical_content_id = 2;
  raw_content_id = 3;
  rendered_content_id = 4;
  compressor_version = ascii "c1";
  policy_version = ascii "p2";
}

ensure_compatible_iff_example :
    (ensure_compatible binding candidate ≡ ok tt) ↔ (freeze 9 candidate ≡ binding)
ensure_compatible_iff_example = ensure_compatible_iff binding candidate

abbrev config : ResourceLimitsConfig
config = record {
  max_raw_bytes = some (pos 1);
  max_request_body_bytes = some (pos 2);
  max_response_body_bytes = some (pos 3);
  max_decompressed_bytes = some (pos 4);
  max_ipc_frame_bytes = some (pos 5);
  max_ipc_queue_items = some (pos 6);
  max_json_nesting = some (pos 7);
  max_json_items = some (pos 8);
  max_line_bytes = some (pos 9);
  max_processing_time_ms = some (pos 10);
  max_cpu_work_units = none;
}

abbrev limit : ℕ → Limit
limit n = record { value = n }

abbrev limits : ResourceLimits
limits = record {
  max_raw_bytes = limit 1;
  max_request_body_bytes = limit 2;
  max_response_body_bytes = limit 3;
  max_decompressed_bytes = limit 4;
  max_ipc_frame_bytes = limit 5;
  max_ipc_queue_items = limit 6;
  max_json_nesting = limit 7;
  max_json_items = limit 8;
  max_line_bytes = limit 9;
  max_processing_time_ms = limit 10;
  max_cpu_work_units = limit 11;
}

-- The last limit is missing, so this configuration does not stand for any limits.
try_from_iff_example : (try_from config ≡ ok limits) ↔ DenotesAll config limits
try_from_iff_example = try_from_iff config limits

-- The digest of the text `abc`, and its text in upper case.
abbrev abc_text : Bytes
abc_text = ascii "BA7816BF8F01CFEA414140DE5DAE2223B00361A396177A9CB410FF61F20015AD"

abbrev abc_digest : Bytes
abc_digest =
    0xba ∷ 0x78 ∷ 0x16 ∷ 0xbf ∷ 0x8f ∷ 0x01 ∷ 0xcf ∷ 0xea ∷ 0x41 ∷ 0x41 ∷ 0x40 ∷ 0xde ∷ 0x5d ∷ 0xae
    ∷ 0x22 ∷ 0x23 ∷ 0xb0 ∷ 0x03 ∷ 0x61 ∷ 0xa3 ∷ 0x96 ∷ 0x17 ∷ 0x7a ∷ 0x9c ∷ 0xb4 ∷ 0x10 ∷ 0xff
    ∷ 0x61 ∷ 0xf2 ∷ 0x00 ∷ 0x15 ∷ 0xad ∷ []

from_str-abc : from_str abc_text ≡ ok abc_digest
unfolding from_str decode_pairs as_chunks decode_nibble
from_str-abc = refl

from_str_iff_example :
    (from_str abc_text ≡ ok abc_digest)
    ↔ (IsDigest abc_digest × (fmt abc_digest ≡ map to_ascii_lowercase abc_text))
from_str_iff_example = from_str_iff abc_text abc_digest
