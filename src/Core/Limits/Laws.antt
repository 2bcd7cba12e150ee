-- ===== src/Core/Limits/Laws.antt =====
-- Startup accepts a configuration exactly when every limit is a positive 64-bit number.
use tracepress.Base.{
  ℕ, zero, suc, ◌≤◌, ◌<◌, ◌≡◌, subst, ◌↔◌, Option, none, some, arith, u64_max, Result, ◌>>=◌,
  >>=-eq-ok, ok-injective, ok,
}
use tracepress.Base.Int.{ℤ, pos, negsuc}
use tracepress.Core.Limits.{
  Limit, ResourceLimitField, ResourceLimitsConfig, ResourceLimits, ResourceLimitsError, parse_limit,
  try_from,
}

-- A configured value stands for this limit.
abbrev pub Denotes : Option ℤ → Limit → Type 0
Denotes (some (pos n)) l = (n ≡ l.value) × (0 < l.value) × (l.value ≤ u64_max)
Denotes _ l = ⊥

pub record DenotesAll (c : ResourceLimitsConfig) (l : ResourceLimits) : Type 0 where
  pub raw_bytes : Denotes c.max_raw_bytes l.max_raw_bytes
  pub request_body_bytes : Denotes c.max_request_body_bytes l.max_request_body_bytes
  pub response_body_bytes : Denotes c.max_response_body_bytes l.max_response_body_bytes
  pub decompressed_bytes : Denotes c.max_decompressed_bytes l.max_decompressed_bytes
  pub ipc_frame_bytes : Denotes c.max_ipc_frame_bytes l.max_ipc_frame_bytes
  pub ipc_queue_items : Denotes c.max_ipc_queue_items l.max_ipc_queue_items
  pub json_nesting : Denotes c.max_json_nesting l.max_json_nesting
  pub json_items : Denotes c.max_json_items l.max_json_items
  pub line_bytes : Denotes c.max_line_bytes l.max_line_bytes
  pub processing_time_ms : Denotes c.max_processing_time_ms l.max_processing_time_ms
  pub cpu_work_units : Denotes c.max_cpu_work_units l.max_cpu_work_units

parse_limit_sound :
    (v : Option ℤ) (f : ResourceLimitField) (n : ℕ)
    → parse_limit v f ≡ ok n
    → Denotes v (record { value = n })
unfolding parse_limit
parse_limit_sound none f n e = cc
parse_limit_sound (some (negsuc k)) f n e = ground arith
parse_limit_sound (some (pos zero)) f n e = ground arith
parse_limit_sound (some (pos (suc k))) f n e = ground arith

parse_limit_complete :
    (v : Option ℤ) (f : ResourceLimitField) (l : Limit) → Denotes v l → parse_limit v f ≡ ok l.value
unfolding parse_limit
parse_limit_complete none f l h = absurd h
parse_limit_complete (some (negsuc k)) f l h = absurd h
parse_limit_complete (some (pos zero)) f l h = absurd (omega arith)
parse_limit_complete (some (pos (suc k))) f l h = ground arith

-- One more field of the `do` block.
next_field {ℓ} :
    {B : Type ℓ} (v : Option ℤ) (f : ResourceLimitField) (k : ℕ → Result ResourceLimitsError B)
    {b : B}
    → (parse_limit v f >>= k) ≡ ok b
    → (n : ℕ) × Denotes v (record { value = n }) × (k n ≡ ok b)
next_field v f k e =
    let (n, p, rest) = >>=-eq-ok (parse_limit v f) k e in (n, parse_limit_sound v f n p, rest)

try_from_sound :
    (c : ResourceLimitsConfig) (l : ResourceLimits) → try_from c ≡ ok l → DenotesAll c l
unfolding try_from
try_from_sound c l e =
    let (n1, d1, e1) = next_field c.max_raw_bytes _ _ e in
    let (n2, d2, e2) = next_field c.max_request_body_bytes _ _ e1 in
    let (n3, d3, e3) = next_field c.max_response_body_bytes _ _ e2 in
    let (n4, d4, e4) = next_field c.max_decompressed_bytes _ _ e3 in
    let (n5, d5, e5) = next_field c.max_ipc_frame_bytes _ _ e4 in
    let (n6, d6, e6) = next_field c.max_ipc_queue_items _ _ e5 in
    let (n7, d7, e7) = next_field c.max_json_nesting _ _ e6 in
    let (n8, d8, e8) = next_field c.max_json_items _ _ e7 in
    let (n9, d9, e9) = next_field c.max_line_bytes _ _ e8 in
    let (n10, d10, e10) = next_field c.max_processing_time_ms _ _ e9 in
    let (n11, d11, e11) = next_field c.max_cpu_work_units _ _ e10 in
    subst (DenotesAll c) (ok-injective e11) (record {
      raw_bytes = d1;
      request_body_bytes = d2;
      response_body_bytes = d3;
      decompressed_bytes = d4;
      ipc_frame_bytes = d5;
      ipc_queue_items = d6;
      json_nesting = d7;
      json_items = d8;
      line_bytes = d9;
      processing_time_ms = d10;
      cpu_work_units = d11;
    })

-- A configuration is accepted, with these limits, exactly when each of its eleven fields is present
-- and holds a positive number within 64 bits, which is the limit of that field.
pub try_from_iff :
    (c : ResourceLimitsConfig) (l : ResourceLimits) → (try_from c ≡ ok l) ↔ DenotesAll c l
unfolding try_from
try_from_iff c l = (
  try_from_sound c l,
  λ d. rw (
    parse_limit_complete c.max_raw_bytes _ _ d.raw_bytes,
    parse_limit_complete c.max_request_body_bytes _ _ d.request_body_bytes,
    parse_limit_complete c.max_response_body_bytes _ _ d.response_body_bytes,
    parse_limit_complete c.max_decompressed_bytes _ _ d.decompressed_bytes,
    parse_limit_complete c.max_ipc_frame_bytes _ _ d.ipc_frame_bytes,
    parse_limit_complete c.max_ipc_queue_items _ _ d.ipc_queue_items,
    parse_limit_complete c.max_json_nesting _ _ d.json_nesting,
    parse_limit_complete c.max_json_items _ _ d.json_items,
    parse_limit_complete c.max_line_bytes _ _ d.line_bytes,
    parse_limit_complete c.max_processing_time_ms _ _ d.processing_time_ms,
    parse_limit_complete c.max_cpu_work_units _ _ d.cpu_work_units,
  ),
)
