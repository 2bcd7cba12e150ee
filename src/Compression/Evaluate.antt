-- ===== src/Compression/Evaluate.antt =====
-- crates/tracepress-compression/src/lib.rs: `evaluate_with_estimator`, the gates that every shadow
-- compressor passes. The digest (SHA-256), the token estimator and the clock are parameters.
pub mod Gates
pub mod Recovery
use tracepress.Base.{
  ℕ, suc, ◌/◌, min, ◌≡◌, ◌↔◌, Bool, true, false, not, ◌&&◌, ◌||◌, Option, none, some, ◌∷◌, Bytes,
  ltb, leb, ◌==◌, if◌then◌else◌, saturating_add, saturating_mul, to_u64, eq_bytes, length, Result,
  ok, err,
}
use tracepress.Base.Int.{ℤ, pos, negsuc, sub_ℕ}
use tracepress.Compression.Types.{BlockMetadata, CompressionLimits, TransformError, Transform}

pub data CandidateStatus : Type 0 where
  applicable not_applicable no_improvement resource_limit : CandidateStatus
  invalid_input recovery_failed internal_error : CandidateStatus

pub data CacheRisk : Type 0 where
  low medium high unknown : CacheRisk

-- The trait. `transform` has the number of its call, since nothing but the determinism gate says
-- that two calls agree.
pub record ShadowCompressor : Type 0 where
  pub id : Bytes
  pub version : ℕ
  pub supports : BlockMetadata → Bool
  pub transform : ℕ → Bytes → CompressionLimits → Result TransformError Transform
  pub recover : Bytes → Bytes → CompressionLimits → Result TransformError Bytes

-- What one evaluation reads off the clock: at the time gate, and when it builds its metrics.
pub record Readings : Type 0 where
  pub elapsed_ms : ℕ
  pub elapsed_us : ℕ

-- A digest, and its comparison.
pub record Hash : Type 1 where
  pub Digest : Type 0
  pub digest : Bytes → Digest
  pub eq : Digest → Digest → Bool
  pub eq_iff : (a b : Digest) → (eq a b ≡ true) ↔ (a ≡ b)

pub record CandidateMetrics (D : Type 0) : Type 0 where
  pub compressor_id : Bytes
  pub compressor_version : ℕ
  pub status : CandidateStatus
  pub input_bytes : ℕ
  pub output_bytes : Option ℕ
  pub bytes_delta : Option ℤ
  pub input_estimated_tokens : Option ℕ
  pub output_estimated_tokens : Option ℕ
  pub estimated_token_delta : Option ℤ
  pub processing_us : ℕ
  pub reversible : Bool
  pub recovery_verified : Bool
  pub deterministic : Bool
  pub original_fingerprint : D
  pub candidate_fingerprint : Option D
  pub first_modified_offset : Option ℕ
  pub preserved_prefix_bytes : Option ℕ
  pub preserved_prefix_ratio_basis_points : Option ℕ
  pub cache_risk : CacheRisk

pub record CompressionCandidate (D : Type 0) : Type 0 where
  pub metrics : CandidateMetrics D
  pub candidate : Option Bytes

unfoldable pub status_for : TransformError → CandidateStatus
status_for TransformError.not_applicable = not_applicable
status_for TransformError.resource_limit = resource_limit
status_for TransformError.invalid_input = invalid_input
status_for TransformError.internal = internal_error

-- `i64::MAX`; `i64::try_from(i128::from(input) - i128::from(output)).ok()`.
abbrev i64_max : ℕ
i64_max = 9223372036854775807

abbrev to_i64 : ℤ → Option ℤ
to_i64 (pos n) = if leb n i64_max then some (pos n) else none
to_i64 (negsuc n) = if leb n i64_max then some (negsuc n) else none

pub signed_delta : ℕ → ℕ → Option ℤ
signed_delta input output = to_i64 (sub_ℕ input output)

pub common_prefix : Bytes → Bytes → ℕ
common_prefix (x ∷ xs) (y ∷ ys) = let more = common_prefix xs ys in if x == y then suc more else 0
common_prefix _ _ = 0

pub prefix_ratio : BlockMetadata → ℕ → Option ℕ
prefix_ratio m prefix =
    if m.request_analysis_bytes == 0
    then none
    else some (
        min
          (saturating_mul (saturating_add m.request_offset prefix) 10_000
            / m.request_analysis_bytes)
          10_000)

-- `persistence.unwrap_or(0) > 1`.
abbrev is_persistent : Option ℕ → Bool
is_persistent none = false
is_persistent (some n) = ltb 1 n

pub cache_risk : BlockMetadata → Option ℕ → CacheRisk
cache_risk m none = unknown
cache_risk m (some value) =
    if leb 9_000 value && is_persistent m.persistence
    then low
    else if leb 5_000 value
    then medium
    else high

-- `input.zip(output).and_then(signed_delta)`.
abbrev token_delta : Option ℕ → Option ℕ → Option ℤ
token_delta (some i) (some o) = signed_delta i o
token_delta _ _ = none

-- `input.zip(output).is_some_and(|(i, o)| o >= i)`.
abbrev no_token_improvement : Option ℕ → Option ℕ → Bool
no_token_improvement (some i) (some o) = leb i o
no_token_improvement _ _ = false

-- `input_estimated_tokens.and_then(|_| estimate(candidate))`.
abbrev estimated : Option ℕ → Option ℕ → Option ℕ
estimated none e = none
estimated (some _) e = e

-- The two transforms: both, or the first error.
abbrev pub both :
    Result TransformError Transform
    → Result TransformError Transform
    → Result TransformError (Transform × Transform)
both (ok first) (ok second) = ok (first, second)
both (err e) _ = err e
both (ok _) (err e) = err e

abbrev pub choose_status : Bool → Bool → Bool → CandidateStatus
choose_status deterministic recovery_verified worse =
    if not deterministic
    then internal_error
    else if not recovery_verified
    then recovery_failed
    else if worse
    then no_improvement
    else applicable

-- The resource gate behind the transforms.
abbrev pub over_limits : CompressionLimits → Readings → Transform → Bool
over_limits limits clock t =
    let output_bytes = to_u64 (length t.candidate) in
    ltb limits.max_candidate_output_bytes output_bytes
    || ltb limits.max_shadow_memory_bytes (saturating_add output_bytes (to_u64 (length t.recovery)))
    || ltb limits.max_shadow_wall_time_ms clock.elapsed_ms

module _ (hash : Hash) where
  open hash use {Digest, digest, eq}

  -- `.as_deref().is_ok_and(|recovered| digest(recovered) == original_fingerprint)`.
  abbrev pub is_verified : Digest → Result TransformError Bytes → Bool
  is_verified original (err _) = false
  is_verified original (ok recovered) = eq (digest recovered) original

module _ (hash : Hash) (c : ShadowCompressor) (m : BlockMetadata) (input : Bytes)
    (limits : CompressionLimits) (clock : Readings) where
  open hash use {Digest, digest, eq}

  -- The metrics of an early return.
  unfoldable pub base : CandidateStatus → CompressionCandidate Digest
  base status = record {
    metrics = record {
      compressor_id = c.id;
      compressor_version = c.version;
      status = status;
      input_bytes = to_u64 (length input);
      output_bytes = none;
      bytes_delta = none;
      input_estimated_tokens = m.input_estimated_tokens;
      output_estimated_tokens = none;
      estimated_token_delta = none;
      processing_us = clock.elapsed_us;
      reversible = true;
      recovery_verified = false;
      deterministic = false;
      original_fingerprint = digest input;
      candidate_fingerprint = none;
      first_modified_offset = none;
      preserved_prefix_bytes = none;
      preserved_prefix_ratio_basis_points = none;
      cache_risk = unknown;
    };
    candidate = none;
  }

  -- The metrics of a candidate that passed the resource gates.
  unfoldable pub measured :
      (Bytes → Option ℕ) → Transform → Bool → Bool → CompressionCandidate Digest
  measured estimate first deterministic recovery_verified =
      let input_bytes = to_u64 (length input) in
      let output_bytes = to_u64 (length first.candidate) in
      let prefix = common_prefix input first.candidate in
      let ratio = prefix_ratio m (to_u64 prefix) in
      let tokens = estimated m.input_estimated_tokens (estimate first.candidate) in
      record {
        metrics = record {
          compressor_id = c.id;
          compressor_version = c.version;
          status = choose_status deterministic recovery_verified (
              leb input_bytes output_bytes || no_token_improvement m.input_estimated_tokens tokens);
          input_bytes = input_bytes;
          output_bytes = some output_bytes;
          bytes_delta = signed_delta input_bytes output_bytes;
          input_estimated_tokens = m.input_estimated_tokens;
          output_estimated_tokens = tokens;
          estimated_token_delta = token_delta m.input_estimated_tokens tokens;
          processing_us = clock.elapsed_us;
          reversible = true;
          recovery_verified = recovery_verified;
          deterministic = deterministic;
          original_fingerprint = digest input;
          candidate_fingerprint = some (digest first.candidate);
          first_modified_offset =
              if ltb prefix (length input) || ltb prefix (length first.candidate)
              then some (to_u64 prefix)
              else none;
          preserved_prefix_bytes = some (to_u64 prefix);
          preserved_prefix_ratio_basis_points = ratio;
          cache_risk = cache_risk m ratio;
        };
        candidate = some first.candidate;
      }

  abbrev evaluate_transforms :
      (Bytes → Option ℕ)
      → Result TransformError (Transform × Transform)
      → CompressionCandidate Digest
  evaluate_transforms estimate (err e) = base (status_for e)
  evaluate_transforms estimate (ok (first, second)) =
      if over_limits limits clock first
      then base resource_limit
      else measured estimate first
          (eq_bytes first.candidate second.candidate && eq_bytes first.recovery second.recovery)
          (is_verified hash (digest input) (c.recover first.candidate first.recovery limits))

  unfoldable pub evaluate_with_estimator : (Bytes → Option ℕ) → CompressionCandidate Digest
  evaluate_with_estimator estimate =
      if not (c.supports m)
      then base not_applicable
      else if ltb limits.max_candidate_input_bytes (to_u64 (length input))
          || ltb limits.max_shadow_memory_bytes (to_u64 (length input))
      then base resource_limit
      else evaluate_transforms estimate
          (both (c.transform 0 input limits) (c.transform 1 input limits))

  -- With no estimator.
  unfoldable pub evaluate : CompressionCandidate Digest
  unfolding evaluate_with_estimator
  evaluate = evaluate_with_estimator (λ _. none)
