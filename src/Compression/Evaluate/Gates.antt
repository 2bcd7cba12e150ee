-- ===== src/Compression/Evaluate/Gates.antt =====
-- What a status says: the gates of `evaluate_with_estimator`.
use tracepress.Base.{
  ℕ, ◌≤◌, ◌<◌, ◌≡◌, refl, sym, ap, ◌∙◌, ◌≢◌, inl, inr, Bool, true, false, ◌&&◌, ◌||◌, Option, some,
  arith, Bytes, ltb, Bool-cases, saturating_add, to_u64, eq_bytes, eq_bytes_iff, length, Result,
  Result-cases, ok, err,
}
use tracepress.Compression.Types.{BlockMetadata, CompressionLimits, TransformError, Transform}
use tracepress.Compression.Evaluate.{
  CandidateStatus, applicable, not_applicable, resource_limit, ShadowCompressor, Readings, Hash,
  CompressionCandidate, status_for, both, over_limits, is_verified, base, measured,
  evaluate_transforms, evaluate_with_estimator,
}

module _ (hash : Hash) (c : ShadowCompressor) (m : BlockMetadata) (input : Bytes)
    (limits : CompressionLimits) (clock : Readings) (estimate : Bytes → Option ℕ) where
  open hash use {Digest, digest, eq, eq_iff}

  abbrev pub outcome : CompressionCandidate Digest
  outcome = evaluate_with_estimator hash c m input limits clock estimate

  -- The block and the input may be transformed at all.
  pub record Admitted : Type 0 where
    pub supported : c.supports m ≡ true
    pub within_input : to_u64 (length input) ≤ limits.max_candidate_input_bytes
    pub within_memory : to_u64 (length input) ≤ limits.max_shadow_memory_bytes

  -- The two transforms agree on this transform, whose candidate is within the output limit, and with
  -- its recovery bytes within the memory limit, and the time at the gate is within its limit.
  pub record Produced (t : Transform) : Type 0 where
    pub first : c.transform 0 input limits ≡ ok t
    pub second : c.transform 1 input limits ≡ ok t
    pub within_output : to_u64 (length t.candidate) ≤ limits.max_candidate_output_bytes
    pub within_memory :
        saturating_add (to_u64 (length t.candidate)) (to_u64 (length t.recovery))
        ≤ limits.max_shadow_memory_bytes
    pub within_time : clock.elapsed_ms ≤ limits.max_shadow_wall_time_ms

  -- Recovery gives bytes of the same digest.
  abbrev pub Recovered : Transform → Type 0
  Recovered t =
      (r : Bytes) × (c.recover t.candidate t.recovery limits ≡ ok r) × (digest r ≡ digest input)

  -- The candidate is smaller, also in estimated tokens where both sides have an estimate.
  abbrev pub Better : Transform → Type 0
  Better t =
      (to_u64 (length t.candidate) < to_u64 (length input))
      × ((i o : ℕ) → m.input_estimated_tokens ≡ some i → estimate t.candidate ≡ some o → o < i)

  -- Everything that an accepted candidate has.
  abbrev pub Accepted : Transform → Type 0
  Accepted t = Produced t × Recovered t × Better t

  pub Transform_eq :
      (s t : Transform)
      → (eq_bytes s.candidate t.candidate && eq_bytes s.recovery t.recovery) ≡ true
      → s ≡ t
  Transform_eq s t e =
      ground (arith, eq_bytes_iff s.candidate t.candidate, eq_bytes_iff s.recovery t.recovery)

  pub is_verified-Recovered :
      (t : Transform)
      → is_verified hash (digest input) (c.recover t.candidate t.recovery limits) ≡ true
      → Recovered t
  is_verified-Recovered t e = elim (Result-cases (c.recover t.candidate t.recovery limits)) [
    | inl (r, found) ↦ (r, found, (eq_iff (digest r) (digest input)).0 (rw found at e))
    | inr (x, found) ↦ let h = rw found at e in cc
  ]

  measured_applicable :
      (t : Transform) (d v : Bool)
      → (measured hash c m input limits clock estimate t d v).metrics.status ≡ applicable
      → (d ≡ true) × (v ≡ true) × Better t
  unfolding measured
  measured_applicable t d v e =
      (ground arith, ground arith, (ground arith, λ i o h h'. ground arith))

  pub base-status : (s : CandidateStatus) → (base hash c m input limits clock s).metrics.status ≡ s
  unfolding base
  base-status s = refl

  status_for-ne-applicable : (e : TransformError) → status_for e ≢ applicable
  unfolding status_for
  status_for-ne-applicable e = ground arith

  measured-candidate :
      (t : Transform) (d v : Bool)
      → (measured hash c m input limits clock estimate t d v).candidate ≡ some t.candidate
  unfolding measured
  measured-candidate t d v = refl

  -- The report carries exactly an accepted candidate.
  abbrev pub Carries : CompressionCandidate Digest → Type 0
  Carries out = (t : Transform) × Accepted t × (out.candidate ≡ some t.candidate)

  pub early_return :
      (s : CandidateStatus)
      → s ≢ applicable
      → (base hash c m input limits clock s).metrics.status ≡ applicable
      → ⊥
  early_return s ne h = ne (sym (base-status s) ∙ h)

  -- The resource gate behind the transforms.
  pub produced :
      (t : Transform)
      → c.transform 0 input limits ≡ ok t
      → c.transform 1 input limits ≡ ok t
      → over_limits limits clock t ≡ false
      → Produced t
  produced t p q fits = record {
    first = p;
    second = q;
    within_output = ground arith;
    within_memory = ground arith;
    within_time = ground arith;
  }

  pub Produced-fits : (t : Transform) → Produced t → over_limits limits clock t ≡ false
  Produced-fits t p = ground (arith, p.within_output, p.within_memory, p.within_time)

  transforms_applicable :
      (r0 r1 : Result TransformError Transform)
      → c.transform 0 input limits ≡ r0
      → c.transform 1 input limits ≡ r1
      → (evaluate_transforms hash c m input limits clock estimate (both r0 r1)).metrics.status
        ≡ applicable
      → Carries (evaluate_transforms hash c m input limits clock estimate (both r0 r1))
  transforms_applicable (err e) r1 p q h = absurd (early_return _ (status_for-ne-applicable e) h)
  transforms_applicable (ok s) (err e) p q h =
      absurd (early_return _ (status_for-ne-applicable e) h)
  transforms_applicable (ok s) (ok t) p q h = elim (Bool-cases (over_limits limits clock s)) [
    | inl over ↦ absurd (early_return resource_limit (λ e. cc) (rw over at h))
    | inr fits ↦
        let (same, verified, better) = measured_applicable s _ _ (rw fits at h) in
        (
          s,
          (
            produced s p (q ∙ ap ok (sym (Transform_eq s t same))) fits,
            is_verified-Recovered s verified,
            better,
          ),
          rw fits (measured-candidate s _ _),
        )
  ]

  -- A candidate is reported applicable only if the compressor supports the block, the input is within
  -- the input and memory limits, both transforms gave this one candidate, it is within the output
  -- limit and with its recovery bytes within the memory limit, the time is within the wall-time
  -- limit, recovery from it gives bytes with the input's digest, and it is smaller than the input,
  -- also in estimated tokens where both have an estimate; and the report carries that candidate.
  pub evaluate_applicable : outcome.metrics.status ≡ applicable → Admitted × Carries outcome
  unfolding evaluate_with_estimator
  evaluate_applicable h = elim (Bool-cases (c.supports m)) [
    | inr no_support ↦ absurd (early_return not_applicable (λ e. cc) (rw no_support at h))
    | inl support ↦
        elim (Bool-cases (
          ltb limits.max_candidate_input_bytes (to_u64 (length input))
          || ltb limits.max_shadow_memory_bytes (to_u64 (length input)))) [
            | inl large ↦ absurd (early_return resource_limit (λ e. cc) (rw (support, large) at h))
            | inr small ↦ (
              record {
                supported = support;
                within_input = ground arith;
                within_memory = ground arith;
              },
              rw (support, small) (transforms_applicable _ _ refl refl (rw (support, small) at h)),
            )
          ]
  ]
