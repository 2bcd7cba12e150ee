-- ===== src/Compression/Evaluate/Recovery.antt =====
-- When the recovery gate of `evaluate_with_estimator` refuses a candidate.
use tracepress.Base.{
  ℕ, ◌≡◌, refl, sym, ap, ◌∙◌, ◌≢◌, ◌↔◌, inl, inr, Bool, true, false, ◌||◌, Option, arith, Bytes,
  ltb, Bool-cases, to_u64, eq_bytes_refl, length, Result, ok, err,
}
use tracepress.Compression.Types.{BlockMetadata, CompressionLimits, TransformError, Transform}
use tracepress.Compression.Evaluate.{
  CandidateStatus, not_applicable, resource_limit, recovery_failed, ShadowCompressor, Readings,
  Hash, status_for, both, over_limits, is_verified, base, measured, evaluate_transforms,
  evaluate_with_estimator,
}
use tracepress.Compression.Evaluate.Gates.{
  outcome, Admitted, Produced, Recovered, produced, Produced-fits, Transform_eq,
  is_verified-Recovered, base-status,
}

module _ (hash : Hash) (c : ShadowCompressor) (m : BlockMetadata) (input : Bytes)
    (limits : CompressionLimits) (clock : Readings) (estimate : Bytes → Option ℕ) where
  open hash use {Digest, digest, eq, eq_iff}

  -- Both transforms gave one candidate, and it does not lead back to the input.
  abbrev pub Lost : Transform → Type 0
  Lost t =
      Produced hash c m input limits clock estimate t
      × ¬ Recovered hash c m input limits clock estimate t

  status_for-ne : (e : TransformError) → status_for e ≢ recovery_failed
  unfolding status_for
  status_for-ne e = ground arith

  base-ne :
      (s : CandidateStatus)
      → s ≢ recovery_failed
      → (base hash c m input limits clock s).metrics.status ≡ recovery_failed
      → ⊥
  base-ne s ne h = ne (sym (base-status hash c m input limits clock estimate s) ∙ h)

  measured_failed :
      (t : Transform) (d v : Bool)
      → (measured hash c m input limits clock estimate t d v).metrics.status ≡ recovery_failed
      → (d ≡ true) × (v ≡ false)
  unfolding measured
  measured_failed t d v e = (ground arith, ground arith)

  failed_measured :
      (t : Transform)
      → (measured hash c m input limits clock estimate t true false).metrics.status
        ≡ recovery_failed
  unfolding measured
  failed_measured t = refl

  Recovered-is_verified :
      (t : Transform)
      → Recovered hash c m input limits clock estimate t
      → is_verified hash (digest input) (c.recover t.candidate t.recovery limits) ≡ true
  Recovered-is_verified t (r, found, same) = rw found ((eq_iff (digest r) (digest input)).1 same)

  transforms_failed :
      (r0 r1 : Result TransformError Transform)
      → c.transform 0 input limits ≡ r0
      → c.transform 1 input limits ≡ r1
      → (evaluate_transforms hash c m input limits clock estimate (both r0 r1)).metrics.status
        ≡ recovery_failed
      → (t : Transform) × Lost t
  transforms_failed (err e) r1 p q h = absurd (base-ne _ (status_for-ne e) h)
  transforms_failed (ok s) (err e) p q h = absurd (base-ne _ (status_for-ne e) h)
  transforms_failed (ok s) (ok t) p q h = elim (Bool-cases (over_limits limits clock s)) [
    | inl over ↦ absurd (base-ne resource_limit (λ e. cc) (rw over at h))
    | inr fits ↦
        let (same, unverified) = measured_failed s _ _ (rw fits at h) in
        let agree = Transform_eq hash c m input limits clock estimate s t same in
        (
          s,
          (
            produced hash c m input limits clock estimate s p (q ∙ ap ok (sym agree)) fits,
            λ back. let h' = Recovered-is_verified s back in cc,
          ),
        )
  ]

  failed_transforms :
      (t : Transform)
      → Lost t
      → (evaluate_transforms hash c m input limits clock estimate
          (both (c.transform 0 input limits) (c.transform 1 input limits))).metrics.status
        ≡ recovery_failed
  failed_transforms t (p, lost) =
      elim (Bool-cases
        (is_verified hash (digest input) (c.recover t.candidate t.recovery limits))) [
          | inl verified ↦
              absurd (lost (is_verified-Recovered hash c m input limits clock estimate t verified))
          | inr unverified ↦
              rw
                (
                  p.first,
                  p.second,
                  Produced-fits hash c m input limits clock estimate t p,
                  eq_bytes_refl t.candidate,
                  eq_bytes_refl t.recovery,
                  unverified,
                )
                (failed_measured t)
        ]

  -- The evaluation ends in `RecoveryFailed` exactly when the compressor supports the block, the input
  -- is within the input and memory limits, both transforms gave one candidate within the output,
  -- memory and time limits, and recovery from it fails or gives bytes of another digest than the
  -- input's.
  pub evaluate-recovery_failed :
      ((outcome hash c m input limits clock estimate).metrics.status ≡ recovery_failed)
      ↔ (Admitted hash c m input limits clock estimate × ((t : Transform) × Lost t))
  unfolding evaluate_with_estimator
  evaluate-recovery_failed = (
    (λ h. elim (Bool-cases (c.supports m)) [
      | inr no_support ↦ absurd (base-ne not_applicable (λ e. cc) (rw no_support at h))
      | inl support ↦
          elim (Bool-cases (
            ltb limits.max_candidate_input_bytes (to_u64 (length input))
            || ltb limits.max_shadow_memory_bytes (to_u64 (length input)))) [
              | inl large ↦ absurd (base-ne resource_limit (λ e. cc) (rw (support, large) at h))
              | inr small ↦ (
                record {
                  supported = support;
                  within_input = ground arith;
                  within_memory = ground arith;
                },
                transforms_failed _ _ refl refl (rw (support, small) at h),
              )
            ]
    ]),
    λ (admitted, (t, lost)).
        let support = admitted.supported in
        let small : (ltb limits.max_candidate_input_bytes (to_u64 (length input))
              || ltb limits.max_shadow_memory_bytes (to_u64 (length input)))
            ≡ false =
          ground (arith, admitted.within_input, admitted.within_memory) in
        rw (support, small) (failed_transforms t lost),
  )
