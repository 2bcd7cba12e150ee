-- ===== src/Context/Reconciliation/Laws.antt =====
-- A residual is only reported where the two totals can be compared.
use tracepress.Base.{
  ℕ, ◌≤◌, ◌≡◌, refl, ◌↔◌, Bool, true, false, Option, none, some, arith, some-injective,
}
use tracepress.Base.Int.{ℤ, sub_ℕ}
use tracepress.Context.Visibility.{
  status_of, ContextVisibility, logical_context_status, references_provider_managed_content,
  references_external_content,
}
use tracepress.Context.Reconciliation.{
  residual_and_status, compare_signed, status_for_context, signed, reconcile,
  comparable_approximate, i64_max,
}

residual-both :
    (v : ContextVisibility) (c : Bool) (p l : ℕ) (z : ℤ)
    → ((residual_and_status v c (some p) (some l)).0 ≡ some z)
      ↔ ((p ≤ i64_max) × (l ≤ i64_max) × (c ≡ true) × (z ≡ sub_ℕ p l))
residual-both v true p l z = ground arith
residual-both v false p l z = ground arith

-- The residual is this number exactly when the units are comparable, both totals are present and
-- within the signed range, and it is the provider's total less the local one.
pub reconcile-residual :
    (snapshot : ℕ) (v : ContextVisibility) (visible provider : Option ℕ) (comparable : Bool) (z : ℤ)
    → ((reconcile snapshot v visible provider comparable).residual_tokens ≡ some z) ↔ (
        (p l : ℕ) × (provider ≡ some p)
        × (visible ≡ some l)
        × (p ≤ i64_max)
        × (l ≤ i64_max)
        × (comparable ≡ true)
        × (z ≡ sub_ℕ p l))
unfolding reconcile
reconcile-residual snapshot v none none c z = ground arith
reconcile-residual snapshot v (some l) none c z = ground arith
reconcile-residual snapshot v none (some p) c z = ground arith
reconcile-residual snapshot v (some l) (some p) c z = (
  λ h. let (a, b, e, d) = (residual-both v c p l z).0 h in (p, l, refl, refl, a, b, e, d),
  λ (q, k, same, same', a, b, e, d).
      (residual-both v c p l z).1 (rw (some-injective same, some-injective same') (a, b, e, d)),
)

whole :
    (managed external complete : Bool)
    → (status_for_context (status_of managed external complete) ≡ comparable_approximate)
      ↔ ((complete ≡ true) × (managed ≡ false) × (external ≡ false))
whole true true c = ground arith
whole true false c = ground arith
whole false true c = ground arith
whole false false true = ground arith
whole false false false = ground arith

compared :
    (v : ContextVisibility) (p l : Option ℕ)
    → ((compare_signed v true p l).1 ≡ comparable_approximate) ↔ (
        ((z : ℤ) × ((compare_signed v true p l).0 ≡ some z))
        × (v.explicit_request_complete ≡ true)
        × (references_provider_managed_content v ≡ false)
        × (references_external_content v ≡ false))
unfolding logical_context_status
compared v none l = ground arith
compared v (some p) none = ground arith
compared v (some p) (some l) =
    let w =
      whole (references_provider_managed_content v) (references_external_content v)
        v.explicit_request_complete in
    (λ h. let (a, b, c) = w.0 h in ((sub_ℕ p l, refl), a, b, c), λ (_, a, b, c). w.1 (a, b, c))

-- The comparison is called approximately comparable exactly when there is a residual and the whole
-- context was visible: the request was completely observed and no signal refers to other content.
pub reconcile-comparable :
    (snapshot : ℕ) (v : ContextVisibility) (visible provider : Option ℕ) (comparable : Bool)
    → ((reconcile snapshot v visible provider comparable).comparability ≡ comparable_approximate)
      ↔ (((z : ℤ) × ((reconcile snapshot v visible provider comparable).residual_tokens ≡ some z))
          × (v.explicit_request_complete ≡ true)
          × (references_provider_managed_content v ≡ false)
          × (references_external_content v ≡ false))
unfolding reconcile logical_context_status
reconcile-comparable snapshot v none none c = ground arith
reconcile-comparable snapshot v (some l) none c = ground arith
reconcile-comparable snapshot v none (some p) c = ground arith
reconcile-comparable snapshot v (some l) (some p) false = ground arith
reconcile-comparable snapshot v (some l) (some p) true = compared v (signed p) (signed l)
