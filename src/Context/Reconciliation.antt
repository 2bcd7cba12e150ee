-- ===== src/Context/Reconciliation.antt =====
-- crates/tracepress-context/src/reconciliation.rs: local estimates against the provider's usage.
pub mod Laws
use tracepress.Base.{ℕ, Bool, true, false, Option, none, some, leb, if◌then◌else◌}
use tracepress.Base.Int.{ℤ, sub_ℕ}
use tracepress.Context.Visibility.{
  ContextVisibility, LogicalContextStatus, explicit_only, logical_context_status,
}

pub data ReconciliationStatus : Type 0 where
  comparable_approximate partial_visibility missing_provider_usage : ReconciliationStatus
  missing_local_estimate not_comparable : ReconciliationStatus

pub record TokenReconciliation : Type 0 where
  pub snapshot_id : ℕ
  pub visible_estimated_tokens : Option ℕ
  pub provider_input_tokens : Option ℕ
  pub residual_tokens : Option ℤ
  pub comparability : ReconciliationStatus

-- `i64::MAX`, and `i64::try_from(n).ok()` of a `u64`.
abbrev pub i64_max : ℕ
i64_max = 9223372036854775807

abbrev pub signed : ℕ → Option ℕ
signed n = if leb n i64_max then some n else none

abbrev pub status_for_context : LogicalContextStatus → ReconciliationStatus
status_for_context explicit_only = comparable_approximate
status_for_context _ = partial_visibility

-- The operands are from 0 to `i64::MAX`, so `checked_sub` has its difference.
abbrev pub compare_signed :
    ContextVisibility → Bool → Option ℕ → Option ℕ → Option ℤ × ReconciliationStatus
compare_signed v false (some provider) (some local) = (none, not_comparable)
compare_signed v true (some provider) (some local) =
    (some (sub_ℕ provider local), status_for_context (logical_context_status v))
compare_signed v _ _ _ = (none, not_comparable)

abbrev pub residual_and_status :
    ContextVisibility → Bool → Option ℕ → Option ℕ → Option ℤ × ReconciliationStatus
residual_and_status v comparable none local = (none, missing_provider_usage)
residual_and_status v comparable (some provider) none = (none, missing_local_estimate)
residual_and_status v comparable (some provider) (some local) =
    compare_signed v comparable (signed provider) (signed local)

pub reconcile : ℕ → ContextVisibility → Option ℕ → Option ℕ → Bool → TokenReconciliation
reconcile snapshot v visible provider comparable =
    let (residual, status) = residual_and_status v comparable provider visible in
    record {
      snapshot_id = snapshot;
      visible_estimated_tokens = visible;
      provider_input_tokens = provider;
      residual_tokens = residual;
      comparability = status;
    }
