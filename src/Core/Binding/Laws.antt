-- ===== src/Core/Binding/Laws.antt =====
-- A frozen binding accepts its own representation and no other.
use tracepress.Base.{◌≡◌, ◌↔◌, arith, eq_bytes_iff, ok}
use tracepress.Core.Binding.{BindingCandidate, ContextBinding, freeze, ensure_compatible}

-- A binding accepts a candidate exactly when freezing the candidate would give the binding itself.
pub ensure_compatible_iff :
    (b : ContextBinding) (c : BindingCandidate)
    → (ensure_compatible b c ≡ ok tt) ↔ (freeze b.binding_id c ≡ b)
unfolding ensure_compatible freeze
ensure_compatible_iff b c = ground (
  arith,
  eq_bytes_iff b.compressor_version c.representation.versions.compressor_version,
  eq_bytes_iff b.policy_version c.representation.versions.policy_version,
)
