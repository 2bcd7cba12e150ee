-- ===== src/Core/Binding.antt =====
-- crates/tracepress-core/src/binding.rs: a representation that is selected once for a session.
-- An identity (a UUID or a SHA-256 digest) is its number, a version label its bytes.
pub mod Laws
use tracepress.Base.{ℕ, not, ◌||◌, Bytes, ◌==◌, eq_bytes, Result, ◌>>=◌, ◌>>◌, fail_if}

pub record BindingKey : Type 0 where
  pub session_id : ℕ
  pub logical_content_id : ℕ

pub record BindingVersions : Type 0 where
  pub compressor_version : Bytes
  pub policy_version : Bytes

pub record BindingRepresentation : Type 0 where
  pub raw_content_id : ℕ
  pub rendered_content_id : ℕ
  pub versions : BindingVersions

pub record BindingCandidate : Type 0 where
  pub key : BindingKey
  pub representation : BindingRepresentation

-- The `frozen` field has the one value `FrozenMarker`.
pub record ContextBinding : Type 0 where
  pub binding_id : ℕ
  pub session_id : ℕ
  pub logical_content_id : ℕ
  pub raw_content_id : ℕ
  pub rendered_content_id : ℕ
  pub compressor_version : Bytes
  pub policy_version : Bytes

pub freeze : ℕ → BindingCandidate → ContextBinding
freeze binding_id candidate = record {
  binding_id = binding_id;
  session_id = candidate.key.session_id;
  logical_content_id = candidate.key.logical_content_id;
  raw_content_id = candidate.representation.raw_content_id;
  rendered_content_id = candidate.representation.rendered_content_id;
  compressor_version = candidate.representation.versions.compressor_version;
  policy_version = candidate.representation.versions.policy_version;
}

pub data BindingConflictField : Type 0 where
  raw_content rendered_content compressor_version policy_version : BindingConflictField

pub data ContextBindingError : Type 0 where
  key_mismatch : ℕ → ContextBindingError
  frozen_conflict : ℕ → BindingConflictField → ContextBindingError

abbrev conflict : ContextBinding → BindingConflictField → ContextBindingError
conflict b field = frozen_conflict b.binding_id field

pub ensure_compatible : ContextBinding → BindingCandidate → Result ContextBindingError (Unit {0})
ensure_compatible b c = do
  fail_if
      (not (b.session_id == c.key.session_id)
        || not (b.logical_content_id == c.key.logical_content_id))
      (key_mismatch b.binding_id)
  fail_if (not (b.raw_content_id == c.representation.raw_content_id)) (conflict b raw_content)
  fail_if (not (b.rendered_content_id == c.representation.rendered_content_id))
      (conflict b rendered_content)
  fail_if (not (eq_bytes b.compressor_version c.representation.versions.compressor_version))
      (conflict b compressor_version)
  fail_if (not (eq_bytes b.policy_version c.representation.versions.policy_version))
      (conflict b policy_version)
