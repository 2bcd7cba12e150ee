-- ===== src/Context/Visibility.antt =====
-- crates/tracepress-context/src/visibility.rs: what of a request's context can be seen.
use tracepress.Base.{Bool, true, false, ◌||◌}

pub data LogicalContextStatus : Type 0 where
  explicit_only provider_managed_partial external_references_partial : LogicalContextStatus
  mixed_partial unknown : LogicalContextStatus

pub record ContextVisibility : Type 0 where
  pub explicit_request_complete : Bool
  pub uses_previous_response : Bool
  pub uses_conversation_state : Bool
  pub uses_item_references : Bool
  pub uses_prompt_reference : Bool
  pub uses_external_files : Bool
  pub uses_external_images : Bool
  pub contains_opaque_items : Bool

abbrev pub references_provider_managed_content : ContextVisibility → Bool
references_provider_managed_content v =
    v.uses_previous_response || v.uses_conversation_state || v.uses_item_references
    || v.uses_prompt_reference || v.contains_opaque_items

abbrev pub references_external_content : ContextVisibility → Bool
references_external_content v = v.uses_external_files || v.uses_external_images

abbrev pub status_of : Bool → Bool → Bool → LogicalContextStatus
status_of true true complete = mixed_partial
status_of true false complete = provider_managed_partial
status_of false true complete = external_references_partial
status_of false false true = explicit_only
status_of false false false = unknown

unfoldable pub logical_context_status : ContextVisibility → LogicalContextStatus
logical_context_status v =
    status_of (references_provider_managed_content v) (references_external_content v)
      v.explicit_request_complete
