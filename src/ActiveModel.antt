-- ===== src/ActiveModel.antt =====
-- src/pl_platform/registry/active_model.py: the one active model of a registry. Names, identifiers
-- and digests are compared only, so each is a number, and so are the configuration's decimals. What
-- the artifact root holds and what `load_model_artifact` makes of it are an argument.
pub mod History
pub mod Chain
pub mod Lookup
pub mod Support
pub mod Loaded
pub mod Closed
mod Tests
use ai_powered_premier_leagu.Prelude.{ℕ, Option, none, some, Result, ok, err}
use ai_powered_premier_leagu.Registry.{
  RegistryEntry, RegistryState, ArtifactFailureCode, manifest_invalid, manifest_non_canonical,
  identity_mismatch, path_invalid, component_missing, component_size_mismatch,
  component_checksum_mismatch, component_non_canonical, predictor_schema_incompatible,
  outcome_order_incompatible, policy_mismatch, registry_transition_invalid,
  final_test_evidence_required,
}
use ai_powered_premier_leagu.Registry

pub data ActiveModelFailureCode : Type 0 where
  no_active_model : ActiveModelFailureCode
  ambiguous_active_models : ActiveModelFailureCode
  malformed_registry_history : ActiveModelFailureCode
  artifact_missing : ActiveModelFailureCode
  checksum_mismatch : ActiveModelFailureCode
  schema_incompatible : ActiveModelFailureCode
  runtime_incompatible : ActiveModelFailureCode
  unsupported_model_component : ActiveModelFailureCode
  provenance_mismatch : ActiveModelFailureCode
  non_canonical_artifact : ActiveModelFailureCode

pub record ActiveModelLoadError : Type 0 where
  pub code : ActiveModelFailureCode
  pub entry_id : Option ℕ

pub record VerifiedRegistryEntry : Type 0 where
  pub entry : RegistryEntry
  pub state : RegistryState
  pub event_count : ℕ
  pub head_event_id : ℕ
  pub head_event_sha256 : ℕ

-- An ActiveModelLoadError, one of the OSError, ModelArtifactError and ValueError that the lookup
-- turns into one, or the IndexError of a history without events.
pub data LookupFailure : Type 0 where
  load_error : ActiveModelLoadError → LookupFailure
  other_error : LookupFailure
  index_error : LookupFailure

abbrev pub failed {ℓ} : {Val : Type ℓ} → ActiveModelFailureCode → Result LookupFailure Val
failed code = err (load_error (record { code = code; entry_id = none }))

abbrev pub failed_at {ℓ} :
    {Val : Type ℓ} → ActiveModelFailureCode → RegistryEntry → Result LookupFailure Val
failed_at code entry = err (load_error (record { code = code; entry_id = some entry.entry_id }))

-- `_ARTIFACT_FAILURE_MAPPING`
abbrev pub artifact_failure_mapping : ArtifactFailureCode → ActiveModelFailureCode
artifact_failure_mapping manifest_invalid = schema_incompatible
artifact_failure_mapping manifest_non_canonical = non_canonical_artifact
artifact_failure_mapping identity_mismatch = provenance_mismatch
artifact_failure_mapping path_invalid = unsupported_model_component
artifact_failure_mapping component_missing = artifact_missing
artifact_failure_mapping component_size_mismatch = checksum_mismatch
artifact_failure_mapping component_checksum_mismatch = checksum_mismatch
artifact_failure_mapping component_non_canonical = non_canonical_artifact
artifact_failure_mapping Registry.runtime_incompatible = runtime_incompatible
artifact_failure_mapping predictor_schema_incompatible = schema_incompatible
artifact_failure_mapping outcome_order_incompatible = schema_incompatible
artifact_failure_mapping Registry.provenance_mismatch = provenance_mismatch
artifact_failure_mapping policy_mismatch = unsupported_model_component
artifact_failure_mapping registry_transition_invalid = malformed_registry_history
artifact_failure_mapping final_test_evidence_required = malformed_registry_history
