-- ===== src/ActiveModel/Lookup.antt =====
-- src/pl_platform/registry/active_model.py, `load_current_active_model`. The artifact root is read twice:
-- before and after the artifact is loaded.
use ai_powered_premier_leagu.Prelude.{
  ℕ, ◌==◌, Bool, not, Option, none, some, List, [], ◌∷◌, filter, Result, ok, err, ◌>>=◌,
}
use ai_powered_premier_leagu.Registry.{
  RegistryEntry, ArtifactFailureCode, Hashing, active, state_rank,
}
use ai_powered_premier_leagu.Registry.Store.{same_bytes}
use ai_powered_premier_leagu.ActiveModel.{
  VerifiedRegistryEntry, LookupFailure, load_error, other_error, index_error, failed, failed_at,
  artifact_failure_mapping, no_active_model, ambiguous_active_models, malformed_registry_history,
  artifact_missing, checksum_mismatch, unsupported_model_component,
}
use ai_powered_premier_leagu.ActiveModel.Chain.{
  LoadedModelArtifact, assert_supported_chain, reject_if,
}

-- A ModelArtifactError, an OSError, a CatBoostError.
pub data ArtifactLoadFailure : Type 0 where
  artifact_refused : ArtifactFailureCode → ArtifactLoadFailure
  unreadable : ArtifactLoadFailure
  classifier_refused : ArtifactLoadFailure

-- What the artifact root holds at the path of a manifest, and what `load_model_artifact` makes of it.
pub record ArtifactRoot : Type 0 where
  pub escapes : List ℕ → Bool
  pub has_symlink : List ℕ → Bool
  pub is_file : List ℕ → Bool
  pub bytes_before : List ℕ → Option (List ℕ)
  pub load_model_artifact : List ℕ → Result ArtifactLoadFailure LoadedModelArtifact
  pub bytes_after : List ℕ → Option (List ℕ)

pub record LoadedActiveModel : Type 0 where
  pub registry : VerifiedRegistryEntry
  pub artifact : LoadedModelArtifact

-- `read_bytes`, with the error for a file that cannot be read.
abbrev pub readable : RegistryEntry → Option (List ℕ) → Result LookupFailure (List ℕ)
readable entry none = failed_at artifact_missing entry
readable entry (some bytes) = ok bytes

-- `_verify_registry_artifact_link`, which gives the bytes of the manifest.
unfoldable pub verify_registry_artifact_link :
    Hashing → ArtifactRoot → RegistryEntry → List ℕ → Result LookupFailure (List ℕ)
verify_registry_artifact_link h root entry path = do
  _ ← reject_if (root.escapes path) (failed_at unsupported_model_component entry)
  _ ← reject_if (root.has_symlink path) (failed_at unsupported_model_component entry)
  _ ← reject_if (not (root.is_file path)) (failed_at artifact_missing entry)
  bytes ← readable entry (root.bytes_before path)
  _ ←
      reject_if (not (h.sha256 bytes == entry.artifact_manifest_sha256))
        (failed_at checksum_mismatch entry)
  ok bytes

abbrev pub loaded_artifact :
    RegistryEntry
    → Result ArtifactLoadFailure LoadedModelArtifact
    → Result LookupFailure LoadedModelArtifact
loaded_artifact entry (ok artifact) = ok artifact
loaded_artifact entry (err (artifact_refused code)) =
    failed_at (artifact_failure_mapping code) entry
loaded_artifact entry (err unreadable) = failed_at artifact_missing entry
loaded_artifact entry (err classifier_refused) = failed_at unsupported_model_component entry

abbrev pub load_verified :
    Hashing
    → ArtifactRoot
    → VerifiedRegistryEntry
    → RegistryEntry
    → List ℕ
    → Result LookupFailure LoadedActiveModel
load_verified h root snapshot entry path = do
  bytes ← verify_registry_artifact_link h root entry path
  artifact ← loaded_artifact entry (root.load_model_artifact path)
  unchanged ← readable entry (root.bytes_after path)
  _ ← reject_if (not (same_bytes unchanged bytes)) (failed_at checksum_mismatch entry)
  _ ← assert_supported_chain entry artifact
  ok (record { registry = snapshot; artifact = artifact })

abbrev pub is_active : VerifiedRegistryEntry → Bool
is_active snapshot = state_rank snapshot.state == state_rank active

abbrev pub resolve :
    Hashing → ArtifactRoot → List VerifiedRegistryEntry → Result LookupFailure LoadedActiveModel
resolve h root [] = failed no_active_model
resolve h root (snapshot ∷ []) =
    load_verified h root snapshot snapshot.entry snapshot.entry.artifact_manifest_relative_path
resolve h root (snapshot ∷ another ∷ more) = failed ambiguous_active_models

-- The errors of the history source, as the lookup raises them.
abbrev pub source_entries :
    Result LookupFailure (List VerifiedRegistryEntry)
    → Result LookupFailure (List VerifiedRegistryEntry)
source_entries (ok snapshots) = ok snapshots
source_entries (err (load_error e)) = err (load_error e)
source_entries (err other_error) = failed malformed_registry_history
source_entries (err index_error) = err index_error

-- The history source is given by what its `load_entries` returns or raises.
unfoldable pub load_current_active_model :
    Hashing
    → ArtifactRoot
    → Result LookupFailure (List VerifiedRegistryEntry)
    → Result LookupFailure LoadedActiveModel
load_current_active_model h root source = do
  snapshots ← source_entries source
  resolve h root (filter is_active snapshots)
