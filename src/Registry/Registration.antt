-- ===== src/Registry/Registration.antt =====
-- src/pl_platform/registry/registry.py: `register_model_artifact`, which opens a history.
use ai_powered_premier_leagu.Prelude.{
  ℕ, ◌||◌, Bool, true, false, not, Option, none, some, List, [], Result, ok, err, if◌then◌else◌,
}
use ai_powered_premier_leagu.Registry.{
  RegistryEntry, RegistryEvent, RegistryEvidence, Hashing, ArtifactFailureCode, candidate, register,
  path_invalid, registry_transition_invalid, make_event,
}
use ai_powered_premier_leagu.Registry.Store.{
  EntryDirectory, missing, check_entry, load_registry_entry, same_bytes,
}
use ai_powered_premier_leagu.Registry.Changes.{
  Failure, artifact_error, validation_error, Change, write_new, event_file, result_of,
}

-- What registering reads of a verified artifact: its identities, the digest of its manifest's bytes,
-- and the manifest's path below the artifact root, absent where it is outside.
pub record ModelArtifact : Type 0 where
  pub model_id : ℕ
  pub artifact_id : ℕ
  pub manifest_id : ℕ
  pub manifest_sha256 : ℕ
  pub relative_path : Option (List ℕ)

abbrev pub entry_of : Hashing → ModelArtifact → List ℕ → RegistryEntry
entry_of h artifact path = record {
  entry_id = h.entry_uuid artifact.artifact_id artifact.manifest_sha256;
  model_id = artifact.model_id;
  artifact_id = artifact.artifact_id;
  artifact_manifest_id = artifact.manifest_id;
  artifact_manifest_relative_path = path;
  artifact_manifest_sha256 = artifact.manifest_sha256;
}

abbrev pub empty_directory : EntryDirectory
empty_directory = record { entry_json = none; unexpected_children = 0; events = missing }

abbrev pub with_entry : EntryDirectory → List ℕ → EntryDirectory
with_entry d payload = record {
  entry_json = some payload;
  unexpected_children = d.unexpected_children;
  events = d.events;
}

-- `_atomic_write_new` of `entry.json`.
abbrev pub write_entry :
    EntryDirectory → List ℕ → Option (List ℕ) → Result Failure (EntryDirectory × Bool)
write_entry d payload none = ok (with_entry d payload, true)
write_entry d payload (some existing) =
    if same_bytes existing payload
    then ok (d, false)
    else err (artifact_error registry_transition_invalid)

abbrev pub registration : ModelArtifact → RegistryEvidence
registration artifact = record {
  artifact_manifest_sha256 = artifact.manifest_sha256;
  assessment_manifest_sha256 = none;
  rejection_reason = none;
}

abbrev pub finish :
    Hashing → EntryDirectory → Bool → Result Failure (EntryDirectory × Bool) → Change
finish h d wrote_entry (err failure) = (d, err failure)
finish h d wrote_entry (ok (after, wrote_event)) =
    (after, result_of (wrote_entry || wrote_event) (load_registry_entry h after))

abbrev pub register_event :
    Hashing → EntryDirectory → Bool → Result ArtifactFailureCode RegistryEvent → Change
register_event h d wrote_entry (err code) = (d, err (artifact_error code))
register_event h d wrote_entry (ok e) =
    finish h d wrote_entry (write_new d (event_file h e) d.events)

abbrev pub register_entry :
    Hashing
    → ModelArtifact
    → RegistryEntry
    → EntryDirectory
    → Result Failure (EntryDirectory × Bool)
    → Change
register_entry h artifact entry d (err failure) = (d, err failure)
register_entry h artifact entry d (ok (after, wrote_entry)) =
    register_event h after wrote_entry
      (make_event h entry [] register candidate (registration artifact))

abbrev pub register_at : Hashing → ModelArtifact → EntryDirectory → Option (List ℕ) → Change
register_at h artifact d none = (d, err (artifact_error path_invalid))
register_at h artifact d (some path) =
    let entry = entry_of h artifact path in
    if not (check_entry h entry)
    then (d, err validation_error)
    else register_entry h artifact entry d (write_entry d (h.encode_entry entry) d.entry_json)

abbrev pub register_loaded :
    Hashing → EntryDirectory → Result ArtifactFailureCode ModelArtifact → Change
register_loaded h d (err code) = (d, err (artifact_error code))
register_loaded h d (ok artifact) = register_at h artifact d artifact.relative_path

-- `register_model_artifact`, on the directory of the entry that it computes.
unfoldable pub register_model_artifact :
    Hashing → Result ArtifactFailureCode ModelArtifact → EntryDirectory → Change
register_model_artifact h artifact d = register_loaded h d artifact
