-- ===== src/Registry/Changes.antt =====
-- The operations that append to a registry history. A change gives the directory it leaves behind
-- and its result or the exception. `load_model_artifact` is an argument.
use ai_powered_premier_leagu.Prelude.{
  ℕ, ◌==◌, Bool, true, false, ◌||◌, not, Option, none, some, List, [], ◌∷◌, length, Result, ok, err,
  ◌>>=◌, if◌then◌else◌,
}
use ai_powered_premier_leagu.Registry.{
  RegistryState, RegistryEntry, RegistryEvent, RegistryEvidence, Hashing, ArtifactFailureCode,
  development_accepted, active, rejected, accept_development, activate, reject,
  registry_transition_invalid, provenance_mismatch, state_rank, make_event, is_blank,
}
use ai_powered_premier_leagu.Registry.Store.{
  File, EventDirectory, missing, not_a_directory, directory, EntryDirectory, LoadedRegistryEntry,
  same_bytes, load_registry_entry,
}

-- A ModelArtifactError, the OSError of a path in the way, and pydantic's ValidationError.
pub data Failure : Type 0 where
  artifact_error : ArtifactFailureCode → Failure
  os_error : Failure
  validation_error : Failure

pub record RegistryMutationResult : Type 0 where
  pub entry_id : ℕ
  pub artifact_id : ℕ
  pub state : RegistryState
  pub event_count : ℕ
  pub is_written : Bool

-- What the operations read of a verified artifact, and the digest of its manifest's bytes.
pub record Artifact : Type 0 where
  pub manifest_sha256 : ℕ
  pub artifact_id : ℕ
  pub model_id : ℕ
  pub assessment_manifest_sha256 : ℕ

abbrev pub payload_at : ℕ → List File → Option (List ℕ)
payload_at name [] = none
payload_at name (file ∷ files) =
    if name == file.name then some file.payload else payload_at name files

abbrev pub event_file : Hashing → RegistryEvent → File
event_file h e = record {
  name = h.event_file_name e.sequence e.event_id;
  is_json = true;
  payload = h.encode e;
}

abbrev pub with_file : EntryDirectory → File → List File → EntryDirectory
with_file d file files = record {
  entry_json = d.entry_json;
  unexpected_children = d.unexpected_children;
  events = directory (file ∷ files);
}

abbrev pub write_over :
    EntryDirectory → File → List File → Option (List ℕ) → Result Failure (EntryDirectory × Bool)
write_over d file files none = ok (with_file d file files, true)
write_over d file files (some payload) =
    if same_bytes payload file.payload
    then ok (d, false)
    else err (artifact_error registry_transition_invalid)

-- `_atomic_write_new` of an event's bytes at its path.
abbrev pub write_new :
    EntryDirectory → File → EventDirectory → Result Failure (EntryDirectory × Bool)
write_new d file missing = ok (with_file d file [], true)
write_new d file not_a_directory = err os_error
write_new d file (directory files) = write_over d file files (payload_at file.name files)

abbrev pub result_of :
    Bool → Result ArtifactFailureCode LoadedRegistryEntry → Result Failure RegistryMutationResult
result_of wrote (err code) = err (artifact_error code)
result_of wrote (ok loaded) = ok (record {
  entry_id = loaded.entry.entry_id;
  artifact_id = loaded.entry.artifact_id;
  state = loaded.state;
  event_count = length loaded.events;
  is_written = wrote;
})

abbrev pub Change : Type 0
Change = EntryDirectory × Result Failure RegistryMutationResult

abbrev pub reloaded : Hashing → EntryDirectory → Result Failure (EntryDirectory × Bool) → Change
reloaded h d (err failure) = (d, err failure)
reloaded h d (ok (after, wrote)) = (after, result_of wrote (load_registry_entry h after))

-- The event is written, and the history is read again.
abbrev pub append_event :
    Hashing → EntryDirectory → Result ArtifactFailureCode RegistryEvent → Change
append_event h d (err code) = (d, err (artifact_error code))
append_event h d (ok e) = reloaded h d (write_new d (event_file h e) d.events)

abbrev pub rejection : LoadedRegistryEntry → List ℕ → RegistryEvidence
rejection loaded reason = record {
  artifact_manifest_sha256 = loaded.entry.artifact_manifest_sha256;
  assessment_manifest_sha256 = none;
  rejection_reason = some reason;
}

abbrev pub reject_loaded :
    Hashing → EntryDirectory → List ℕ → Result ArtifactFailureCode LoadedRegistryEntry → Change
reject_loaded h d reason (err code) = (d, err (artifact_error code))
reject_loaded h d reason (ok loaded) =
    if is_blank reason
    then (d, err validation_error)
    else append_event h d
        (make_event h loaded.entry loaded.events reject rejected (rejection loaded reason))

unfoldable pub reject_registry_entry : Hashing → EntryDirectory → List ℕ → Change
reject_registry_entry h d reason = reject_loaded h d reason (load_registry_entry h d)

abbrev pub acceptance : LoadedRegistryEntry → Artifact → RegistryEvidence
acceptance loaded artifact = record {
  artifact_manifest_sha256 = loaded.entry.artifact_manifest_sha256;
  assessment_manifest_sha256 = some artifact.assessment_manifest_sha256;
  rejection_reason = none;
}

abbrev pub mismatches : RegistryEntry → Artifact → Bool
mismatches entry artifact =
    not (artifact.manifest_sha256 == entry.artifact_manifest_sha256)
    || not (artifact.artifact_id == entry.artifact_id)
    || not (artifact.model_id == entry.model_id)

abbrev pub accept_artifact :
    Hashing → EntryDirectory → LoadedRegistryEntry → Result ArtifactFailureCode Artifact → Change
accept_artifact h d loaded (err code) = (d, err (artifact_error code))
accept_artifact h d loaded (ok artifact) =
    if mismatches loaded.entry artifact
    then (d, err (artifact_error provenance_mismatch))
    else append_event h d (
        make_event h loaded.entry loaded.events accept_development development_accepted
          (acceptance loaded artifact))

abbrev pub is_accepted : RegistryState → Bool
is_accepted state = state_rank state == state_rank development_accepted

abbrev pub accept_loaded :
    Hashing
    → (List ℕ → Result ArtifactFailureCode Artifact)
    → EntryDirectory
    → Result ArtifactFailureCode LoadedRegistryEntry
    → Change
accept_loaded h load_model_artifact d (err code) = (d, err (artifact_error code))
accept_loaded h load_model_artifact d (ok loaded) =
    if is_accepted loaded.state
    then (d, result_of false (ok loaded))
    else accept_artifact h d loaded
        (load_model_artifact loaded.entry.artifact_manifest_relative_path)

unfoldable pub accept_development_candidate :
    Hashing → (List ℕ → Result ArtifactFailureCode Artifact) → EntryDirectory → Change
accept_development_candidate h load_model_artifact d =
    accept_loaded h load_model_artifact d (load_registry_entry h d)

abbrev pub promotion : LoadedRegistryEntry → RegistryEvidence
promotion loaded = record {
  artifact_manifest_sha256 = loaded.entry.artifact_manifest_sha256;
  assessment_manifest_sha256 = none;
  rejection_reason = none;
}

unfoldable pub request_active_promotion :
    Hashing → EntryDirectory → Result ArtifactFailureCode (Unit {0})
request_active_promotion h d = do
  loaded ← load_registry_entry h d
  _ ← make_event h loaded.entry loaded.events activate active (promotion loaded)
  ok tt
