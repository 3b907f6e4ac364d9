-- ===== src/Registry/Tests.antt =====
-- The history of one entry: registered, accepted, rejected.
pub mod Codec
use ai_powered_premier_leagu.Prelude.{
  ℕ, false, zero, suc, ◌+◌, ◌≡◌, ◌≢◌, ◌≤◌, refl, true, Option, none, some, List, [], ◌∷◌, Result,
  ok, err, length, inl,
}
use ai_powered_premier_leagu.Registry.{
  RegistryState, RegistryAction, RegistryEntry, RegistryEvent, Hashing, candidate,
  development_accepted, active, retired, rejected, register, accept_development, activate, retire,
  reject, check_event, check_transition, make_event, next_event, registry_transition_invalid,
  ArtifactFailureCode,
}
use ai_powered_premier_leagu.Registry.Store.{
  EntryDirectory, LoadedRegistryEntry, directory, load_registry_entry, load_events, check_entry,
  breaks_chain,
}
use ai_powered_premier_leagu.Registry.Changes.{
  Artifact, event_file, reject_registry_entry, accept_development_candidate,
  request_active_promotion, result_of, artifact_error,
}
use ai_powered_premier_leagu.Registry.Outcomes.{IsFaithful}
use ai_powered_premier_leagu.Registry.States.{load_registry_entry-states}
use ai_powered_premier_leagu.Registry.Decisions.{
  request_active_promotion-closed, refusal, reject_registry_entry-rejects,
  accept_development_candidate-accepts, rejected_by, accepted_by, with_event,
}
use ai_powered_premier_leagu.Registry.Tests.Codec.{codec, codec-IsFaithful, codec-IsEntryFaithful}
use ai_powered_premier_leagu.Registry.Registration.{
  ModelArtifact, register_model_artifact, empty_directory,
}
use ai_powered_premier_leagu.Registry.Registered.{register_model_artifact_twice, opened}

abbrev registered_entry : RegistryEntry
registered_entry = record {
  entry_id = 12;
  model_id = 3;
  artifact_id = 5;
  artifact_manifest_id = 6;
  artifact_manifest_relative_path = 7 ∷ [];
  artifact_manifest_sha256 = 7;
}

abbrev registration : RegistryEvent
registration = next_event codec registered_entry [] register candidate (record {
  artifact_manifest_sha256 = 7;
  assessment_manifest_sha256 = none;
  rejection_reason = none;
})

abbrev folder : EntryDirectory
folder = record {
  entry_json = some (codec.encode_entry registered_entry);
  unexpected_children = 0;
  events = directory (event_file codec registration ∷ []);
}

abbrev registered : LoadedRegistryEntry
registered = record { entry = registered_entry; events = registration ∷ []; state = candidate }

loads : load_registry_entry codec folder ≡ ok registered
unfolding load_registry_entry load_events check_entry breaks_chain check_event check_transition
loads = refl

abbrev artifact : Artifact
artifact = record {
  manifest_sha256 = 7;
  artifact_id = 5;
  model_id = 3;
  assessment_manifest_sha256 = 8;
}

abbrev artifact_at : List ℕ → Result ArtifactFailureCode Artifact
artifact_at path = ok artifact

load_registry_entry-states_example :
    (registered.state ≢ active) × (registered.state ≢ retired) × (length registered.events ≤ 3)
load_registry_entry-states_example = load_registry_entry-states codec folder registered loads

request_active_promotion-closed_example :
    request_active_promotion codec folder ≡ err (refusal (load_registry_entry codec folder))
request_active_promotion-closed_example = request_active_promotion-closed codec folder

reject_registry_entry-rejects_example :
    let change = reject_registry_entry codec folder (65 ∷ []) in
    let history = with_event registered (rejected_by codec registered (65 ∷ [])) in
    (change.1 ≡ result_of true (ok history)) × (load_registry_entry codec change.0 ≡ ok history)
reject_registry_entry-rejects_example =
    reject_registry_entry-rejects codec folder registered (65 ∷ []) codec-IsFaithful loads
      (inl refl) refl

accept_development_candidate-accepts_example :
    let change = accept_development_candidate codec artifact_at folder in
    let history = with_event registered (accepted_by codec registered artifact) in
    (change.1 ≡ result_of true (ok history)) × (load_registry_entry codec change.0 ≡ ok history)
accept_development_candidate-accepts_example =
    accept_development_candidate-accepts codec artifact_at folder registered artifact
      codec-IsFaithful loads refl refl refl

-- A rejected entry is not rejected again.
rejected_once :
    (reject_registry_entry codec (reject_registry_entry codec folder (65 ∷ [])).0 (66 ∷ [])).1
    ≡ err (artifact_error registry_transition_invalid)
unfolding reject_registry_entry load_registry_entry load_events check_entry breaks_chain check_event
    check_transition make_event
rejected_once = refl

abbrev verified : ModelArtifact
verified = record {
  model_id = 3;
  artifact_id = 5;
  manifest_id = 6;
  manifest_sha256 = 7;
  relative_path = some (7 ∷ []);
}

register_model_artifact_twice_example :
    let once = register_model_artifact codec (ok verified) empty_directory in
    let history = opened codec verified (7 ∷ []) in
    (load_registry_entry codec (once.0) ≡ ok history)
    × (once.1 ≡ result_of true (ok history))
    × (register_model_artifact codec (ok verified) (once.0)
        ≡ (once.0, result_of false (ok history)))
register_model_artifact_twice_example =
    register_model_artifact_twice codec verified (7 ∷ []) codec-IsFaithful codec-IsEntryFaithful
      refl refl
