-- ===== src/ActiveModel/Tests.antt =====
-- A history source that promises an active model, and a registry of one candidate.
use ai_powered_premier_leagu.Prelude.{
  ◌≡◌, ◌↔◌, refl, true, false, none, some, [], ◌∷◌, filter, ok, err,
}
use ai_powered_premier_leagu.Registry.{
  RegistryEntry, check_event, check_transition, active, next_event, register, candidate,
}
use ai_powered_premier_leagu.Registry.Store.{
  directory, load_registry_entry, load_events, check_entry, breaks_chain,
}
use ai_powered_premier_leagu.Registry.Changes.{event_file}
use ai_powered_premier_leagu.Registry.Tests.Codec.{codec}
use ai_powered_premier_leagu.ActiveModel.{
  VerifiedRegistryEntry, load_error, no_active_model, ambiguous_active_models, schema_incompatible,
}
use ai_powered_premier_leagu.ActiveModel.History.{EntryPath, RegistryRoot, load_entries, load_path}
use ai_powered_premier_leagu.ActiveModel.Chain.{
  LoadedModelArtifact, expected_components, assert_supported_chain,
}
use ai_powered_premier_leagu.ActiveModel.Support.{served_model, served_order}
use ai_powered_premier_leagu.ActiveModel.Lookup.{
  ArtifactRoot, LoadedActiveModel, is_active, load_current_active_model,
  verify_registry_artifact_link,
}
use ai_powered_premier_leagu.ActiveModel.Loaded.{IsVerified, load_current_active_model_iff}
use ai_powered_premier_leagu.ActiveModel.Closed.{
  HasNoActive, lookup_error, load_current_active_model-closed,
}

-- The manifest has three bytes, and so the digest 3.
abbrev entry : RegistryEntry
entry = record {
  entry_id = 8;
  model_id = 3;
  artifact_id = 5;
  artifact_manifest_id = 6;
  artifact_manifest_relative_path = 7 ∷ [];
  artifact_manifest_sha256 = 3;
}

abbrev head : VerifiedRegistryEntry
head = record {
  entry = entry;
  state = active;
  event_count = 3;
  head_event_id = 11;
  head_event_sha256 = 4;
}

abbrev waiting : VerifiedRegistryEntry
waiting = record head { state = candidate }

abbrev artifact : LoadedModelArtifact
artifact = record {
  model_id = 3;
  artifact_id = 5;
  manifest_id = 6;
  outcome_order = served_order;
  predictor_schema = record {
    id = "epl-pre-match";
    version = 2;
    predictor_count = 175;
    predictor_names = "home_elo" ∷ "away_elo" ∷ [];
    predictor_names_sha256 = 9;
  };
  model = served_model;
  produces_scorelines = false;
  components = expected_components;
  preprocessor_names = "home_elo" ∷ "away_elo" ∷ [];
  preprocessor_names_sha256 = 9;
  classifier_names = "home_elo" ∷ "away_elo" ∷ [];
}

abbrev root : ArtifactRoot
root = record {
  escapes = λ path. false;
  has_symlink = λ path. false;
  is_file = λ path. true;
  bytes_before = λ path. some (1 ∷ 2 ∷ 3 ∷ []);
  load_model_artifact = λ path. ok artifact;
  bytes_after = λ path. some (1 ∷ 2 ∷ 3 ∷ []);
}

abbrev model : LoadedActiveModel
model = record { registry = head; artifact = artifact }

served : load_current_active_model codec root (ok (waiting ∷ head ∷ [])) ≡ ok model
unfolding load_current_active_model verify_registry_artifact_link assert_supported_chain
served = refl

two_active :
    load_current_active_model codec root (ok (head ∷ head ∷ []))
    ≡ err (load_error (record { code = ambiguous_active_models; entry_id = none }))
unfolding load_current_active_model
two_active = refl

-- A preprocessor that names the predictors in another order is refused.
other_order :
    assert_supported_chain entry
      (record artifact { preprocessor_names = "away_elo" ∷ "home_elo" ∷ [] })
    ≡ err (load_error (record { code = schema_incompatible; entry_id = some 8 }))
unfolding assert_supported_chain
other_order = refl

load_current_active_model_iff_example :
    (load_current_active_model codec root (ok (waiting ∷ head ∷ [])) ≡ ok model) ↔ (
      (filter is_active (waiting ∷ head ∷ []) ≡ head ∷ [])
      × IsVerified codec root entry (7 ∷ []) artifact)
load_current_active_model_iff_example =
    load_current_active_model_iff codec root (waiting ∷ head ∷ []) model

abbrev registration_path : EntryPath
registration_path = record {
  name = 1;
  is_ordinary = true;
  directory_id = some 8;
  is_canonical = true;
  contents = record {
    entry_json = some (codec.encode_entry entry);
    unexpected_children = 0;
    events = directory (
        event_file codec (
          next_event codec entry [] register candidate (record {
            artifact_manifest_sha256 = 3;
            assessment_manifest_sha256 = none;
            rejection_reason = none;
          }))
        ∷ []);
  };
}

abbrev registry : RegistryRoot
registry = record {
  is_there = true;
  is_symlink = false;
  root = record { is_ordinary = true; children = some (1 ∷ []) };
  version = record { is_ordinary = true; children = some (2 ∷ []) };
  entries = true;
  entry_paths = registration_path ∷ [];
}

load_current_active_model-closed_example :
    let source = load_entries codec registry in
    (load_current_active_model codec root source ≡ err (lookup_error source))
    × HasNoActive (lookup_error source)
load_current_active_model-closed_example = load_current_active_model-closed codec root registry

-- The candidate's history verifies, and it is not active.
candidate_found :
    load_current_active_model codec root (load_entries codec registry)
    ≡ err (load_error (record { code = no_active_model; entry_id = none }))
unfolding load_entries load_path load_registry_entry load_events check_entry breaks_chain
    check_event check_transition load_current_active_model
candidate_found = refl
