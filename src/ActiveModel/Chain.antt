-- ===== src/ActiveModel/Chain.antt =====
-- src/pl_platform/registry/active_model.py, `_assert_supported_chain`: the one kind of artifact that the
-- program serves. The decimals of the configuration are in thousandths.
use ai_powered_premier_leagu.Prelude.{
  ℕ, ◌==◌, Bool, true, false, not, ◌&&◌, ◌||◌, List, [], ◌∷◌, Result, ok, ◌>>◌,
}
use ai_powered_premier_leagu.Fixtures.{MatchOutcome, home_win, draw, away_win, same_outcome}
use ai_powered_premier_leagu.Registry.{RegistryEntry}
use ai_powered_premier_leagu.ActiveModel.{
  LookupFailure, failed_at, provenance_mismatch, schema_incompatible, unsupported_model_component,
}
use Prim.Native.String.{String}
use text.Mathlib.Text

pub record PredictorSchema : Type 0 where
  pub id : String
  pub version : ℕ
  pub predictor_count : ℕ
  pub predictor_names : List String
  pub predictor_names_sha256 : ℕ

-- The classifier's configuration and the policies beside it.
pub record ModelSpecification : Type 0 where
  pub family : String
  pub configuration_id : String
  pub iterations : ℕ
  pub depth : ℕ
  pub learning_rate : ℕ
  pub l2_leaf_reg : ℕ
  pub fitted_state : String
  pub calibration_strategy : String
  pub score_model_status : String
  pub scoreline_capability : Bool

pub record ArtifactComponent : Type 0 where
  pub role : String
  pub relative_path : String

-- What is read of the manifest, the preprocessor and the classifier.
pub record LoadedModelArtifact : Type 0 where
  pub model_id : ℕ
  pub artifact_id : ℕ
  pub manifest_id : ℕ
  pub outcome_order : List MatchOutcome
  pub predictor_schema : PredictorSchema
  pub model : ModelSpecification
  pub produces_scorelines : Bool
  pub components : List ArtifactComponent
  pub preprocessor_names : List String
  pub preprocessor_names_sha256 : ℕ
  pub classifier_names : List String

abbrev pub same_order : List MatchOutcome → List MatchOutcome → Bool
same_order [] [] = true
same_order [] (b ∷ bs) = false
same_order (a ∷ rest) [] = false
same_order (a ∷ rest) (b ∷ bs) = same_outcome a b && same_order rest bs

abbrev pub same_names : List String → List String → Bool
same_names [] [] = true
same_names [] (b ∷ bs) = false
same_names (a ∷ rest) [] = false
same_names (a ∷ rest) (b ∷ bs) = Text.◌==◌ a b && same_names rest bs

abbrev pub same_components : List ArtifactComponent → List ArtifactComponent → Bool
same_components [] [] = true
same_components [] (b ∷ bs) = false
same_components (a ∷ rest) [] = false
same_components (a ∷ rest) (b ∷ bs) =
    Text.◌==◌ a.role b.role && Text.◌==◌ a.relative_path b.relative_path && same_components rest bs

-- PREPROCESSOR_COMPONENT_PATH and CLASSIFIER_COMPONENT_PATH, with their roles.
abbrev pub expected_components : List ArtifactComponent
expected_components =
    record { role = "preprocessor"; relative_path = "components/preprocessor.json" }
    ∷ record { role = "classifier"; relative_path = "components/classifier.json" }
    ∷ []

abbrev pub other_identity : RegistryEntry → LoadedModelArtifact → Bool
other_identity entry a =
    not (a.model_id == entry.model_id)
    || not (a.artifact_id == entry.artifact_id)
    || not (a.manifest_id == entry.artifact_manifest_id)

abbrev pub other_schema : LoadedModelArtifact → PredictorSchema → Bool
other_schema a schema =
    not (Text.◌==◌ schema.id "epl-pre-match")
    || not (schema.version == 2)
    || not (schema.predictor_count == 175)
    || not (same_names a.preprocessor_names schema.predictor_names)
    || not (a.preprocessor_names_sha256 == schema.predictor_names_sha256)
    || not (same_names a.classifier_names schema.predictor_names)

abbrev pub other_model : LoadedModelArtifact → ModelSpecification → Bool
other_model a m =
    not (Text.◌==◌ m.family "catboost_multiclass")
    || not (Text.◌==◌ m.configuration_id "catboost-depth6-regularized")
    || not (m.iterations == 200)
    || not (m.depth == 6)
    || not (m.learning_rate == 50)
    || not (m.l2_leaf_reg == 10000)
    || not (Text.◌==◌ m.fitted_state "none")
    || not (Text.◌==◌ m.calibration_strategy "identity")
    || not (Text.◌==◌ m.score_model_status "not_included")
    || m.scoreline_capability
    || a.produces_scorelines
    || not (same_components a.components expected_components)

-- A `raise` under a test.
abbrev pub reject_if : Bool → Result LookupFailure (Unit {0}) → Result LookupFailure (Unit {0})
reject_if false raised = ok tt
reject_if true raised = raised

unfoldable pub assert_supported_chain :
    RegistryEntry → LoadedModelArtifact → Result LookupFailure (Unit {0})
assert_supported_chain entry a =
    reject_if (other_identity entry a) (failed_at provenance_mismatch entry)
    >> reject_if (not (same_order a.outcome_order (home_win ∷ draw ∷ away_win ∷ [])))
        (failed_at schema_incompatible entry)
    >> reject_if (other_schema a a.predictor_schema) (failed_at schema_incompatible entry)
    >> reject_if (other_model a a.model) (failed_at unsupported_model_component entry)
