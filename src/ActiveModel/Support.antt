-- ===== src/ActiveModel/Support.antt =====
-- src/pl_platform/registry/active_model.py, `_assert_supported_chain`: the artifacts that it lets through.
use ai_powered_premier_leagu.Prelude.{
  ℕ, ◌==◌, ◌≡◌, refl, ap₂, Bool, true, false, not, List, [], ◌∷◌, ok, err, ◌>>◌, ==→eq, arith,
}
use ai_powered_premier_leagu.Fixtures.{MatchOutcome, home_win, draw, away_win, same_outcome}
use ai_powered_premier_leagu.Registry.{RegistryEntry}
use ai_powered_premier_leagu.ActiveModel.{LookupFailure}
use ai_powered_premier_leagu.ActiveModel.Chain.{
  LoadedModelArtifact, ModelSpecification, ArtifactComponent, same_order, same_names,
  same_components, expected_components, other_identity, other_schema, other_model, reject_if,
  assert_supported_chain,
}
use Prim.Native.String.{String}
use text.Mathlib.Text
use text.Mathlib.TextEquality.{eq_iff}

-- The one specification that is served.
abbrev pub served_model : ModelSpecification
served_model = record {
  family = "catboost_multiclass";
  configuration_id = "catboost-depth6-regularized";
  iterations = 200;
  depth = 6;
  learning_rate = 50;
  l2_leaf_reg = 10000;
  fitted_state = "none";
  calibration_strategy = "identity";
  score_model_status = "not_included";
  scoreline_capability = false;
}

abbrev pub served_order : List MatchOutcome
served_order = home_win ∷ draw ∷ away_win ∷ []

-- An artifact that is of the entry, for the pre-match schema of 175 predictors, whose preprocessor
-- and classifier name those predictors, and with the one specification.
pub record IsSupported (entry : RegistryEntry) (a : LoadedModelArtifact) : Type 0 where
  pub model_same : a.model_id ≡ entry.model_id
  pub artifact_same : a.artifact_id ≡ entry.artifact_id
  pub manifest_same : a.manifest_id ≡ entry.artifact_manifest_id
  pub in_order : a.outcome_order ≡ served_order
  pub schema_id : a.predictor_schema.id ≡ "epl-pre-match"
  pub schema_version : a.predictor_schema.version ≡ 2
  pub predictor_count : a.predictor_schema.predictor_count ≡ 175
  pub preprocessor_names : a.preprocessor_names ≡ a.predictor_schema.predictor_names
  pub preprocessor_digest : a.preprocessor_names_sha256 ≡ a.predictor_schema.predictor_names_sha256
  pub classifier_names : a.classifier_names ≡ a.predictor_schema.predictor_names
  pub served : a.model ≡ served_model
  pub without_scorelines : a.produces_scorelines ≡ false
  pub with_components : a.components ≡ expected_components

text→eq : (s t : String) → Text.◌==◌ s t ≡ true → s ≡ t
text→eq s t same = (eq_iff s t).0 same

text_refl : (s : String) → Text.◌==◌ s s ≡ true
text_refl s = (eq_iff s s).1 refl

==-refl : (n : ℕ) → (n == n) ≡ true
==-refl n = ground arith

same_outcome→eq : (a b : MatchOutcome) → same_outcome a b ≡ true → a ≡ b
same_outcome→eq home_win b same = ground arith
same_outcome→eq draw b same = ground arith
same_outcome→eq away_win b same = ground arith

same_order→eq : (xs ys : List MatchOutcome) → same_order xs ys ≡ true → xs ≡ ys
same_order→eq [] [] same = refl
same_order→eq [] (y ∷ ys) same = cc
same_order→eq (x ∷ xs) [] same = cc
same_order→eq (x ∷ xs) (y ∷ ys) same =
    ap₂ ◌∷◌ (same_outcome→eq x y (ground arith)) (same_order→eq xs ys (ground arith))

same_names→eq : (xs ys : List String) → same_names xs ys ≡ true → xs ≡ ys
same_names→eq [] [] same = refl
same_names→eq [] (y ∷ ys) same = cc
same_names→eq (x ∷ xs) [] same = cc
same_names→eq (x ∷ xs) (y ∷ ys) same =
    ap₂ ◌∷◌ (text→eq x y (ground arith)) (same_names→eq xs ys (ground arith))

same_names_refl : (xs : List String) → same_names xs xs ≡ true
same_names_refl [] = refl
same_names_refl (x ∷ xs) = rw (text_refl x, same_names_refl xs) refl

component_eq :
    (a b : ArtifactComponent) → a.role ≡ b.role → a.relative_path ≡ b.relative_path → a ≡ b
component_eq a b role path = ap₂ (λ r p. record { role = r; relative_path = p }) role path

same_components→eq : (xs ys : List ArtifactComponent) → same_components xs ys ≡ true → xs ≡ ys
same_components→eq [] [] same = refl
same_components→eq [] (y ∷ ys) same = cc
same_components→eq (x ∷ xs) [] same = cc
same_components→eq (x ∷ xs) (y ∷ ys) same =
    ap₂ ◌∷◌
      (component_eq x y (text→eq x.role y.role (ground arith))
        (text→eq x.relative_path y.relative_path (ground arith)))
      (same_components→eq xs ys (ground arith))

four_rejections :
    (a b c d : Bool) (x y z w : LookupFailure)
    → (reject_if a (err x) >> reject_if b (err y) >> reject_if c (err z) >> reject_if d (err w))
      ≡ ok tt
    → (a ≡ false) × (b ≡ false) × (c ≡ false) × (d ≡ false)
four_rejections true b c d x y z w passed = cc
four_rejections false true c d x y z w passed = cc
four_rejections false false true d x y z w passed = cc
four_rejections false false false true x y z w passed = cc
four_rejections false false false false x y z w passed = (refl, refl, refl, refl)

module _ (a : LoadedModelArtifact) (m : ModelSpecification) (served : other_model a m ≡ false) where
  other_model-served : m ≡ served_model
  other_model-served =
      let family = text→eq m.family served_model.family (ground arith) in
      let configuration = text→eq m.configuration_id served_model.configuration_id (ground arith) in
      let iterations = ==→eq m.iterations 200 (ground arith) in
      let depth = ==→eq m.depth 6 (ground arith) in
      let rate = ==→eq m.learning_rate 50 (ground arith) in
      let leaf = ==→eq m.l2_leaf_reg 10000 (ground arith) in
      let fitted = text→eq m.fitted_state served_model.fitted_state (ground arith) in
      let calibration =
        text→eq m.calibration_strategy served_model.calibration_strategy (ground arith) in
      let score = text→eq m.score_model_status served_model.score_model_status (ground arith) in
      let capability : m.scoreline_capability ≡ false = ground arith in
      λ i. record {
        family = family i;
        configuration_id = configuration i;
        iterations = iterations i;
        depth = depth i;
        learning_rate = rate i;
        l2_leaf_reg = leaf i;
        fitted_state = fitted i;
        calibration_strategy = calibration i;
        score_model_status = score i;
        scoreline_capability = capability i;
      }

  other_model-rest : (a.produces_scorelines ≡ false) × (a.components ≡ expected_components)
  other_model-rest =
      (ground arith, same_components→eq a.components expected_components (ground arith))

pub assert_supported_chain-IsSupported :
    (entry : RegistryEntry) (a : LoadedModelArtifact)
    → assert_supported_chain entry a ≡ ok tt
    → IsSupported entry a
unfolding assert_supported_chain
assert_supported_chain-IsSupported entry a passed =
    let tests =
      four_rejections (other_identity entry a) (not (same_order a.outcome_order served_order))
        (other_schema a a.predictor_schema) (other_model a a.model) _ _ _ _ passed in
    let same = tests.0 in
    let ordered = tests.1 in
    let schema_same = tests.2 in
    let served = tests.3 in
    let names = a.predictor_schema.predictor_names in
    record {
      model_same = ==→eq a.model_id entry.model_id (ground arith);
      artifact_same = ==→eq a.artifact_id entry.artifact_id (ground arith);
      manifest_same = ==→eq a.manifest_id entry.artifact_manifest_id (ground arith);
      in_order = same_order→eq a.outcome_order served_order (ground arith);
      schema_id = text→eq a.predictor_schema.id "epl-pre-match" (ground arith);
      schema_version = ==→eq a.predictor_schema.version 2 (ground arith);
      predictor_count = ==→eq a.predictor_schema.predictor_count 175 (ground arith);
      preprocessor_names = same_names→eq a.preprocessor_names names (ground arith);
      preprocessor_digest =
          ==→eq a.preprocessor_names_sha256 a.predictor_schema.predictor_names_sha256
            (ground arith);
      classifier_names = same_names→eq a.classifier_names names (ground arith);
      served = other_model-served a a.model served;
      without_scorelines = (other_model-rest a a.model served).0;
      with_components = (other_model-rest a a.model served).1;
    }

pub IsSupported-passes :
    (entry : RegistryEntry) (a : LoadedModelArtifact)
    → IsSupported entry a
    → assert_supported_chain entry a ≡ ok tt
unfolding assert_supported_chain
IsSupported-passes entry a s =
    rw
      (
        s.model_same,
        s.artifact_same,
        s.manifest_same,
        s.in_order,
        s.schema_id,
        s.schema_version,
        s.predictor_count,
        s.preprocessor_names,
        s.preprocessor_digest,
        s.classifier_names,
        s.served,
        s.without_scorelines,
        s.with_components,
        ==-refl entry.model_id,
        ==-refl entry.artifact_id,
        ==-refl entry.artifact_manifest_id,
        ==-refl a.predictor_schema.predictor_names_sha256,
        same_names_refl a.predictor_schema.predictor_names,
      )
      refl
