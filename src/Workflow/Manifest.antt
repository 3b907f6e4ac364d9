-- ===== src/Workflow/Manifest.antt =====
-- src/pl_platform/prediction/workflow.py: the manifest of a workflow and the payload that is pinned by it,
-- as `compose_post_match_workflow` makes them. Sorting UUIDs by their text is sorting them.
use ai_powered_premier_leagu.Prelude.{
  ℕ, ◌==◌, Bool, true, false, not, ◌&&◌, ◌||◌, List, [], ◌∷◌, map, any, unique, sort, sort_by,
  Result, ok, ◌>>◌, raise_if,
}
use ai_powered_premier_leagu.Workflow.Journal.{is_changed}
use ai_powered_premier_leagu.Workflow.{
  PostMatchWorkflow, WorkflowChildReference, Identities, WorkflowFailure, workflow_error,
  other_exception, payload_mismatch,
}

-- The parts of the children that the workflow reads.
pub record CompletedPredictionEvaluation : Type 0 where
  pub id : ℕ
  pub identity_sha256 : ℕ
  pub season_id : ℕ

-- `applied` are the identifiers of the evaluations in its applied results.
pub record TeamStateAdvancement : Type 0 where
  pub id : ℕ
  pub identity_sha256 : ℕ
  pub season_id : ℕ
  pub applied : List ℕ

pub record PredictionRegeneration : Type 0 where
  pub id : ℕ
  pub identity_sha256 : ℕ
  pub season_id : ℕ
  pub advancement_id : ℕ

pub record SimulationRegeneration : Type 0 where
  pub id : ℕ
  pub identity_sha256 : ℕ
  pub season_id : ℕ
  pub advancement_id : ℕ

pub record PostMatchWorkflowPayload : Type 0 where
  pub workflow : PostMatchWorkflow
  pub evaluations : List CompletedPredictionEvaluation
  pub advancement : TeamStateAdvancement
  pub prediction_regenerations : List PredictionRegeneration
  pub simulation : SimulationRegeneration

abbrev pub sealed_season : ℕ
sealed_season = 20252026

abbrev pub reference : ℕ → ℕ → WorkflowChildReference
reference id digest = record { id = id; identity_sha256 = digest }

abbrev pub evaluation_reference : CompletedPredictionEvaluation → WorkflowChildReference
evaluation_reference e = reference e.id e.identity_sha256

abbrev pub regeneration_reference : PredictionRegeneration → WorkflowChildReference
regeneration_reference r = reference r.id r.identity_sha256

abbrev pub same_reference : WorkflowChildReference → WorkflowChildReference → Bool
same_reference a b = a.id == b.id && a.identity_sha256 == b.identity_sha256

-- `==` on tuples, from that on their items.
abbrev pub same_all : {A : Type 0} → (A → A → Bool) → List A → List A → Bool
same_all same [] [] = true
same_all same [] (b ∷ bs) = false
same_all same (a ∷ rest) [] = false
same_all same (a ∷ rest) (b ∷ bs) = same a b && same_all same rest bs

abbrev pub same_references : List WorkflowChildReference → List WorkflowChildReference → Bool
same_references = same_all same_reference

abbrev pub same_evaluation : CompletedPredictionEvaluation → CompletedPredictionEvaluation → Bool
same_evaluation a b =
    a.id == b.id && a.identity_sha256 == b.identity_sha256 && a.season_id == b.season_id

abbrev pub same_regeneration : PredictionRegeneration → PredictionRegeneration → Bool
same_regeneration a b =
    a.id == b.id
    && a.identity_sha256 == b.identity_sha256
    && a.season_id == b.season_id
    && a.advancement_id == b.advancement_id

abbrev pub evaluation_id : CompletedPredictionEvaluation → ℕ
evaluation_id e = e.id

abbrev pub regeneration_id : PredictionRegeneration → ℕ
regeneration_id r = r.id

abbrev pub reference_id : WorkflowChildReference → ℕ
reference_id r = r.id

abbrev pub is_without : List WorkflowChildReference → Bool
is_without [] = true
is_without (r ∷ rs) = false

-- The two tests on a set of references.
abbrev pub is_disordered : List WorkflowChildReference → Bool
is_disordered values =
    not (same_references values (sort_by reference_id values))
    || not (unique (map reference_id values))

-- `manifest_is_canonical`
unfoldable pub check_manifest : Identities → PostMatchWorkflow → Result WorkflowFailure (Unit {0})
check_manifest h w =
    raise_if
      (w.season_id == sealed_season
        || is_without w.evaluations
        || is_disordered w.evaluations
        || is_disordered w.prediction_regenerations
        || is_changed h w)
      other_exception

-- Whether a test of `__post_init__` fails; the children are in the order of their identifiers.
abbrev pub is_mismatched :
    PostMatchWorkflowPayload
    → List CompletedPredictionEvaluation
    → List PredictionRegeneration
    → Bool
is_mismatched p evaluations predictions =
    not (same_all same_evaluation evaluations p.evaluations)
    || not (same_all same_regeneration predictions p.prediction_regenerations)
    || not (same_references (map evaluation_reference evaluations) p.workflow.evaluations)
    || not (
        same_reference (reference p.advancement.id p.advancement.identity_sha256)
          p.workflow.advancement)
    || not (
        same_references (map regeneration_reference predictions)
          p.workflow.prediction_regenerations)
    || not (
        same_reference (reference p.simulation.id p.simulation.identity_sha256)
          p.workflow.simulation_regeneration)
    || not (same_all ◌==◌ (sort p.advancement.applied) (sort (map evaluation_id evaluations)))
    || not (p.advancement.season_id == p.workflow.season_id)
    || any (λ e. not (e.season_id == p.workflow.season_id)) evaluations
    || any (λ r. not (r.season_id == p.workflow.season_id)) predictions
    || any (λ r. not (r.advancement_id == p.advancement.id)) predictions
    || not (p.simulation.advancement_id == p.advancement.id)
    || not (p.simulation.season_id == p.workflow.season_id)

-- `__post_init__`
unfoldable pub check_payload : PostMatchWorkflowPayload → Result WorkflowFailure (Unit {0})
check_payload p =
    raise_if
      (is_mismatched p (sort_by evaluation_id p.evaluations)
        (sort_by regeneration_id p.prediction_regenerations))
      (workflow_error payload_mismatch)

abbrev pub composed_workflow :
    Identities
    → List CompletedPredictionEvaluation
    → TeamStateAdvancement
    → List PredictionRegeneration
    → SimulationRegeneration
    → PostMatchWorkflow
composed_workflow h evaluations advancement predictions simulation =
    let evaluation_refs = map evaluation_reference evaluations in
    let prediction_refs = map regeneration_reference predictions in
    let advancement_ref = reference advancement.id advancement.identity_sha256 in
    let simulation_ref = reference simulation.id simulation.identity_sha256 in
    record {
      id =
          h.workflow_uuid advancement.season_id evaluation_refs advancement_ref prediction_refs
            simulation_ref;
      identity_sha256 =
          h.workflow_sha256 advancement.season_id evaluation_refs advancement_ref prediction_refs
            simulation_ref;
      season_id = advancement.season_id;
      evaluations = evaluation_refs;
      advancement = advancement_ref;
      prediction_regenerations = prediction_refs;
      simulation_regeneration = simulation_ref;
    }

-- The payload of children in the order of their identifiers.
abbrev pub composed :
    Identities
    → List CompletedPredictionEvaluation
    → TeamStateAdvancement
    → List PredictionRegeneration
    → SimulationRegeneration
    → PostMatchWorkflowPayload
composed h evaluations advancement predictions simulation = record {
  workflow = composed_workflow h evaluations advancement predictions simulation;
  evaluations = evaluations;
  advancement = advancement;
  prediction_regenerations = predictions;
  simulation = simulation;
}

-- `compose_post_match_workflow`
unfoldable pub compose_post_match_workflow :
    Identities
    → List CompletedPredictionEvaluation
    → TeamStateAdvancement
    → List PredictionRegeneration
    → SimulationRegeneration
    → Result WorkflowFailure PostMatchWorkflowPayload
compose_post_match_workflow h evaluations advancement predictions simulation =
    let payload =
      composed h (sort_by evaluation_id evaluations) advancement
        (sort_by regeneration_id predictions) simulation in
    check_manifest h payload.workflow >> check_payload payload >> ok payload
