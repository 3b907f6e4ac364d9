-- ===== src/Workflow/Tests.antt =====
-- A workflow of one evaluation, and runs of it that are cut off.
use ai_powered_premier_leagu.Prelude.{
  ℕ, ◌+◌, ◌*◌, ◌≡◌, ◌≤◌, ◌↔◌, refl, false, [], ◌∷◌, ◌++◌, length, ok, arith,
}
use ai_powered_premier_leagu.Workflow.{
  PostMatchWorkflow, PostMatchWorkflowStage, WorkflowChildReference, Identities,
  evaluations_persisted, predictions_regenerated, check_history,
}
use ai_powered_premier_leagu.Workflow.{workflow_error, other_exception, payload_mismatch}
use ai_powered_premier_leagu.Workflow.Manifest.{
  CompletedPredictionEvaluation, TeamStateAdvancement, SimulationRegeneration,
  compose_post_match_workflow, composed, check_manifest, check_payload,
}
use ai_powered_premier_leagu.Workflow.Composed.{
  is_composable, is_consistent, compose_post_match_workflow_lem,
}
use ai_powered_premier_leagu.Prelude.{err, if◌then◌else◌}
use ai_powered_premier_leagu.Workflow.Journal.{is_changed}
use ai_powered_premier_leagu.Workflow.Canonical.{canonical}
use ai_powered_premier_leagu.Workflow.Histories.{check_history_iff}
use ai_powered_premier_leagu.Workflow.Coverage.{IsCovered}
use ai_powered_premier_leagu.Workflow.Checkpoints.{IsSafe, world_at}
use ai_powered_premier_leagu.Workflow.Runner.{
  Weather, starts, undisturbed, after_action, after_append, Fault, finished,
  run_post_match_workflow,
}
use ai_powered_premier_leagu.Workflow.Runs.{run_post_match_workflow-IsSafe}
use ai_powered_premier_leagu.Workflow.Resume.{
  calm, pending, after_runs, IsLeft, run_post_match_workflow-resumes,
}

-- Sums in place of digests.
abbrev identities : Identities
identities = record {
  set_sha256 = λ references. length references + 100;
  workflow_uuid = λ season evaluations advancement predictions simulation. season + advancement.id;
  workflow_sha256 = λ season evaluations advancement predictions simulation. season + simulation.id;
  event_uuid = λ e. e.workflow_id * 10 + e.sequence;
  event_sha256 = λ e. e.stage_lineage_sha256 * 10 + e.sequence;
  object_sha256 = λ w. w.id + 7;
}

abbrev reference : ℕ → WorkflowChildReference
reference n = record { id = n; identity_sha256 = n + 50 }

abbrev workflow : PostMatchWorkflow
workflow = record {
  id = 2002;
  identity_sha256 = 2003;
  season_id = 2000;
  evaluations = reference 1 ∷ [];
  advancement = reference 2;
  prediction_regenerations = [];
  simulation_regeneration = reference 3;
}

workflow_same : is_changed identities workflow ≡ false
unfolding is_changed
workflow_same = refl

abbrev at_predictions : PostMatchWorkflowStage → Fault
at_predictions predictions_regenerated = after_action
at_predictions stage = undisturbed

abbrev at_evaluations : PostMatchWorkflowStage → Fault
at_evaluations evaluations_persisted = after_append
at_evaluations stage = undisturbed

-- The first run is cut off when the evaluations' event is committed, the second one when the
-- predictions are written and their event is not.
abbrev storm : Weather
storm = record { at_start = starts; at_stage = at_predictions }

abbrev squall : Weather
squall = record { at_start = starts; at_stage = at_evaluations }

IsCovered-none : IsCovered 0 []
unfolding IsCovered
IsCovered-none k low high below = absurd (omega arith)

run_post_match_workflow-IsSafe_example :
    IsSafe identities workflow 0
      (run_post_match_workflow identities workflow storm (world_at identities workflow 0 []))
run_post_match_workflow-IsSafe_example =
    run_post_match_workflow-IsSafe identities workflow storm 0 [] workflow_same (omega arith)
      IsCovered-none

check_history_iff_example :
    let events = canonical identities workflow 3 in
    (check_history identities workflow events ≡ ok tt) ↔ (
      (1 ≤ length events)
      × (length events ≤ 6)
      × (events ≡ canonical identities workflow (length events)))
check_history_iff_example = check_history_iff identities workflow (canonical identities workflow 3)

run_post_match_workflow-resumes_example :
    let world = after_runs identities workflow (storm ∷ squall ∷ []) in
    let run = run_post_match_workflow identities workflow calm world in
    (left : IsLeft identities workflow world) × (run ≡ (
      world_at identities workflow 6 (left.performed ++ pending left.count),
      finished (canonical identities workflow 6),
    ))
    × IsCovered 6 (run.0).performed
run_post_match_workflow-resumes_example =
    run_post_match_workflow-resumes identities workflow (storm ∷ squall ∷ []) workflow_same

abbrev evaluation : ℕ → CompletedPredictionEvaluation
evaluation n = record { id = n; identity_sha256 = n + 50; season_id = 20262027 }

abbrev advancement : TeamStateAdvancement
advancement = record { id = 2; identity_sha256 = 52; season_id = 20262027; applied = 4 ∷ 1 ∷ [] }

abbrev simulation : SimulationRegeneration
simulation = record { id = 3; identity_sha256 = 53; season_id = 20262027; advancement_id = 2 }

-- Evaluations that come in another order are sorted.
composed_sorted :
    compose_post_match_workflow identities
      (evaluation 4 ∷ evaluation 1 ∷ [])
      advancement
      []
      simulation
    ≡ ok (composed identities (evaluation 1 ∷ evaluation 4 ∷ []) advancement [] simulation)
unfolding compose_post_match_workflow check_manifest check_payload is_changed
composed_sorted = refl

compose_post_match_workflow_lem_example :
    let evaluations = evaluation 4 ∷ evaluation 1 ∷ [] in
    compose_post_match_workflow identities evaluations advancement [] simulation ≡ (
      if is_composable evaluations advancement []
      then if is_consistent evaluations advancement [] simulation
        then ok (composed identities (evaluation 1 ∷ evaluation 4 ∷ []) advancement [] simulation)
        else err (workflow_error payload_mismatch)
      else err other_exception)
compose_post_match_workflow_lem_example =
    compose_post_match_workflow_lem identities (evaluation 4 ∷ evaluation 1 ∷ []) advancement []
      simulation
