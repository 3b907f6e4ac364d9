-- ===== src/Workflow/Journal.antt =====
-- src/pl_platform/persistence/post_match_workflow.py, PostMatchWorkflowRepository, over the rows of one
-- workflow. PostgreSQL keeps its part: a transaction writes all of a plan's rows or none, an insert
-- over a key that is there does nothing, and the rows are compared before the transaction commits.
-- Events with different payloads have different identifiers, so a row that is found by its
-- sequence and not by its identifier is a conflict.
use ai_powered_premier_leagu.Prelude.{
  ℕ, zero, suc, ◌+◌, ◌==◌, Bool, true, false, not, ◌&&◌, ◌||◌, Option, none, some, List, [], ◌∷◌,
  ◌++◌, length, Result, ok, err, ◌>>=◌, raise_if, if◌then◌else◌,
}
use ai_powered_premier_leagu.Workflow.{
  PostMatchWorkflow, PostMatchWorkflowEvent, Identities, WorkflowFailure, workflow_error,
  other_exception, payload_mismatch, manifest_conflict, history_malformed, breaks_event, next_event,
  same_event, check_history,
}

-- The columns of `_workflow_row`.
pub record WorkflowRow : Type 0 where
  pub workflow_id : ℕ
  pub identity_sha256 : ℕ
  pub workflow_object_sha256 : ℕ
  pub season_id : ℕ
  pub evaluation_count : ℕ
  pub evaluation_set_sha256 : ℕ
  pub advancement_id : ℕ
  pub advancement_identity_sha256 : ℕ
  pub prediction_regeneration_count : ℕ
  pub prediction_regeneration_set_sha256 : ℕ
  pub simulation_regeneration_id : ℕ
  pub simulation_regeneration_identity_sha256 : ℕ

-- The row of the workflow, and the rows of its events.
pub record Database : Type 0 where
  pub manifest : Option WorkflowRow
  pub events : List PostMatchWorkflowEvent

abbrev pub workflow_row : Identities → PostMatchWorkflow → WorkflowRow
workflow_row h w = record {
  workflow_id = w.id;
  identity_sha256 = w.identity_sha256;
  workflow_object_sha256 = h.object_sha256 w;
  season_id = w.season_id;
  evaluation_count = length w.evaluations;
  evaluation_set_sha256 = h.set_sha256 w.evaluations;
  advancement_id = w.advancement.id;
  advancement_identity_sha256 = w.advancement.identity_sha256;
  prediction_regeneration_count = length w.prediction_regenerations;
  prediction_regeneration_set_sha256 = h.set_sha256 w.prediction_regenerations;
  simulation_regeneration_id = w.simulation_regeneration.id;
  simulation_regeneration_identity_sha256 = w.simulation_regeneration.identity_sha256;
}

unfoldable pub same_row : WorkflowRow → WorkflowRow → Bool
same_row a b =
    a.workflow_id == b.workflow_id
    && a.identity_sha256 == b.identity_sha256
    && a.workflow_object_sha256 == b.workflow_object_sha256
    && a.season_id == b.season_id
    && a.evaluation_count == b.evaluation_count
    && a.evaluation_set_sha256 == b.evaluation_set_sha256
    && a.advancement_id == b.advancement_id
    && a.advancement_identity_sha256 == b.advancement_identity_sha256
    && a.prediction_regeneration_count == b.prediction_regeneration_count
    && a.prediction_regeneration_set_sha256 == b.prediction_regeneration_set_sha256
    && a.simulation_regeneration_id == b.simulation_regeneration_id
    && a.simulation_regeneration_identity_sha256 == b.simulation_regeneration_identity_sha256

-- Whether the workflow's identity is not that of its children.
unfoldable pub is_changed : Identities → PostMatchWorkflow → Bool
is_changed h w =
    not (
      w.id
      == h.workflow_uuid w.season_id w.evaluations w.advancement w.prediction_regenerations
          w.simulation_regeneration)
    || not (
        w.identity_sha256
        == h.workflow_sha256 w.season_id w.evaluations w.advancement w.prediction_regenerations
            w.simulation_regeneration)

-- `post_match_workflow_write_plan`: the row of the workflow and the planned event.
unfoldable pub workflow_write_plan :
    Identities → PostMatchWorkflow → Result WorkflowFailure (WorkflowRow × PostMatchWorkflowEvent)
workflow_write_plan h w = do
  _ ← raise_if (is_changed h w) (workflow_error payload_mismatch)
  planned ← next_event h w none
  ok (workflow_row h w, planned)

-- The event row of a sequence.
abbrev pub event_at_sequence : ℕ → List PostMatchWorkflowEvent → Option PostMatchWorkflowEvent
event_at_sequence sequence [] = none
event_at_sequence sequence (e ∷ events) =
    let rest = event_at_sequence sequence events in if e.sequence == sequence then some e else rest

-- What the row of one sequence makes of the rest of the loop.
abbrev pub collect_row :
    Identities
    → Option PostMatchWorkflowEvent
    → Bool
    → Result WorkflowFailure (List PostMatchWorkflowEvent)
    → Result WorkflowFailure (List PostMatchWorkflowEvent)
    → Result WorkflowFailure (List PostMatchWorkflowEvent)
collect_row h none gap_seen after_gap after_event = after_gap
collect_row h (some e) true after_gap after_event = err (workflow_error history_malformed)
collect_row h (some e) false after_gap after_event = do
  _ ← raise_if (breaks_event h e) (workflow_error history_malformed)
  later ← after_event
  ok (e ∷ later)

-- The loop of `load`, over the sequences that are left; `gap_seen` is Python's.
unfoldable pub collect_events :
    Identities
    → List PostMatchWorkflowEvent
    → ℕ
    → ℕ
    → Bool
    → Result WorkflowFailure (List PostMatchWorkflowEvent)
collect_events h rows zero sequence gap_seen = ok []
collect_events h rows (suc left) sequence gap_seen =
    collect_row h (event_at_sequence sequence rows) gap_seen
      (collect_events h rows left (sequence + 1) true)
      (collect_events h rows left (sequence + 1) gap_seen)

abbrev pub as_history :
    List PostMatchWorkflowEvent
    → Result WorkflowFailure (Unit {0})
    → Result WorkflowFailure (List PostMatchWorkflowEvent)
as_history events (ok done) = ok events
as_history events (err raised) = err (workflow_error history_malformed)

abbrev pub load_manifest :
    Identities
    → PostMatchWorkflow
    → List PostMatchWorkflowEvent
    → Option WorkflowRow
    → Result WorkflowFailure (Option (List PostMatchWorkflowEvent))
load_manifest h w rows none = ok none
load_manifest h w rows (some stored) = do
  plan ← workflow_write_plan h w
  _ ← raise_if (not (same_row stored (plan.0))) (workflow_error manifest_conflict)
  events ← collect_events h rows 6 0 false
  history ← as_history events (check_history h w events)
  ok (some history)

-- `load`: the events of the history, or none where there is no workflow.
unfoldable pub load :
    Identities
    → PostMatchWorkflow
    → Database
    → Result WorkflowFailure (Option (List PostMatchWorkflowEvent))
load h w db = load_manifest h w db.events db.manifest

-- `load`, where none is an error.
abbrev pub required :
    Result WorkflowFailure (Option (List PostMatchWorkflowEvent))
    → Result WorkflowFailure (List PostMatchWorkflowEvent)
required (err raised) = err raised
required (ok none) = err (workflow_error history_malformed)
required (ok (some events)) = ok events

abbrev pub insert_event :
    PostMatchWorkflowEvent
    → List PostMatchWorkflowEvent
    → Option PostMatchWorkflowEvent
    → Result WorkflowFailure (List PostMatchWorkflowEvent)
insert_event e rows none = ok (rows ++ e ∷ [])
insert_event e rows (some old) = if same_event old e then ok rows else err other_exception

-- `persist` of an event's row; a RepositoryError is `other_exception`.
abbrev pub persist_event :
    PostMatchWorkflowEvent
    → List PostMatchWorkflowEvent
    → Result WorkflowFailure (List PostMatchWorkflowEvent)
persist_event e rows = insert_event e rows (event_at_sequence e.sequence rows)

abbrev pub persist_row : WorkflowRow → Option WorkflowRow → Result WorkflowFailure (Unit {0})
persist_row row none = ok tt
persist_row row (some old) = if same_row old row then ok tt else err other_exception

-- The transaction of `create`, and of `append` for an event that is the next one.
unfoldable pub persist_workflow :
    Identities → PostMatchWorkflow → Database → Result WorkflowFailure Database
persist_workflow h w db = do
  plan ← workflow_write_plan h w
  _ ← persist_row (plan.0) db.manifest
  events ← persist_event (plan.1) db.events
  ok (record { manifest = some (plan.0); events = events })

abbrev pub last_of : List PostMatchWorkflowEvent → Option PostMatchWorkflowEvent
last_of [] = none
last_of (e ∷ []) = some e
last_of (e ∷ f ∷ events) = last_of (f ∷ events)

unfoldable pub persist_next :
    Identities
    → PostMatchWorkflow
    → PostMatchWorkflowEvent
    → Database
    → Result WorkflowFailure Database
persist_next h w e db = do
  existing ← required (load h w db)
  expected ← next_event h w (last_of existing)
  _ ← raise_if (not (same_event e expected)) (workflow_error history_malformed)
  events ← persist_event e db.events
  ok (record { manifest = db.manifest; events = events })
