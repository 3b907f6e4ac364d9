-- ===== src/Workflow.antt =====
-- src/pl_platform/prediction/workflow.py: the manifest, the events and the history of a post-match
-- workflow. A UUID and a digest are compared only, so each is a number; a season, of two years of
-- four digits, is the number of its eight digits.
pub mod Manifest
pub mod Composed
pub mod Journal
pub mod Runner
pub mod Canonical
pub mod Histories
pub mod Loading
pub mod Coverage
pub mod Checkpoints
pub mod Runs
pub mod Resume
mod Tests
use ai_powered_premier_leagu.Prelude.{
  ℕ, zero, suc, ◌+◌, ◌==◌, leb, Bool, true, false, not, ◌&&◌, ◌||◌, Option, none, some, is_none,
  is_some, List, [], ◌∷◌, Result, ok, err, ◌>>=◌, ◌>>◌, raise_if,
}

pub data PostMatchWorkflowFailureCode : Type 0 where
  payload_mismatch manifest_conflict history_malformed stage_interrupted :
      PostMatchWorkflowFailureCode

-- A PostMatchWorkflowError, or any other exception.
pub data WorkflowFailure : Type 0 where
  workflow_error : PostMatchWorkflowFailureCode → WorkflowFailure
  other_exception : WorkflowFailure

pub data PostMatchWorkflowStage : Type 0 where
  planned : PostMatchWorkflowStage
  evaluations_persisted : PostMatchWorkflowStage
  state_advancement_persisted : PostMatchWorkflowStage
  predictions_regenerated : PostMatchWorkflowStage
  simulation_regenerated : PostMatchWorkflowStage
  completed : PostMatchWorkflowStage

-- POST_MATCH_WORKFLOW_STAGES
abbrev pub stage_at : ℕ → Option PostMatchWorkflowStage
stage_at zero = some planned
stage_at (suc zero) = some evaluations_persisted
stage_at (suc (suc zero)) = some state_advancement_persisted
stage_at (suc (suc (suc zero))) = some predictions_regenerated
stage_at (suc (suc (suc (suc zero)))) = some simulation_regenerated
stage_at (suc (suc (suc (suc (suc zero))))) = some completed
stage_at (suc (suc (suc (suc (suc (suc n)))))) = none

abbrev pub stage_rank : PostMatchWorkflowStage → ℕ
stage_rank planned = 0
stage_rank evaluations_persisted = 1
stage_rank state_advancement_persisted = 2
stage_rank predictions_regenerated = 3
stage_rank simulation_regenerated = 4
stage_rank completed = 5

abbrev pub same_stage : PostMatchWorkflowStage → PostMatchWorkflowStage → Bool
same_stage a b = stage_rank a == stage_rank b

pub record WorkflowChildReference : Type 0 where
  pub id : ℕ
  pub identity_sha256 : ℕ

pub record PostMatchWorkflow : Type 0 where
  pub id : ℕ
  pub identity_sha256 : ℕ
  pub season_id : ℕ
  pub evaluations : List WorkflowChildReference
  pub advancement : WorkflowChildReference
  pub prediction_regenerations : List WorkflowChildReference
  pub simulation_regeneration : WorkflowChildReference

pub record PostMatchWorkflowEvent : Type 0 where
  pub id : ℕ
  pub identity_sha256 : ℕ
  pub workflow_id : ℕ
  pub workflow_identity_sha256 : ℕ
  pub sequence : ℕ
  pub stage : PostMatchWorkflowStage
  pub previous_event_id : Option ℕ
  pub previous_event_sha256 : Option ℕ
  pub stage_lineage_sha256 : ℕ

-- The payload that an event's identity is computed of.
pub record EventIdentity : Type 0 where
  pub workflow_id : ℕ
  pub workflow_identity_sha256 : ℕ
  pub sequence : ℕ
  pub stage : PostMatchWorkflowStage
  pub previous_event_id : Option ℕ
  pub previous_event_sha256 : Option ℕ
  pub stage_lineage_sha256 : ℕ

-- What uuid5, sha256 and json compute: of a set of references, of the children of a workflow, of an
-- event's payload, and of a workflow's own bytes.
pub record Identities : Type 0 where
  pub set_sha256 : List WorkflowChildReference → ℕ
  pub workflow_uuid :
      ℕ
      → List WorkflowChildReference
      → WorkflowChildReference
      → List WorkflowChildReference
      → WorkflowChildReference
      → ℕ
  pub workflow_sha256 :
      ℕ
      → List WorkflowChildReference
      → WorkflowChildReference
      → List WorkflowChildReference
      → WorkflowChildReference
      → ℕ
  pub event_uuid : EventIdentity → ℕ
  pub event_sha256 : EventIdentity → ℕ
  pub object_sha256 : PostMatchWorkflow → ℕ

-- `stage_lineage_sha256`
abbrev pub stage_lineage : Identities → PostMatchWorkflow → PostMatchWorkflowStage → ℕ
stage_lineage h w evaluations_persisted = h.set_sha256 w.evaluations
stage_lineage h w state_advancement_persisted = w.advancement.identity_sha256
stage_lineage h w predictions_regenerated = h.set_sha256 w.prediction_regenerations
stage_lineage h w simulation_regenerated = w.simulation_regeneration.identity_sha256
stage_lineage h w planned = w.identity_sha256
stage_lineage h w completed = w.identity_sha256

abbrev pub identity_of : PostMatchWorkflowEvent → EventIdentity
identity_of e = record {
  workflow_id = e.workflow_id;
  workflow_identity_sha256 = e.workflow_identity_sha256;
  sequence = e.sequence;
  stage = e.stage;
  previous_event_id = e.previous_event_id;
  previous_event_sha256 = e.previous_event_sha256;
  stage_lineage_sha256 = e.stage_lineage_sha256;
}

-- `POST_MATCH_WORKFLOW_STAGES[sequence]` is another stage, or out of range.
abbrev pub is_out_of_sequence : PostMatchWorkflowStage → Option PostMatchWorkflowStage → Bool
is_out_of_sequence s none = true
is_out_of_sequence s (some t) = not (same_stage s t)

-- `(previous_event_id is None) != (previous_event_sha256 is None)`
abbrev pub is_half_linked : Option ℕ → Option ℕ → Bool
is_half_linked none none = false
is_half_linked (some id) (some digest) = false
is_half_linked none (some digest) = true
is_half_linked (some id) none = true

-- `event_is_canonical`: whether one of its tests fails.
unfoldable pub breaks_event : Identities → PostMatchWorkflowEvent → Bool
breaks_event h e =
    leb 6 e.sequence
    || is_out_of_sequence e.stage (stage_at e.sequence)
    || is_half_linked e.previous_event_id e.previous_event_sha256
    || (e.sequence == 0 && is_some e.previous_event_id)
    || (leb 1 e.sequence && is_none e.previous_event_id)
    || not (e.id == h.event_uuid (identity_of e))
    || not (e.identity_sha256 == h.event_sha256 (identity_of e))

abbrev pub next_sequence : Option PostMatchWorkflowEvent → ℕ
next_sequence none = 0
next_sequence (some e) = e.sequence + 1

abbrev pub id_of : Option PostMatchWorkflowEvent → Option ℕ
id_of none = none
id_of (some e) = some e.id

abbrev pub digest_of : Option PostMatchWorkflowEvent → Option ℕ
digest_of none = none
digest_of (some e) = some e.identity_sha256

abbrev pub next_identity :
    Identities
    → PostMatchWorkflow
    → Option PostMatchWorkflowEvent
    → ℕ
    → PostMatchWorkflowStage
    → EventIdentity
next_identity h w previous sequence stage = record {
  workflow_id = w.id;
  workflow_identity_sha256 = w.identity_sha256;
  sequence = sequence;
  stage = stage;
  previous_event_id = id_of previous;
  previous_event_sha256 = digest_of previous;
  stage_lineage_sha256 = stage_lineage h w stage;
}

abbrev pub event_of : Identities → EventIdentity → PostMatchWorkflowEvent
event_of h p = record {
  id = h.event_uuid p;
  identity_sha256 = h.event_sha256 p;
  workflow_id = p.workflow_id;
  workflow_identity_sha256 = p.workflow_identity_sha256;
  sequence = p.sequence;
  stage = p.stage;
  previous_event_id = p.previous_event_id;
  previous_event_sha256 = p.previous_event_sha256;
  stage_lineage_sha256 = p.stage_lineage_sha256;
}

abbrev pub validated :
    Identities → PostMatchWorkflowEvent → Result WorkflowFailure PostMatchWorkflowEvent
validated h e = raise_if (breaks_event h e) other_exception >> ok e

abbrev pub event_for :
    Identities
    → PostMatchWorkflow
    → Option PostMatchWorkflowEvent
    → ℕ
    → Option PostMatchWorkflowStage
    → Result WorkflowFailure PostMatchWorkflowEvent
event_for h w previous sequence none = err (workflow_error history_malformed)
event_for h w previous sequence (some stage) =
    validated h (event_of h (next_identity h w previous sequence stage))

-- `next_post_match_workflow_event`
unfoldable pub next_event :
    Identities
    → PostMatchWorkflow
    → Option PostMatchWorkflowEvent
    → Result WorkflowFailure PostMatchWorkflowEvent
next_event h w previous =
    event_for h w previous (next_sequence previous) (stage_at (next_sequence previous))

abbrev pub same_option : Option ℕ → Option ℕ → Bool
same_option none none = true
same_option none (some b) = false
same_option (some a) none = false
same_option (some a) (some b) = a == b

-- `==` on two events
unfoldable pub same_event : PostMatchWorkflowEvent → PostMatchWorkflowEvent → Bool
same_event a b =
    a.id == b.id
    && a.identity_sha256 == b.identity_sha256
    && a.workflow_id == b.workflow_id
    && a.workflow_identity_sha256 == b.workflow_identity_sha256
    && a.sequence == b.sequence
    && same_stage a.stage b.stage
    && same_option a.previous_event_id b.previous_event_id
    && same_option a.previous_event_sha256 b.previous_event_sha256
    && a.stage_lineage_sha256 == b.stage_lineage_sha256

-- The loop of `history_is_a_complete_valid_prefix`; a ValidationError is `other_exception`.
unfoldable pub check_events :
    Identities
    → PostMatchWorkflow
    → Option PostMatchWorkflowEvent
    → List PostMatchWorkflowEvent
    → Result WorkflowFailure (Unit {0})
check_events h w previous [] = ok tt
check_events h w previous (actual ∷ events) = do
  expected ← next_event h w previous
  _ ← raise_if (not (same_event actual expected)) other_exception
  check_events h w (some actual) events

abbrev pub is_empty : List PostMatchWorkflowEvent → Bool
is_empty [] = true
is_empty (e ∷ events) = false

-- `history_is_a_complete_valid_prefix`
unfoldable pub check_history :
    Identities → PostMatchWorkflow → List PostMatchWorkflowEvent → Result WorkflowFailure (Unit {0})
check_history h w events =
    raise_if (is_empty events) other_exception >> check_events h w none events
