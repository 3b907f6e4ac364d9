-- ===== src/Workflow/Runner.antt =====
-- src/pl_platform/prediction/workflow.py, `run_post_match_workflow`, with the places where a child write
-- or the journal may be cut off. A child write that is done is in `performed`.
use ai_powered_premier_leagu.Prelude.{
  ℕ, zero, suc, Bool, true, false, Option, none, some, List, [], ◌∷◌, ◌++◌, Result, ok, err,
  if◌then◌else◌,
}
use ai_powered_premier_leagu.Workflow.{
  PostMatchWorkflow, PostMatchWorkflowEvent, PostMatchWorkflowStage, planned, completed, same_stage,
  Identities, WorkflowFailure, PostMatchWorkflowFailureCode, workflow_error, other_exception,
  next_event,
}
use ai_powered_premier_leagu.Workflow.Journal.{
  Database, load, required, persist_workflow, persist_next, last_of,
}

-- The database, and the child writes in the order in which they were done.
pub record World : Type 0 where
  pub database : Database
  pub performed : List PostMatchWorkflowStage

-- Where a call of the journal or of the executor raises an exception: nowhere, before it has
-- written, or after.
pub data Fault : Type 0 where
  undisturbed before_action after_action before_append after_append : Fault

pub data StartFault : Type 0 where
  starts before_load before_create after_create : StartFault

pub record Weather : Type 0 where
  pub at_start : StartFault
  pub at_stage : PostMatchWorkflowStage → Fault

-- How a run ends: it returns a history, or raises; `running` is a loop that is
-- not over.
pub data Ending : Type 0 where
  finished : List PostMatchWorkflowEvent → Ending
  failed : PostMatchWorkflowFailureCode → Ending
  interrupted : PostMatchWorkflowStage → Ending
  validation_error : Ending
  running : Ending

abbrev pub Run : Type 0
Run = World × Ending

-- The two `except` clauses.
abbrev pub raised_at : PostMatchWorkflowStage → WorkflowFailure → Ending
raised_at stage (workflow_error code) = failed code
raised_at stage other_exception = interrupted stage

-- `actions.get(event.stage)`
abbrev pub has_action : PostMatchWorkflowStage → Bool
has_action planned = false
has_action completed = false
has_action _ = true

abbrev pub act : PostMatchWorkflowStage → World → World
act stage world =
    if has_action stage
    then record { database = world.database; performed = world.performed ++ stage ∷ [] }
    else world

abbrev pub with_database : World → Database → World
with_database world db = record { database = db; performed = world.performed }

-- What `journal.append` left and returned.
abbrev pub appended :
    PostMatchWorkflowStage
    → World
    → Result WorkflowFailure (List PostMatchWorkflowEvent)
    → (World → List PostMatchWorkflowEvent → Run)
    → Run
appended stage world (err raised) goes_on = (world, raised_at stage raised)
appended stage world (ok history) goes_on = goes_on world history

abbrev pub committed :
    Identities
    → PostMatchWorkflow
    → PostMatchWorkflowStage
    → World
    → Bool
    → Result WorkflowFailure Database
    → (World → List PostMatchWorkflowEvent → Run)
    → Run
committed h w stage world cut_off (err raised) goes_on = (world, raised_at stage raised)
committed h w stage world true (ok db) goes_on = (with_database world db, interrupted stage)
committed h w stage world false (ok db) goes_on =
    appended stage (with_database world db) (required (load h w db)) goes_on

-- The body of the loop for the next event.
abbrev pub checkpoint :
    Identities
    → PostMatchWorkflow
    → PostMatchWorkflowEvent
    → World
    → Fault
    → (World → List PostMatchWorkflowEvent → Run)
    → Run
checkpoint h w e world before_action goes_on = (world, interrupted e.stage)
checkpoint h w e world after_action goes_on = (act e.stage world, interrupted e.stage)
checkpoint h w e world before_append goes_on = (act e.stage world, interrupted e.stage)
checkpoint h w e world after_append goes_on =
    committed h w e.stage (act e.stage world) true (persist_next h w e world.database) goes_on
checkpoint h w e world undisturbed goes_on =
    committed h w e.stage (act e.stage world) false (persist_next h w e world.database) goes_on

-- `next_post_match_workflow_event` stands outside the `try`.
abbrev pub advance :
    Identities
    → PostMatchWorkflow
    → Weather
    → World
    → Result WorkflowFailure PostMatchWorkflowEvent
    → (World → List PostMatchWorkflowEvent → Run)
    → Run
advance h w weather world (err (workflow_error code)) goes_on = (world, failed code)
advance h w weather world (err other_exception) goes_on = (world, validation_error)
advance h w weather world (ok e) goes_on = checkpoint h w e world (weather.at_stage e.stage) goes_on

abbrev pub is_complete : Option PostMatchWorkflowEvent → Bool
is_complete none = false
is_complete (some e) = same_stage e.stage completed

-- The `while` loop, for at most `left` checkpoints more.
unfoldable pub run_loop :
    Identities → PostMatchWorkflow → Weather → ℕ → World → List PostMatchWorkflowEvent → Run
run_loop h w weather zero world history =
    if is_complete (last_of history) then (world, finished history) else (world, running)
run_loop h w weather (suc left) world history =
    if is_complete (last_of history)
    then (world, finished history)
    else advance h w weather world (next_event h w (last_of history)) (run_loop h w weather left)

abbrev pub created :
    Identities
    → PostMatchWorkflow
    → World
    → Bool
    → Result WorkflowFailure Database
    → (World → List PostMatchWorkflowEvent → Run)
    → Run
created h w world cut_off (err raised) goes_on = (world, raised_at planned raised)
created h w world true (ok db) goes_on = (with_database world db, interrupted planned)
created h w world false (ok db) goes_on =
    appended planned (with_database world db) (required (load h w db)) goes_on

abbrev pub create :
    Identities
    → PostMatchWorkflow
    → World
    → StartFault
    → (World → List PostMatchWorkflowEvent → Run)
    → Run
create h w world before_load goes_on = (world, interrupted planned)
create h w world before_create goes_on = (world, interrupted planned)
create h w world after_create goes_on =
    created h w world true (persist_workflow h w world.database) goes_on
create h w world starts goes_on =
    created h w world false (persist_workflow h w world.database) goes_on

abbrev pub opened :
    Identities
    → PostMatchWorkflow
    → World
    → StartFault
    → Result WorkflowFailure (Option (List PostMatchWorkflowEvent))
    → (World → List PostMatchWorkflowEvent → Run)
    → Run
opened h w world before_load found goes_on = (world, interrupted planned)
opened h w world fault (err raised) goes_on = (world, raised_at planned raised)
opened h w world fault (ok none) goes_on = create h w world fault goes_on
opened h w world fault (ok (some history)) goes_on = goes_on world history

-- `run_post_match_workflow`: five checkpoints follow the planned event.
unfoldable pub run_post_match_workflow : Identities → PostMatchWorkflow → Weather → World → Run
run_post_match_workflow h w weather world =
    opened h w world weather.at_start (load h w world.database) (run_loop h w weather 5)
