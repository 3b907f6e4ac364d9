-- ===== src/Workflow/Checkpoints.antt =====
-- src/pl_platform/prediction/workflow.py: one checkpoint of a run that may be cut off anywhere.
use ai_powered_premier_leagu.Prelude.{
  ℕ, suc, ◌≡◌, ◌≤◌, refl, false, Bool-cases, inl, inr, List, arith,
}
use ai_powered_premier_leagu.Workflow.{
  PostMatchWorkflow, PostMatchWorkflowEvent, PostMatchWorkflowStage, Identities,
}
use ai_powered_premier_leagu.Workflow.Journal.{is_changed}
use ai_powered_premier_leagu.Workflow.Canonical.{
  canonical_event, canonical, stage_of, stage-canonical_event,
}
use ai_powered_premier_leagu.Workflow.Loading.{journal, load-journal, persist_next-journal}
use ai_powered_premier_leagu.Workflow.Runner.{
  World, Fault, undisturbed, before_action, after_action, before_append, after_append, Ending,
  finished, failed, interrupted, validation_error, running, Run, act, has_action, checkpoint,
}
use ai_powered_premier_leagu.Workflow.Coverage.{
  IsCovered, IsCovered-act, IsCovered-next, performed_after,
}

abbrev pub world_at : Identities → PostMatchWorkflow → ℕ → List PostMatchWorkflowStage → World
world_at h w count performed = record { database = journal h w count; performed = performed }

-- An ending that is the whole history, or an interruption.
unfoldable pub IsFair : Identities → PostMatchWorkflow → ℕ → Ending → Type 0
IsFair h w count (finished events) = (count ≡ 6) × (events ≡ canonical h w 6)
IsFair h w count (interrupted stage) = Unit
IsFair h w count (failed code) = ⊥
IsFair h w count validation_error = ⊥
IsFair h w count running = ⊥

-- A run that leaves the journal of the first `count` events, with their child writes done.
pub record IsSafe (h : Identities) (w : PostMatchWorkflow) (start : ℕ) (run : Run) : Type 0 where
  pub count : ℕ
  pub performed : List PostMatchWorkflowStage
  pub reached : run.0 ≡ world_at h w count performed
  pub grown : start ≤ count
  pub bounded : count ≤ 6
  pub covered : IsCovered count performed
  pub fair : IsFair h w count run.1

module _ (h : Identities) (w : PostMatchWorkflow) where
  pub act-world_at :
      (stage : PostMatchWorkflowStage) (count : ℕ) (performed : List PostMatchWorkflowStage)
      → act stage (world_at h w count performed)
        ≡ world_at h w count (performed_after stage performed)
  act-world_at stage count performed = elim (Bool-cases (has_action stage)) [
    | inl acts ↦ rw (acts) refl
    | inr rests ↦ rw (rests) refl
  ]

  -- A run that is interrupted at once.
  pub stopped :
      (start count : ℕ) (performed : List PostMatchWorkflowStage) (stage : PostMatchWorkflowStage)
      → start ≤ count
      → count ≤ 6
      → IsCovered count performed
      → IsSafe h w start (world_at h w count performed, interrupted stage)
  unfolding IsFair
  stopped start count performed stage grown bounded covered = record {
    count = count;
    performed = performed;
    reached = refl;
    grown = grown;
    bounded = bounded;
    covered = covered;
    fair = tt;
  }

  pub later :
      (early late : ℕ) (run : Run) → early ≤ late → IsSafe h w late run → IsSafe h w early run
  later early late run order safe =
      let more = safe.grown in
      record {
        count = safe.count;
        performed = safe.performed;
        reached = safe.reached;
        grown = omega arith;
        bounded = safe.bounded;
        covered = safe.covered;
        fair = safe.fair;
      }

  module _ (unchanged : is_changed h w ≡ false) where
    pub checkpoint-IsSafe :
        (fault : Fault) (n : ℕ) (performed : List PostMatchWorkflowStage)
        (goes_on : World → List PostMatchWorkflowEvent → Run)
        → n ≤ 4
        → IsCovered (suc n) performed
        → ((more : List PostMatchWorkflowStage)
            → IsCovered (suc (suc n)) more
            → IsSafe h w
                (suc (suc n))
                (goes_on (world_at h w (suc (suc n)) more) (canonical h w (suc (suc n)))))
        → IsSafe h w (suc n) (
            checkpoint h w
              (canonical_event h w (suc n))
              (world_at h w (suc n) performed)
              fault
              goes_on)
    checkpoint-IsSafe before_action n performed goes_on low covered continues =
        stopped (suc n) (suc n) performed (canonical_event h w (suc n)).stage (omega arith)
          (omega arith) covered
    checkpoint-IsSafe after_action n performed goes_on low covered continues =
        let stage = (canonical_event h w (suc n)).stage in
        rw (act-world_at stage (suc n) performed) (
          stopped (suc n) (suc n) (performed_after stage performed) stage (omega arith)
            (omega arith) (IsCovered-act (suc n) stage performed covered))
    checkpoint-IsSafe before_append n performed goes_on low covered continues =
        let stage = (canonical_event h w (suc n)).stage in
        rw (act-world_at stage (suc n) performed) (
          stopped (suc n) (suc n) (performed_after stage performed) stage (omega arith)
            (omega arith) (IsCovered-act (suc n) stage performed covered))
    checkpoint-IsSafe after_append n performed goes_on low covered continues =
        let stage = stage_of (suc n) in
        rw
          (
            persist_next-journal h w unchanged n low,
            stage-canonical_event h w (suc n),
            act-world_at stage (suc n) performed,
          )
          (stopped (suc n) (suc (suc n)) (performed_after stage performed) stage (omega arith)
            (omega arith) (IsCovered-next (suc n) performed covered))
    checkpoint-IsSafe undisturbed n performed goes_on low covered continues =
        let stage = stage_of (suc n) in
        rw
          (
            persist_next-journal h w unchanged n low,
            stage-canonical_event h w (suc n),
            act-world_at stage (suc n) performed,
            load-journal h w unchanged (suc n) (omega arith),
          )
          (later (suc n) (suc (suc n)) _ (omega arith) (
            continues (performed_after stage performed) (IsCovered-next (suc n) performed covered)))
