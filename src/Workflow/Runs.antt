-- ===== src/Workflow/Runs.antt =====
-- src/pl_platform/prediction/workflow.py: runs of a workflow that may be cut off anywhere.
use ai_powered_premier_leagu.Prelude.{
  ℕ, zero, suc, ◌+◌, ◌==◌, ◌≡◌, ◌≤◌, refl, ap, ◌∙◌, false, Bool-cases, inl, inr, ==→eq, some, List,
  arith,
}
use ai_powered_premier_leagu.Workflow.{
  PostMatchWorkflow, PostMatchWorkflowStage, planned, completed, Identities, same_stage,
}
use ai_powered_premier_leagu.Workflow.Journal.{is_changed, load, last_of}
use ai_powered_premier_leagu.Workflow.Canonical.{
  canonical_event, canonical, before, stage_of, next_event-before, stage-canonical_event,
}
use ai_powered_premier_leagu.Workflow.Loading.{
  journal, load-journal, load-journal_empty, persist_workflow-journal, last_of-span,
}
use ai_powered_premier_leagu.Workflow.Runner.{
  StartFault, starts, before_load, before_create, after_create, Weather, finished, run_loop, opened,
  create, is_complete, run_post_match_workflow,
}
use ai_powered_premier_leagu.Workflow.Coverage.{IsCovered-one, IsCovered}
use ai_powered_premier_leagu.Workflow.Checkpoints.{
  world_at, IsFair, IsSafe, stopped, later, checkpoint-IsSafe,
}

module _ (h : Identities) (w : PostMatchWorkflow) where
  module _ (unchanged : is_changed h w ≡ false) where
    pub complete_last :
        (n : ℕ)
        → n ≤ 5
        → is_complete (last_of (canonical h w (suc n))) ≡ same_stage (stage_of n) completed
    complete_last n low =
        ap is_complete (last_of-span h w n 0 ∙ ap (λ k. some (canonical_event h w k)) (omega arith))
        ∙ ap (λ s. same_stage s completed) (stage-canonical_event h w n)

    pub incomplete : (n : ℕ) → n ≤ 4 → same_stage (stage_of n) completed ≡ false
    incomplete zero low = refl
    incomplete (suc zero) low = refl
    incomplete (suc (suc zero)) low = refl
    incomplete (suc (suc (suc zero))) low = refl
    incomplete (suc (suc (suc (suc zero)))) low = refl
    incomplete (suc (suc (suc (suc (suc n))))) low = absurd (omega arith)

    pub last_before : (n : ℕ) → last_of (canonical h w (suc n)) ≡ before h w (suc n)
    last_before n = last_of-span h w n 0 ∙ ap (λ k. some (canonical_event h w k)) (omega arith)

    all_six :
        (n : ℕ) (performed : List PostMatchWorkflowStage)
        → n ≡ 5
        → IsCovered (suc n) performed
        → IsSafe h w (suc n) (world_at h w (suc n) performed, finished (canonical h w (suc n)))
    unfolding IsFair
    all_six n performed last covered = record {
      count = suc n;
      performed = performed;
      reached = refl;
      grown = omega arith;
      bounded = omega arith;
      covered = covered;
      fair = (ap suc last, ap (λ k. canonical h w (suc k)) last);
    }

    run_loop-IsSafe :
        (weather : Weather) (left n : ℕ) (performed : List PostMatchWorkflowStage)
        → 5 ≤ n + left
        → n ≤ 5
        → IsCovered (suc n) performed
        → IsSafe h w
            (suc n)
            (run_loop h w weather left (world_at h w (suc n) performed) (canonical h w (suc n)))
    unfolding run_loop
    run_loop-IsSafe weather zero n performed enough low covered =
        let last : n ≡ 5 = omega arith in
        rw (complete_last n low ∙ ap (λ k. same_stage (stage_of k) completed) last)
          (all_six n performed last covered)
    run_loop-IsSafe weather (suc left) n performed enough low covered = elim (Bool-cases (n == 5)) [
      | inl last ↦
          let five = ==→eq n 5 last in
          rw (complete_last n low ∙ ap (λ k. same_stage (stage_of k) completed) five)
            (all_six n performed five covered)
      | inr early ↦
          rw
            (
              complete_last n low,
              incomplete n (ground arith),
              last_before n,
              next_event-before h w (suc n) (ground arith),
            )
            (checkpoint-IsSafe h w unchanged (weather.at_stage (canonical_event h w (suc n)).stage)
              n performed (run_loop h w weather left) (ground arith) covered
              (λ more done.
                run_loop-IsSafe weather left (suc n) more (omega arith) (ground arith) done))
    ]

    create-IsSafe :
        (weather : Weather) (fault : StartFault) (performed : List PostMatchWorkflowStage)
        → IsSafe h w 0 (create h w (world_at h w 0 performed) fault (run_loop h w weather 5))
    create-IsSafe weather before_load performed =
        stopped h w 0 0 performed planned (omega arith) (omega arith)
          (IsCovered-one 0 performed (omega arith))
    create-IsSafe weather before_create performed =
        stopped h w 0 0 performed planned (omega arith) (omega arith)
          (IsCovered-one 0 performed (omega arith))
    create-IsSafe weather after_create performed = rw (persist_workflow-journal h w unchanged) (
        stopped h w 0 1 performed planned (omega arith) (omega arith)
          (IsCovered-one 1 performed (omega arith)))
    create-IsSafe weather starts performed =
        rw (persist_workflow-journal h w unchanged, load-journal h w unchanged 0 (omega arith))
          (later h w 0 1 _ (omega arith) (
            run_loop-IsSafe weather 5 0 performed (omega arith) (omega arith)
              (IsCovered-one 1 performed (omega arith))))

    opened-IsSafe :
        (weather : Weather) (fault : StartFault) (count : ℕ)
        (performed : List PostMatchWorkflowStage)
        → count ≤ 6
        → IsCovered count performed
        → IsSafe h w count (
            opened h w
              (world_at h w count performed)
              fault
              (load h w (journal h w count))
              (run_loop h w weather 5))
    opened-IsSafe weather before_load count performed low covered =
        stopped h w count count performed planned (omega arith) low covered
    opened-IsSafe weather starts zero performed low covered =
        rw (load-journal_empty h w unchanged) (create-IsSafe weather starts performed)
    opened-IsSafe weather before_create zero performed low covered =
        rw (load-journal_empty h w unchanged) (create-IsSafe weather before_create performed)
    opened-IsSafe weather after_create zero performed low covered =
        rw (load-journal_empty h w unchanged) (create-IsSafe weather after_create performed)
    opened-IsSafe weather starts (suc n) performed low covered =
        rw (load-journal h w unchanged n (omega arith))
          (run_loop-IsSafe weather 5 n performed (omega arith) (omega arith) covered)
    opened-IsSafe weather before_create (suc n) performed low covered =
        rw (load-journal h w unchanged n (omega arith))
          (run_loop-IsSafe weather 5 n performed (omega arith) (omega arith) covered)
    opened-IsSafe weather after_create (suc n) performed low covered =
        rw (load-journal h w unchanged n (omega arith))
          (run_loop-IsSafe weather 5 n performed (omega arith) (omega arith) covered)

-- Wherever the calls of a run are cut off, a run that finds a journal of the workflow's first events
-- with their child writes done leaves such a journal, of no fewer events: no checkpoint comes before
-- its child write, and none is lost. The run either returns the whole history of six events or
-- raises the error for an interruption.
pub run_post_match_workflow-IsSafe :
    (h : Identities) (w : PostMatchWorkflow) (weather : Weather) (count : ℕ)
    (performed : List PostMatchWorkflowStage)
    → is_changed h w ≡ false
    → count ≤ 6
    → IsCovered count performed
    → IsSafe h w count (run_post_match_workflow h w weather (world_at h w count performed))
unfolding run_post_match_workflow
run_post_match_workflow-IsSafe h w weather count performed unchanged low covered =
    opened-IsSafe h w unchanged weather weather.at_start count performed low covered
