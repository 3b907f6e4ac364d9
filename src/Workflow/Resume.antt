-- ===== src/Workflow/Resume.antt =====
-- src/pl_platform/prediction/workflow.py: a run that nothing cuts off, after runs that were.
use ai_powered_premier_leagu.Prelude.{
  ℕ, zero, suc, ◌+◌, ◌==◌, ◌≡◌, ◌≤◌, refl, sym, ap, ◌∙◌, subst, false, Bool-cases, inl, inr, ==→eq,
  List, [], ◌∷◌, ◌++◌, arith,
}
use ai_powered_premier_leagu.Workflow.{
  PostMatchWorkflow, PostMatchWorkflowEvent, PostMatchWorkflowStage, evaluations_persisted,
  state_advancement_persisted, predictions_regenerated, simulation_regenerated, completed,
  Identities, same_stage,
}
use ai_powered_premier_leagu.Workflow.Journal.{is_changed}
use ai_powered_premier_leagu.Workflow.Canonical.{
  canonical, stage_of, next_event-before, stage-canonical_event,
}
use ai_powered_premier_leagu.Workflow.Loading.{
  load-journal, load-journal_empty, persist_next-journal, persist_workflow-journal,
}
use ai_powered_premier_leagu.Workflow.Runner.{
  World, undisturbed, starts, Weather, finished, Run, run_loop, run_post_match_workflow,
}
use ai_powered_premier_leagu.Workflow.Coverage.{IsCovered-one, IsCovered, performed_after}
use ai_powered_premier_leagu.Workflow.Checkpoints.{IsSafe, IsFair, world_at, act-world_at}
use ai_powered_premier_leagu.Workflow.Runs.{
  complete_last, incomplete, last_before, run_post_match_workflow-IsSafe,
}

-- Nothing is cut off.
abbrev pub calm : Weather
calm = record { at_start = starts; at_stage = λ stage. undisturbed }

-- The child writes that are due after the first events.
abbrev pub pending : ℕ → List PostMatchWorkflowStage
pending zero =
    evaluations_persisted ∷ state_advancement_persisted ∷ predictions_regenerated
    ∷ simulation_regenerated ∷ []
pending (suc zero) =
    evaluations_persisted ∷ state_advancement_persisted ∷ predictions_regenerated
    ∷ simulation_regenerated ∷ []
pending (suc (suc zero)) =
    state_advancement_persisted ∷ predictions_regenerated ∷ simulation_regenerated ∷ []
pending (suc (suc (suc zero))) = predictions_regenerated ∷ simulation_regenerated ∷ []
pending (suc (suc (suc (suc zero)))) = simulation_regenerated ∷ []
pending (suc (suc (suc (suc (suc n))))) = []

append_assoc : (ps qs rs : List PostMatchWorkflowStage) → (ps ++ qs) ++ rs ≡ ps ++ (qs ++ rs)
append_assoc [] qs rs = refl
append_assoc (p ∷ ps) qs rs = ap (λ l. p ∷ l) (append_assoc ps qs rs)

performed_after-pending :
    (n : ℕ) (performed : List PostMatchWorkflowStage)
    → n ≤ 4
    → performed_after (stage_of (suc n)) performed ++ pending (suc (suc n))
      ≡ performed ++ pending (suc n)
performed_after-pending zero performed low = append_assoc performed (evaluations_persisted ∷ []) _
performed_after-pending (suc zero) performed low =
    append_assoc performed (state_advancement_persisted ∷ []) _
performed_after-pending (suc (suc zero)) performed low =
    append_assoc performed (predictions_regenerated ∷ []) _
performed_after-pending (suc (suc (suc zero))) performed low =
    append_assoc performed (simulation_regenerated ∷ []) _
performed_after-pending (suc (suc (suc (suc zero)))) performed low = refl
performed_after-pending (suc (suc (suc (suc (suc n))))) performed low = absurd (omega arith)

append_nil : (ps : List PostMatchWorkflowStage) → ps ++ [] ≡ ps
append_nil [] = refl
append_nil (p ∷ ps) = ap (λ l. p ∷ l) (append_nil ps)

module _ (h : Identities) (w : PostMatchWorkflow) where
  -- The end of a run that nothing cuts off.
  abbrev pub whole : ℕ → List PostMatchWorkflowStage → Run
  whole count performed = (world_at h w 6 (performed ++ pending count), finished (canonical h w 6))

  module _ (unchanged : is_changed h w ≡ false) where
    whole_six :
        (n : ℕ) (performed : List PostMatchWorkflowStage)
        → n ≡ 5
        → (world_at h w (suc n) performed, finished (canonical h w (suc n)))
          ≡ whole (suc n) performed
    whole_six n performed last =
        ap (λ k. (world_at h w (suc k) performed, finished (canonical h w (suc k)))) last
        ∙ ap (λ p. (world_at h w 6 p, finished (canonical h w 6))) (sym (append_nil performed))
        ∙ ap (λ k. whole (suc k) performed) (sym last)

    run_loop-calm :
        (left n : ℕ) (performed : List PostMatchWorkflowStage)
        → 5 ≤ n + left
        → n ≤ 5
        → run_loop h w calm left (world_at h w (suc n) performed) (canonical h w (suc n))
          ≡ whole (suc n) performed
    unfolding run_loop
    run_loop-calm zero n performed enough low =
        let last : n ≡ 5 = omega arith in
        rw (complete_last h w unchanged n low ∙ ap (λ k. same_stage (stage_of k) completed) last)
          (whole_six n performed last)
    run_loop-calm (suc left) n performed enough low = elim (Bool-cases (n == 5)) [
      | inl last ↦
          let five = ==→eq n 5 last in
          rw (complete_last h w unchanged n low ∙ ap (λ k. same_stage (stage_of k) completed) five)
            (whole_six n performed five)
      | inr early ↦
          let stage = stage_of (suc n) in
          rw
            (
              complete_last h w unchanged n low,
              incomplete h w unchanged n (ground arith),
              last_before h w unchanged n,
              next_event-before h w (suc n) (ground arith),
              persist_next-journal h w unchanged n (ground arith),
              stage-canonical_event h w (suc n),
              act-world_at h w stage (suc n) performed,
              load-journal h w unchanged (suc n) (ground arith),
            )
            (run_loop-calm left (suc n) (performed_after stage performed) (omega arith)
                (ground arith)
              ∙ ap (λ p. (world_at h w 6 p, finished (canonical h w 6)))
                  (performed_after-pending n performed (ground arith)))
    ]

    pub run_calm :
        (count : ℕ) (performed : List PostMatchWorkflowStage)
        → count ≤ 6
        → run_post_match_workflow h w calm (world_at h w count performed) ≡ whole count performed
    unfolding run_post_match_workflow
    run_calm zero performed low =
        rw
          (
            load-journal_empty h w unchanged,
            persist_workflow-journal h w unchanged,
            load-journal h w unchanged 0 (omega arith),
          )
          (run_loop-calm 5 0 performed (omega arith) (omega arith))
    run_calm (suc n) performed low =
        rw (load-journal h w unchanged n (omega arith))
          (run_loop-calm 5 n performed (omega arith) (omega arith))

-- The world after one run for each weather, from the world without the workflow.
abbrev pub after_runs : Identities → PostMatchWorkflow → List Weather → World
after_runs h w [] = world_at h w 0 []
after_runs h w (weather ∷ earlier) =
    (run_post_match_workflow h w weather (after_runs h w earlier)).0

-- A world that earlier runs left: the journal holds the first `count` events, and the runs did the
-- child writes `performed`.
pub record IsLeft (h : Identities) (w : PostMatchWorkflow) (world : World) : Type 0 where
  pub count : ℕ
  pub performed : List PostMatchWorkflowStage
  pub reached : world ≡ world_at h w count performed
  pub bounded : count ≤ 6
  pub covered : IsCovered count performed

after_runs-IsLeft :
    (h : Identities) (w : PostMatchWorkflow) (weathers : List Weather)
    → is_changed h w ≡ false
    → IsLeft h w (after_runs h w weathers)
after_runs-IsLeft h w [] unchanged = record {
  count = 0;
  performed = [];
  reached = refl;
  bounded = omega arith;
  covered = IsCovered-one 0 [] (omega arith);
}
after_runs-IsLeft h w (weather ∷ earlier) unchanged =
    let left = after_runs-IsLeft h w earlier unchanged in
    let safe =
      subst (λ world. IsSafe h w left.count (run_post_match_workflow h w weather world))
        (sym left.reached)
        (run_post_match_workflow-IsSafe h w weather left.count left.performed unchanged left.bounded
          left.covered) in
    record {
      count = safe.count;
      performed = safe.performed;
      reached = safe.reached;
      bounded = safe.bounded;
      covered = safe.covered;
    }

finished_six :
    (h : Identities) (w : PostMatchWorkflow) (start : ℕ) (run : Run)
    (events : List PostMatchWorkflowEvent)
    → run.1 ≡ finished events
    → IsSafe h w start run
    → IsCovered 6 (run.0).performed
unfolding IsFair
finished_six h w start run events ends safe =
    let fair = subst (IsFair h w safe.count) ends safe.fair in
    subst (λ (world : World). IsCovered 6 world.performed) (sym safe.reached)
      (subst (λ n. IsCovered n safe.performed) (fair.0) safe.covered)

-- After any number of runs of a workflow that were cut off anywhere, one run that is not cut off
-- returns the whole history: it does the child writes that were due, each once and in order, and
-- leaves the journal of all six events. Every child write has been done by then.
pub run_post_match_workflow-resumes :
    (h : Identities) (w : PostMatchWorkflow) (weathers : List Weather)
    → is_changed h w ≡ false
    → let world = after_runs h w weathers in
      let run = run_post_match_workflow h w calm world in
      (left : IsLeft h w world) × (run
        ≡ (world_at h w 6 (left.performed ++ pending left.count), finished (canonical h w 6)))
      × IsCovered 6 (run.0).performed
run_post_match_workflow-resumes h w weathers unchanged =
    let left = after_runs-IsLeft h w weathers unchanged in
    let world = after_runs h w weathers in
    let whole_run =
      ap (run_post_match_workflow h w calm) left.reached
      ∙ run_calm h w unchanged left.count left.performed left.bounded in
    let safe =
      subst (λ start. IsSafe h w left.count (run_post_match_workflow h w calm start))
        (sym left.reached)
        (run_post_match_workflow-IsSafe h w calm left.count left.performed unchanged left.bounded
          left.covered) in
    (
      left,
      whole_run,
      finished_six h w left.count (run_post_match_workflow h w calm world) (canonical h w 6)
          (ap (λ (r : Run). r.1) whole_run) safe,
    )
