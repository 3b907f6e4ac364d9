-- ===== src/Workflow/Coverage.antt =====
-- src/pl_platform/prediction/workflow.py: the child writes that the events of a journal stand for.
use ai_powered_premier_leagu.Prelude.{
  ℕ, zero, suc, ◌==◌, ◌≡◌, ◌≤◌, ◌<◌, refl, sym, ap, ◌∙◌, Bool, true, any, Bool-cases, inl, inr,
  ==→eq, List, [], ◌∷◌, ◌++◌, if◌then◌else◌, arith,
}
use ai_powered_premier_leagu.Workflow.{PostMatchWorkflowStage, same_stage, stage_rank}
use ai_powered_premier_leagu.Workflow.Canonical.{stage_of, ==-refl}
use ai_powered_premier_leagu.Workflow.Runner.{has_action}

abbrev pub has_stage : PostMatchWorkflowStage → List PostMatchWorkflowStage → Bool
has_stage stage performed = any (same_stage stage) performed

-- The child writes of the checkpoints among the first `count` events are done.
unfoldable pub IsCovered : ℕ → List PostMatchWorkflowStage → Type 0
IsCovered count performed =
    (k : ℕ) → 1 ≤ k → k ≤ 4 → k < count → has_stage (stage_of k) performed ≡ true

has_stage-append :
    (stage s : PostMatchWorkflowStage) (performed : List PostMatchWorkflowStage)
    → has_stage stage performed ≡ true
    → has_stage stage (performed ++ s ∷ []) ≡ true
has_stage-append stage s [] held = cc
has_stage-append stage s (t ∷ performed) held = elim (Bool-cases (same_stage stage t)) [
  | inl same ↦ rw (same) refl
  | inr other ↦ rw (other) (has_stage-append stage s performed (ground arith))
]

has_stage-last :
    (s : PostMatchWorkflowStage) (performed : List PostMatchWorkflowStage)
    → has_stage s (performed ++ s ∷ []) ≡ true
has_stage-last s [] = rw (==-refl (stage_rank s)) refl
has_stage-last s (t ∷ performed) = elim (Bool-cases (same_stage s t)) [
  | inl same ↦ rw (same) refl
  | inr other ↦ rw (other) (has_stage-last s performed)
]

has_action-middle : (k : ℕ) → 1 ≤ k → k ≤ 4 → has_action (stage_of k) ≡ true
has_action-middle zero low high = absurd (omega arith)
has_action-middle (suc zero) low high = refl
has_action-middle (suc (suc zero)) low high = refl
has_action-middle (suc (suc (suc zero))) low high = refl
has_action-middle (suc (suc (suc (suc zero)))) low high = refl
has_action-middle (suc (suc (suc (suc (suc k))))) low high = absurd (omega arith)

-- What is performed after the child write of a stage.
abbrev pub performed_after :
    PostMatchWorkflowStage → List PostMatchWorkflowStage → List PostMatchWorkflowStage
performed_after stage performed = if has_action stage then performed ++ stage ∷ [] else performed

pub IsCovered-act :
    (count : ℕ) (stage : PostMatchWorkflowStage) (performed : List PostMatchWorkflowStage)
    → IsCovered count performed
    → IsCovered count (performed_after stage performed)
unfolding IsCovered
IsCovered-act count stage performed covered k low high below =
    elim (Bool-cases (has_action stage)) [
      | inl acts ↦
          rw (acts) (has_stage-append (stage_of k) stage performed (covered k low high below))
      | inr rests ↦ rw (rests) (covered k low high below)
    ]

pub IsCovered-next :
    (count : ℕ) (performed : List PostMatchWorkflowStage)
    → IsCovered count performed
    → IsCovered (suc count) (performed_after (stage_of count) performed)
unfolding IsCovered
IsCovered-next count performed covered k low high below = elim (Bool-cases (k == count)) [
  | inl same ↦
      let here = ==→eq k count same in
      let acts : has_action (stage_of count) ≡ true =
        ap (λ n. has_action (stage_of n)) (sym here) ∙ has_action-middle k low high in
      rw (acts, here) (has_stage-last (stage_of count) performed)
  | inr other ↦ IsCovered-act count (stage_of count) performed covered k low high (ground arith)
]

pub IsCovered-one :
    (count : ℕ) (performed : List PostMatchWorkflowStage) → count ≤ 1 → IsCovered count performed
unfolding IsCovered
IsCovered-one count performed low k at_least most below = absurd (omega arith)
