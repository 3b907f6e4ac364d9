-- ===== src/Workflow/Canonical.antt =====
-- src/pl_platform/prediction/workflow.py: the six events of a workflow, one made of the other.
use ai_powered_premier_leagu.Prelude.{
  ℕ, zero, suc, ◌+◌, ◌==◌, ◌≡◌, ◌≤◌, refl, ap, ◌∙◌, true, false, Option, none, some, List, [], ◌∷◌,
  ok, arith,
}
use ai_powered_premier_leagu.Workflow.{
  PostMatchWorkflow, PostMatchWorkflowEvent, PostMatchWorkflowStage, planned, evaluations_persisted,
  state_advancement_persisted, predictions_regenerated, simulation_regenerated, completed,
  Identities, stage_at, stage_rank, same_option, event_of, next_identity, next_event, next_sequence,
  breaks_event, same_event,
}

-- The stage of a sequence number; the last one beyond it.
abbrev pub stage_of : ℕ → PostMatchWorkflowStage
stage_of zero = planned
stage_of (suc zero) = evaluations_persisted
stage_of (suc (suc zero)) = state_advancement_persisted
stage_of (suc (suc (suc zero))) = predictions_regenerated
stage_of (suc (suc (suc (suc zero)))) = simulation_regenerated
stage_of (suc (suc (suc (suc (suc n))))) = completed

pub stage_at-some : (n : ℕ) → n ≤ 5 → stage_at n ≡ some (stage_of n)
stage_at-some zero low = refl
stage_at-some (suc zero) low = refl
stage_at-some (suc (suc zero)) low = refl
stage_at-some (suc (suc (suc zero))) low = refl
stage_at-some (suc (suc (suc (suc zero)))) low = refl
stage_at-some (suc (suc (suc (suc (suc zero))))) low = refl
stage_at-some (suc (suc (suc (suc (suc (suc n)))))) low = absurd (omega arith)

pub same_option_refl : (o : Option ℕ) → same_option o o ≡ true
same_option_refl none = refl
same_option_refl (some a) = ground arith

pub ==-refl : (n : ℕ) → (n == n) ≡ true
==-refl n = ground arith

pub same_event_refl : (e : PostMatchWorkflowEvent) → same_event e e ≡ true
unfolding same_event
same_event_refl e =
    rw
      (
        ==-refl e.id,
        ==-refl e.identity_sha256,
        ==-refl e.workflow_id,
        ==-refl e.workflow_identity_sha256,
        ==-refl e.sequence,
        ==-refl (stage_rank e.stage),
        same_option_refl e.previous_event_id,
        same_option_refl e.previous_event_sha256,
        ==-refl e.stage_lineage_sha256,
      )
      refl

module _ (h : Identities) (w : PostMatchWorkflow) where
  unfoldable pub canonical_event : ℕ → PostMatchWorkflowEvent
  canonical_event zero = event_of h (next_identity h w none 0 planned)
  canonical_event (suc n) =
      event_of h (next_identity h w (some (canonical_event n)) (suc n) (stage_of (suc n)))

  -- `count` events from `start` on.
  unfoldable pub span : ℕ → ℕ → List PostMatchWorkflowEvent
  span start zero = []
  span start (suc count) = canonical_event start ∷ span (start + 1) count

  -- The first `count` events of the workflow.
  abbrev pub canonical : ℕ → List PostMatchWorkflowEvent
  canonical count = span 0 count

  abbrev pub before : ℕ → Option PostMatchWorkflowEvent
  before zero = none
  before (suc n) = some (canonical_event n)

  pub sequence-canonical_event : (n : ℕ) → (canonical_event n).sequence ≡ n
  unfolding canonical_event
  sequence-canonical_event zero = refl
  sequence-canonical_event (suc n) = refl

  pub stage-canonical_event : (n : ℕ) → (canonical_event n).stage ≡ stage_of n
  unfolding canonical_event
  stage-canonical_event zero = refl
  stage-canonical_event (suc n) = refl

  pub breaks_event-canonical : (n : ℕ) → n ≤ 5 → breaks_event h (canonical_event n) ≡ false
  unfolding breaks_event canonical_event
  breaks_event-canonical zero low =
      rw (==-refl (canonical_event 0).id, ==-refl (canonical_event 0).identity_sha256) refl
  breaks_event-canonical (suc n) low =
      rw
        (
          stage_at-some (suc n) low,
          ==-refl (stage_rank (stage_of (suc n))),
          ==-refl (canonical_event (suc n)).id,
          ==-refl (canonical_event (suc n)).identity_sha256,
        )
        (ground arith)

  pub next_sequence-before : (n : ℕ) → next_sequence (before n) ≡ n
  next_sequence-before zero = refl
  next_sequence-before (suc n) = ap (λ k. k + 1) (sequence-canonical_event n) ∙ omega arith

  pub next_event-before : (n : ℕ) → n ≤ 5 → next_event h w (before n) ≡ ok (canonical_event n)
  unfolding next_event canonical_event
  next_event-before zero low = rw (breaks_event-canonical zero low) refl
  next_event-before (suc n) low =
      rw
        (
          next_sequence-before (suc n),
          stage_at-some (suc n) low,
          breaks_event-canonical (suc n) low,
        )
        refl
