-- ===== src/Workflow/Histories.antt =====
-- src/pl_platform/prediction/workflow.py: the histories that the validator of a history accepts.
use ai_powered_premier_leagu.Prelude.{
  ℕ, zero, suc, ◌+◌, ◌==◌, ◌≡◌, ◌≤◌, ◌↔◌, refl, sym, ap, ap₂, ◌∙◌, subst, Bool, true, false, not,
  Option, none, some, List, [], ◌∷◌, length, ok, err, raise_if, bind_ok, arith, ==→eq, Bool-cases,
  inl, inr,
}
use ai_powered_premier_leagu.Workflow.{
  PostMatchWorkflow, PostMatchWorkflowEvent, PostMatchWorkflowStage, planned, evaluations_persisted,
  state_advancement_persisted, predictions_regenerated, simulation_regenerated, completed,
  Identities, WorkflowFailure, workflow_error, history_malformed, other_exception, same_stage,
  same_option, next_event, same_event, check_events, check_history, is_empty,
}
use ai_powered_premier_leagu.Workflow.Canonical.{
  canonical_event, canonical, span, before, next_event-before, next_sequence-before,
  same_event_refl,
}

same_option→eq : (a b : Option ℕ) → same_option a b ≡ true → a ≡ b
same_option→eq none none same = refl
same_option→eq none (some b) same = cc
same_option→eq (some a) none same = cc
same_option→eq (some a) (some b) same = ap some (==→eq a b same)

same_stage→eq : (a b : PostMatchWorkflowStage) → same_stage a b ≡ true → a ≡ b
same_stage→eq planned b same = ground arith
same_stage→eq evaluations_persisted b same = ground arith
same_stage→eq state_advancement_persisted b same = ground arith
same_stage→eq predictions_regenerated b same = ground arith
same_stage→eq simulation_regenerated b same = ground arith
same_stage→eq completed b same = ground arith

same_event→eq : (a b : PostMatchWorkflowEvent) → same_event a b ≡ true → a ≡ b
unfolding same_event
same_event→eq a b same =
    let id = ==→eq a.id b.id (ground arith) in
    let digest = ==→eq a.identity_sha256 b.identity_sha256 (ground arith) in
    let workflow = ==→eq a.workflow_id b.workflow_id (ground arith) in
    let workflow_digest =
      ==→eq a.workflow_identity_sha256 b.workflow_identity_sha256 (ground arith) in
    let place = ==→eq a.sequence b.sequence (ground arith) in
    let stage = same_stage→eq a.stage b.stage (ground arith) in
    let previous = same_option→eq a.previous_event_id b.previous_event_id (ground arith) in
    let previous_digest =
      same_option→eq a.previous_event_sha256 b.previous_event_sha256 (ground arith) in
    let lineage = ==→eq a.stage_lineage_sha256 b.stage_lineage_sha256 (ground arith) in
    λ i. record {
      id = id i;
      identity_sha256 = digest i;
      workflow_id = workflow i;
      workflow_identity_sha256 = workflow_digest i;
      sequence = place i;
      stage = stage i;
      previous_event_id = previous i;
      previous_event_sha256 = previous_digest i;
      stage_lineage_sha256 = lineage i;
    }

raise_if-ok :
    (test : Bool) (raised : WorkflowFailure) {done : Unit {0}}
    → raise_if test raised ≡ ok done
    → test ≡ false
raise_if-ok true raised passed = cc
raise_if-ok false raised passed = refl

module _ (h : Identities) (w : PostMatchWorkflow) where
  pub check_events-span :
      (count start : ℕ)
      → start + count ≤ 6
      → check_events h w (before h w start) (span h w start count) ≡ ok tt
  unfolding check_events span
  check_events-span zero start low = refl
  check_events-span (suc count) start low =
      let next = next_event-before h w start (omega arith) in
      let same = same_event_refl (canonical_event h w start) in
      let follows : start + 1 ≡ suc start = omega arith in
      let rest = check_events-span count (start + 1) (omega arith) in
      rw (next, same)
        (subst (λ n. check_events h w (before h w n) (span h w (start + 1) count) ≡ ok tt) follows
          rest)

  over_end : next_event h w (before h w 6) ≡ err (workflow_error history_malformed)
  unfolding next_event
  over_end = rw (next_sequence-before h w 6) refl

  next_event-canonical :
      (n : ℕ) (e : PostMatchWorkflowEvent)
      → n ≤ 6
      → next_event h w (before h w n) ≡ ok e
      → (n ≤ 5) × (canonical_event h w n ≡ e)
  next_event-canonical n e low next = elim (Bool-cases (n == 6)) [
    | inl last ↦
        let none_left = subst (λ k. next_event h w (before h w k) ≡ ok e) (==→eq n 6 last) next in
        absurd (let never = sym over_end ∙ none_left in cc)
    | inr earlier ↦
        let early : n ≤ 5 = ground arith in
        (early, let both = sym (next_event-before h w n early) ∙ next in cc)
  ]

  check_events-canonical :
      (events : List PostMatchWorkflowEvent) (start : ℕ)
      → start ≤ 6
      → check_events h w (before h w start) events ≡ ok tt
      → (start + length events ≤ 6) × (events ≡ span h w start (length events))
  unfolding check_events span
  check_events-canonical [] start low passed = (omega arith, refl)
  check_events-canonical (e ∷ events) start low passed =
      let a = bind_ok (next_event h w (before h w start)) _ passed in
      let b = bind_ok (raise_if (not (same_event e (a.0))) other_exception) _ (a.2) in
      let differ : not (same_event e (a.0)) ≡ false = raise_if-ok _ other_exception (b.1) in
      let known = next_event-canonical start (a.0) low (a.1) in
      let same : e ≡ canonical_event h w start =
        same_event→eq e (a.0) (ground arith) ∙ sym (known.1) in
      let early = known.0 in
      let rest =
        check_events-canonical events (suc start) (omega arith)
          (subst (λ p. check_events h w (some p) events ≡ ok tt) same (b.2)) in
      let count = rest.0 in
      let follows : suc start ≡ start + 1 = omega arith in
      (omega arith, ap₂ ◌∷◌ same (rest.1 ∙ ap (λ n. span h w n (length events)) follows))

  pub length-span : (count start : ℕ) → length (span h w start count) ≡ count
  unfolding span
  length-span zero start = refl
  length-span (suc count) start = ap suc (length-span count (start + 1))

nonempty : (events : List PostMatchWorkflowEvent) → is_empty events ≡ false → 1 ≤ length events
nonempty [] full = cc
nonempty (e ∷ events) full = omega arith

pub not_empty : (events : List PostMatchWorkflowEvent) → 1 ≤ length events → is_empty events ≡ false
not_empty [] full = absurd (omega arith)
not_empty (e ∷ events) full = refl

-- A history is accepted exactly if it is a prefix of the workflow's six events, of at least one: each
-- in its stage and linked to the one before it.
pub check_history_iff :
    (h : Identities) (w : PostMatchWorkflow) (events : List PostMatchWorkflowEvent)
    → (check_history h w events ≡ ok tt)
      ↔ ((1 ≤ length events) × (length events ≤ 6) × (events ≡ canonical h w (length events)))
unfolding check_history
check_history_iff h w events = (
  λ passed.
      let a = bind_ok (raise_if (is_empty events) other_exception) _ passed in
      let full = raise_if-ok (is_empty events) other_exception (a.1) in
      let rest = check_events-canonical h w events 0 (omega arith) (a.2) in
      let short = rest.0 in (nonempty events full, omega arith, rest.1),
  λ (some_event, short, same). rw (not_empty events some_event) (
      subst (λ es. check_events h w none es ≡ ok tt) (sym same)
        (check_events-span h w (length events) 0 (omega arith))),
)
