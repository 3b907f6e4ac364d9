-- ===== src/Workflow/Loading.antt =====
-- src/pl_platform/persistence/post_match_workflow.py: the journal that holds the first events of a
-- workflow, read and appended to.
use ai_powered_premier_leagu.Prelude.{
  ℕ, zero, suc, ◌+◌, ◌==◌, ==→eq, Bool-cases, inl, inr, ◌≡◌, ◌≤◌, ◌<◌, refl, sym, ap, ◌∙◌, true,
  false, none, some, [], ◌∷◌, ◌++◌, ok, arith,
}
use ai_powered_premier_leagu.Workflow.{PostMatchWorkflow, Identities, check_history}
use ai_powered_premier_leagu.Workflow.Journal.{
  Database, WorkflowRow, workflow_row, same_row, is_changed, workflow_write_plan, event_at_sequence,
  collect_events, load, persist_workflow, persist_next, last_of,
}
use ai_powered_premier_leagu.Workflow.Canonical.{
  canonical_event, canonical, span, before, next_event-before, sequence-canonical_event,
  breaks_event-canonical, same_event_refl, ==-refl,
}
use ai_powered_premier_leagu.Workflow.Histories.{check_history_iff, length-span}

same_row_refl : (r : WorkflowRow) → same_row r r ≡ true
unfolding same_row
same_row_refl r =
    rw
      (
        ==-refl r.workflow_id,
        ==-refl r.identity_sha256,
        ==-refl r.workflow_object_sha256,
        ==-refl r.season_id,
        ==-refl r.evaluation_count,
        ==-refl r.evaluation_set_sha256,
        ==-refl r.advancement_id,
        ==-refl r.advancement_identity_sha256,
        ==-refl r.prediction_regeneration_count,
        ==-refl r.prediction_regeneration_set_sha256,
        ==-refl r.simulation_regeneration_id,
        ==-refl r.simulation_regeneration_identity_sha256,
      )
      refl

module _ (h : Identities) (w : PostMatchWorkflow) where
  -- The journal of the first `count` events; without an event there is no workflow either.
  unfoldable pub journal : ℕ → Database
  journal zero = record { manifest = none; events = [] }
  journal (suc n) = record { manifest = some (workflow_row h w); events = canonical h w (suc n) }

  event_at_sequence-before :
      (count start i : ℕ) → i < start → event_at_sequence i (span h w start count) ≡ none
  unfolding span
  event_at_sequence-before zero start i low = refl
  event_at_sequence-before (suc count) start i low =
      let other : ((canonical_event h w start).sequence == i) ≡ false =
        ap (λ n. n == i) (sequence-canonical_event h w start) ∙ ground arith in
      rw (other) (event_at_sequence-before count (start + 1) i (omega arith))

  event_at_sequence-after :
      (count start i : ℕ) → start + count ≤ i → event_at_sequence i (span h w start count) ≡ none
  unfolding span
  event_at_sequence-after zero start i high = refl
  event_at_sequence-after (suc count) start i high =
      let other : ((canonical_event h w start).sequence == i) ≡ false =
        ap (λ n. n == i) (sequence-canonical_event h w start) ∙ ground arith in
      rw (other) (event_at_sequence-after count (start + 1) i (omega arith))

  event_at_sequence-span :
      (count start i : ℕ)
      → start ≤ i
      → i < start + count
      → event_at_sequence i (span h w start count) ≡ some (canonical_event h w i)
  unfolding span
  event_at_sequence-span zero start i low high = absurd (omega arith)
  event_at_sequence-span (suc count) start i low high =
      let here = ap (λ n. n == i) (sequence-canonical_event h w start) in
      elim (Bool-cases (start == i)) [
        | inl same ↦ rw (here ∙ same) (ap (λ n. some (canonical_event h w n)) (==→eq start i same))
        | inr other ↦
            rw (here ∙ other)
              (event_at_sequence-span count (start + 1) i (ground arith) (ground arith))
      ]

  collect_events-gap :
      (count left start : ℕ)
      → count ≤ start
      → collect_events h (canonical h w count) left start true ≡ ok []
  unfolding collect_events
  collect_events-gap count zero start high = refl
  collect_events-gap count (suc left) start high =
      rw (event_at_sequence-after count 0 start (omega arith))
        (collect_events-gap count left (start + 1) (omega arith))

  collect_events-canonical :
      (count left start more : ℕ)
      → start + more ≡ count
      → more ≤ left
      → start + left ≡ 6
      → collect_events h (canonical h w count) left start false ≡ ok (span h w start more)
  unfolding collect_events span
  collect_events-canonical count zero start zero sum few six = refl
  collect_events-canonical count zero start (suc more) sum few six = absurd (omega arith)
  collect_events-canonical count (suc left) start zero sum few six =
      rw (event_at_sequence-after count 0 start (omega arith))
        (collect_events-gap count left (start + 1) (omega arith))
  collect_events-canonical count (suc left) start (suc more) sum few six =
      rw
        (
          event_at_sequence-span count 0 start (omega arith) (omega arith),
          breaks_event-canonical h w start (omega arith),
          collect_events-canonical count left (start + 1) more (omega arith) (omega arith)
              (omega arith),
        )
        refl

  span-snoc :
      (count start : ℕ)
      → span h w start (suc count)
        ≡ span h w start count ++ canonical_event h w (start + count) ∷ []
  unfolding span
  span-snoc zero start = ap (λ n. canonical_event h w n ∷ []) (omega arith)
  span-snoc (suc count) start =
      ap (λ es. canonical_event h w start ∷ es)
        (span-snoc count (start + 1)
          ∙ ap (λ n. span h w (start + 1) count ++ canonical_event h w n ∷ []) (omega arith))

  pub last_of-span :
      (count start : ℕ)
      → last_of (span h w start (suc count)) ≡ some (canonical_event h w (start + count))
  unfolding span
  last_of-span zero start = ap (λ n. some (canonical_event h w n)) (omega arith)
  last_of-span (suc count) start =
      last_of-span count (start + 1) ∙ ap (λ n. some (canonical_event h w n)) (omega arith)

  module _ (unchanged : is_changed h w ≡ false) where
    pub plan : workflow_write_plan h w ≡ ok (workflow_row h w, canonical_event h w 0)
    unfolding workflow_write_plan
    plan = rw (unchanged, next_event-before h w 0 (omega arith)) refl

    accepted : (n : ℕ) → n ≤ 5 → check_history h w (canonical h w (suc n)) ≡ ok tt
    accepted n low =
        let count = length-span h w (suc n) 0 in
        (check_history_iff h w (canonical h w (suc n))).1
          (omega arith, omega arith, ap (canonical h w) (sym count))

    pub load-journal_empty : load h w (journal 0) ≡ ok none
    unfolding load journal
    load-journal_empty = refl

    pub load-journal :
        (n : ℕ) → n ≤ 5 → load h w (journal (suc n)) ≡ ok (some (canonical h w (suc n)))
    unfolding load journal
    load-journal n low =
        rw
          (
            plan,
            same_row_refl (workflow_row h w),
            collect_events-canonical (suc n) 6 0 (suc n) (omega arith) (omega arith) (omega arith),
            accepted n low,
          )
          refl

    pub persist_workflow-journal : persist_workflow h w (journal 0) ≡ ok (journal 1)
    unfolding persist_workflow journal span
    persist_workflow-journal = rw (plan) refl

    pub persist_next-journal :
        (n : ℕ)
        → n ≤ 4
        → persist_next h w (canonical_event h w (suc n)) (journal (suc n))
          ≡ ok (journal (suc (suc n)))
    unfolding persist_next journal
    persist_next-journal n low =
        let e = canonical_event h w (suc n) in
        let last : last_of (canonical h w (suc n)) ≡ before h w (suc n) =
          last_of-span n 0 ∙ ap (λ k. some (canonical_event h w k)) (omega arith) in
        let free : event_at_sequence e.sequence (canonical h w (suc n)) ≡ none =
          ap (λ k. event_at_sequence k (canonical h w (suc n)))
            (sequence-canonical_event h w (suc n))
          ∙ event_at_sequence-after (suc n) 0 (suc n) (omega arith) in
        let grown : canonical h w (suc (suc n)) ≡ canonical h w (suc n) ++ e ∷ [] =
          span-snoc (suc n) 0
          ∙ ap (λ k. canonical h w (suc n) ++ canonical_event h w k ∷ []) (omega arith) in
        rw
          (
            load-journal n (omega arith),
            last,
            next_event-before h w (suc n) (omega arith),
            same_event_refl e,
            free,
            grown,
          )
          refl
