-- ===== src/Workflow/Composed.antt =====
-- src/pl_platform/prediction/workflow.py: which children are composed.
use ai_powered_premier_leagu.Prelude.{
  ℕ, ◌==◌, ◌≡◌, refl, sym, ap, ◌∙◌, Bool, true, false, not, ◌&&◌, inl, inr, Bool-cases, List, [],
  ◌∷◌, map, any, unique, sort, sort_by, IsRising, map-sort_by, sort_by-IsRising, sort-IsRising,
  unique-sort, any-sort_by, ok, err, if◌then◌else◌, leb, insert_by, raise_if, subst, arith,
}
use ai_powered_premier_leagu.Workflow.{
  WorkflowChildReference, Identities, workflow_error, other_exception, payload_mismatch,
}
use ai_powered_premier_leagu.Workflow.Journal.{is_changed}
use ai_powered_premier_leagu.Workflow.Canonical.{==-refl}
use ai_powered_premier_leagu.Workflow.Manifest.{
  CompletedPredictionEvaluation, TeamStateAdvancement, PredictionRegeneration,
  SimulationRegeneration, PostMatchWorkflowPayload, sealed_season, evaluation_reference,
  regeneration_reference, reference_id, evaluation_id, regeneration_id, same_reference,
  same_evaluation, same_regeneration, same_all, is_without, is_disordered, check_manifest,
  check_payload, composed, compose_post_match_workflow,
}

same_all_refl :
    {A : Type 0} (same : A → A → Bool)
    → ((a : A) → same a a ≡ true)
    → (xs : List A) → same_all same xs xs ≡ true
same_all_refl same own [] = refl
same_all_refl same own (x ∷ xs) = rw (own x, same_all_refl same own xs) refl

same_reference_refl : (r : WorkflowChildReference) → same_reference r r ≡ true
same_reference_refl r = rw (==-refl r.id, ==-refl r.identity_sha256) refl

same_evaluation_refl : (e : CompletedPredictionEvaluation) → same_evaluation e e ≡ true
same_evaluation_refl e = rw (==-refl e.id, ==-refl e.identity_sha256, ==-refl e.season_id) refl

same_regeneration_refl : (r : PredictionRegeneration) → same_regeneration r r ≡ true
same_regeneration_refl r =
    rw (==-refl r.id, ==-refl r.identity_sha256, ==-refl r.season_id, ==-refl r.advancement_id) refl

IsRising-keys :
    {A : Type 0} (key : A → ℕ) (xs : List A) → IsRising (λ n. n) (map key xs) → IsRising key xs
IsRising-keys key [] up = tt
IsRising-keys key (x ∷ []) up = tt
IsRising-keys key (x ∷ y ∷ ys) up = (up.0, IsRising-keys key (y ∷ ys) (up.1))

-- Children of a kind: their identifiers, and their references.
module _ {A : Type 0} (key : A → ℕ) (ref : A → WorkflowChildReference)
    (keyed : (a : A) → reference_id (ref a) ≡ key a) where
  sorted-IsRising : (xs : List A) → unique (map key xs) ≡ true → IsRising key (sort_by key xs)
  sorted-IsRising xs apart =
      IsRising-keys key (sort_by key xs)
        (subst (IsRising (λ n. n)) (sym (map-sort_by key xs)) (sort-IsRising (map key xs) apart))

  pub sorted_twice :
      (xs : List A) → unique (map key xs) ≡ true → sort_by key (sort_by key xs) ≡ sort_by key xs
  sorted_twice xs apart = sort_by-IsRising key (sort_by key xs) (sorted-IsRising xs apart)

  ids_of : (xs : List A) → map reference_id (map ref xs) ≡ map key xs
  ids_of [] = refl
  ids_of (x ∷ xs) = rw (keyed x, ids_of xs) refl

  ids_sorted : (xs : List A) → map reference_id (map ref (sort_by key xs)) ≡ sort (map key xs)
  ids_sorted xs = ids_of (sort_by key xs) ∙ map-sort_by key xs

  unique_refs :
      (xs : List A) → unique (map reference_id (map ref (sort_by key xs))) ≡ unique (map key xs)
  unique_refs xs = ap unique (ids_sorted xs) ∙ unique-sort (map key xs)

  pub ordered_refs :
      (xs : List A) → is_disordered (map ref (sort_by key xs)) ≡ not (unique (map key xs))
  ordered_refs xs = elim (Bool-cases (unique (map key xs))) [
    | inl apart ↦
        let refs = map ref (sort_by key xs) in
        let up =
          subst (IsRising (λ n. n)) (sym (ids_sorted xs)) (sort-IsRising (map key xs) apart) in
        rw
          (
            sort_by-IsRising reference_id refs (IsRising-keys reference_id refs up),
            same_all_refl same_reference same_reference_refl refs,
            unique_refs xs,
            apart,
          )
          refl
    | inr repeated ↦ let again = unique_refs xs ∙ repeated in rw (repeated) (ground arith)
  ]

  without_inserted : (x : A) (ys : List A) → is_without (map ref (insert_by key x ys)) ≡ false
  without_inserted x [] = refl
  without_inserted x (y ∷ ys) = elim (Bool-cases (leb (key x) (key y))) [
    | inl low ↦ rw (low) refl
    | inr high ↦ rw (high) refl
  ]

  pub without_sorted :
      (xs : List A) → is_without (map ref (sort_by key xs)) ≡ is_without (map ref xs)
  without_sorted [] = refl
  without_sorted (x ∷ xs) = without_inserted x (sort_by key xs)

-- What the manifest asks of the children: a season that is not sealed, an evaluation, and no child twice.
abbrev pub is_composable :
    List CompletedPredictionEvaluation → TeamStateAdvancement → List PredictionRegeneration → Bool
is_composable evaluations advancement predictions =
    not (advancement.season_id == sealed_season)
    && not (is_without (map evaluation_reference evaluations))
    && unique (map evaluation_id evaluations)
    && unique (map regeneration_id predictions)

-- What the payload asks of the children: the advancement applies just the evaluations, all are of its
-- season, and what is regenerated is of this advancement.
abbrev pub is_consistent :
    List CompletedPredictionEvaluation
    → TeamStateAdvancement
    → List PredictionRegeneration
    → SimulationRegeneration
    → Bool
is_consistent evaluations advancement predictions simulation =
    same_all ◌==◌ (sort advancement.applied) (sort (map evaluation_id evaluations))
    && not (any (λ e. not (e.season_id == advancement.season_id)) evaluations)
    && not (any (λ r. not (r.season_id == advancement.season_id)) predictions)
    && not (any (λ r. not (r.advancement_id == advancement.id)) predictions)
    && (simulation.advancement_id == advancement.id)
    && (simulation.season_id == advancement.season_id)

module _ (h : Identities) (es : List CompletedPredictionEvaluation) (a : TeamStateAdvancement)
    (rs : List PredictionRegeneration) (s : SimulationRegeneration) where
  abbrev whole : PostMatchWorkflowPayload
  whole = composed h (sort_by evaluation_id es) a (sort_by regeneration_id rs) s

  unchanged : is_changed h whole.workflow ≡ false
  unfolding is_changed
  unchanged = rw (==-refl whole.workflow.id, ==-refl whole.workflow.identity_sha256) refl

  manifest :
      check_manifest h whole.workflow ≡ raise_if (not (is_composable es a rs)) other_exception
  unfolding check_manifest
  manifest =
      rw
        (
          unchanged,
          without_sorted evaluation_id evaluation_reference (λ e. refl) es,
          ordered_refs evaluation_id evaluation_reference (λ e. refl) es,
          ordered_refs regeneration_id regeneration_reference (λ r. refl) rs,
        )
        (ground arith)

  sorted_ids :
      unique (map evaluation_id es) ≡ true
      → sort (map evaluation_id (sort_by evaluation_id es)) ≡ sort (map evaluation_id es)
  sorted_ids apart =
      ap sort (map-sort_by evaluation_id es)
      ∙ sort_by-IsRising (λ n. n) (sort (map evaluation_id es))
          (sort-IsRising (map evaluation_id es) apart)

  payload :
      unique (map evaluation_id es) ≡ true
      → unique (map regeneration_id rs) ≡ true
      → check_payload whole
        ≡ raise_if (not (is_consistent es a rs s)) (workflow_error payload_mismatch)
  unfolding check_payload
  payload apart also =
      rw
        (
          sorted_twice evaluation_id evaluation_reference (λ e. refl) es apart,
          sorted_twice regeneration_id regeneration_reference (λ r. refl) rs also,
          same_all_refl same_evaluation same_evaluation_refl (sort_by evaluation_id es),
          same_all_refl same_regeneration same_regeneration_refl (sort_by regeneration_id rs),
          same_all_refl same_reference same_reference_refl
              (map evaluation_reference (sort_by evaluation_id es)),
          same_all_refl same_reference same_reference_refl
              (map regeneration_reference (sort_by regeneration_id rs)),
          ==-refl a.id,
          ==-refl a.identity_sha256,
          ==-refl s.id,
          ==-refl s.identity_sha256,
          ==-refl a.season_id,
          sorted_ids apart,
          any-sort_by evaluation_id (λ e. not (e.season_id == a.season_id)) es,
          any-sort_by regeneration_id (λ r. not (r.season_id == a.season_id)) rs,
          any-sort_by regeneration_id (λ r. not (r.advancement_id == a.id)) rs,
        )
        (ground arith)

composable_ids :
    (es : List CompletedPredictionEvaluation) (a : TeamStateAdvancement)
    (rs : List PredictionRegeneration)
    → is_composable es a rs ≡ true
    → (unique (map evaluation_id es) ≡ true) × (unique (map regeneration_id rs) ≡ true)
composable_ids es a rs fit = (ground arith, ground arith)

-- Composing children sorts them and binds them in a manifest exactly if the season is not sealed, there
-- is an evaluation and no child occurs twice, which is else a ValidationError, and if they are
-- consistent: the advancement applies just the evaluations, the seasons agree, and what is
-- regenerated is of this advancement, which is else a payload mismatch.
pub compose_post_match_workflow_lem :
    (h : Identities) (es : List CompletedPredictionEvaluation) (a : TeamStateAdvancement)
    (rs : List PredictionRegeneration) (s : SimulationRegeneration)
    → compose_post_match_workflow h es a rs s ≡ (
        if is_composable es a rs
        then if is_consistent es a rs s
          then ok (composed h (sort_by evaluation_id es) a (sort_by regeneration_id rs) s)
          else err (workflow_error payload_mismatch)
        else err other_exception)
unfolding compose_post_match_workflow
compose_post_match_workflow_lem h es a rs s = elim (Bool-cases (is_composable es a rs)) [
  | inr unfit ↦ rw (manifest h es a rs s, unfit) refl
  | inl fit ↦
      let ids = composable_ids es a rs fit in
      rw (manifest h es a rs s, payload h es a rs s (ids.0) (ids.1), fit)
        (elim (Bool-cases (is_consistent es a rs s)) [
          | inl good ↦ rw (good) refl
          | inr bad ↦ rw (bad) refl
        ])
]
