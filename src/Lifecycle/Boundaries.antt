-- ===== src/Lifecycle/Boundaries.antt =====
-- src/pl_platform/prediction/lifecycle.py: the results that a feature row is computed from.
use mathlib.Core.List.{Permᴰ}
use ai_powered_premier_leagu.Prelude.{
  sort_by, sort_by-perm, ℕ, ◌≡◌, ◌<◌, if◌then◌else◌, leb, ltb, refl, sym, ap, ◌∙◌, subst, Bool,
  true, false, ◌&&◌, inl, inr, Bool-cases, Option, none, some, List, [], ◌∷◌, map, unique, filter,
  all, all-append, all-sort_by, Result, ok, err, ◌>>=◌, raise_if, bind_ok, arith,
}
use ai_powered_premier_leagu.Fixtures.{Fixture}
use ai_powered_premier_leagu.Chronology.{
  Calendar, FixtureBatch, ChronologyError, chronological_fixture_batches, kickoff_of, id_of,
}
use ai_powered_premier_leagu.Chronology.Admission.{returns, chronological_fixture_batches-returns}
use ai_powered_premier_leagu.Chronology.Ordered.{
  IsMonotone, is_ordered, chronological_fixture_batches-all, chronological_fixture_batches-ordered,
}
use ai_powered_premier_leagu.Lifecycle.{
  LifecycleFailure, lifecycle_error, chronology_violation, CurrentFixtureEvidence,
  CompletedResultEvidence, fixture_of, is_known, first_index, last_index, key_required, any_late,
  index_required, batches_or_error, in_order, combined, relevant_results,
}
use ai_powered_premier_leagu.Lifecycle.Places.{is_same, before_index, same_each, all-imply, all-map}

-- A step of the search for a late result that found none.
late_step :
    (place : Option ℕ) (upcoming : ℕ) (rest : Result LifecycleFailure Bool)
    → (key_required place >>= λ index. if leb upcoming index then ok true else rest) ≡ ok false
    → (index : ℕ) × (place ≡ some index) × (index < upcoming) × (rest ≡ ok false)
late_step none upcoming rest none_late = cc
late_step (some index) upcoming rest none_late = elim (Bool-cases (leb upcoming index)) [
  | inl late ↦ absurd (let never = sym none_late ∙ ap (λ t. if t then ok true else rest) late in cc)
  | inr early ↦
      (index, refl, ground arith, sym (ap (λ t. if t then ok true else rest) early) ∙ none_late)
]

module _ (e : CurrentFixtureEvidence) (batches : List FixtureBatch) where
  abbrev is_located : CompletedResultEvidence → Bool
  is_located r = all (λ b. all (is_same r.fixture.id (kickoff_of r.fixture)) b.fixtures) batches

  known_before :
      (upcoming : ℕ) (known : List CompletedResultEvidence)
      → first_index e.fixture.id 0 batches ≡ some upcoming
      → is_ordered batches ≡ true
      → all (λ b. all (is_same e.fixture.id (kickoff_of e.fixture)) b.fixtures) batches ≡ true
      → all is_located known ≡ true
      → any_late batches upcoming known ≡ ok false
      → all (λ r. ltb (kickoff_of r.fixture) (kickoff_of e.fixture)) known ≡ true
  unfolding any_late
  known_before upcoming [] found ordered theirs mine none_late = refl
  known_before upcoming (r ∷ known) found ordered theirs mine none_late =
      let step =
        late_step (last_index r.fixture.id 0 batches) upcoming (any_late batches upcoming known)
          none_late in
      let first =
        before_index r.fixture.id (kickoff_of r.fixture) e.fixture.id (kickoff_of e.fixture) batches
          0 (step.0) upcoming (step.1) found (step.2) ordered (ground arith) theirs in
      let rest = known_before upcoming known found ordered theirs (ground arith) (step.3) in
      ground arith

batches_or_error-ok :
    (made : Result ChronologyError (List FixtureBatch)) (batches : List FixtureBatch)
    → batches_or_error made ≡ ok batches
    → made ≡ ok batches
batches_or_error-ok (err raised) batches is = cc
batches_or_error-ok (ok bs) batches is = let same : bs ≡ batches = cc in ap ok same

index_required-ok :
    (place : Option ℕ) (index : ℕ) → index_required place ≡ ok index → place ≡ some index
index_required-ok none index is = cc
index_required-ok (some found) index is = let same : found ≡ index = cc in ap some same

raise_if-ok :
    (test : Bool) (raised : LifecycleFailure) {done : Unit {0}}
    → raise_if test raised ≡ ok done
    → test ≡ false
raise_if-ok true raised passed = cc
raise_if-ok false raised passed = refl

filter-all :
    (p : CompletedResultEvidence → Bool) (xs : List CompletedResultEvidence)
    → all p (filter p xs) ≡ true
filter-all p [] = refl
filter-all p (x ∷ xs) = ground (arith, filter-all p xs)

all-pair :
    (p q : CompletedResultEvidence → Bool) (xs : List CompletedResultEvidence)
    → all p xs ≡ true
    → all q xs ≡ true
    → all (λ r. p r && q r) xs ≡ true
all-pair p q [] first second = refl
all-pair p q (x ∷ xs) first second = ground (arith, all-pair p q xs)

-- A result that was known at the fixture's boundary, of a match that kicked off before it.
abbrev pub precedes : CurrentFixtureEvidence → CompletedResultEvidence → Bool
precedes e r = is_known e r && ltb (kickoff_of r.fixture) (kickoff_of e.fixture)

module _ (calendar : Calendar) (monotone : IsMonotone calendar) (e : CurrentFixtureEvidence)
    (known : List CompletedResultEvidence) (batches : List FixtureBatch)
    (made : chronological_fixture_batches calendar (combined e known) ≡ ok batches) where
  ids_apart : unique (map id_of (combined e known)) ≡ true
  ids_apart =
      let accepted =
        sym (chronological_fixture_batches-returns calendar (combined e known)) ∙ ap returns made in
      ground arith

  located :
      (f : Fixture)
      → all (is_same f.id (kickoff_of f)) (combined e known) ≡ true
      → all (λ b. all (is_same f.id (kickoff_of f)) b.fixtures) batches ≡ true
  located f same =
      chronological_fixture_batches-all calendar monotone (is_same f.id (kickoff_of f))
        (combined e known) batches made same

  abbrev is_alone : Fixture → Bool
  is_alone f = all (is_same f.id (kickoff_of f)) (combined e known)

  alone : all (λ r. is_alone r.fixture) known && is_alone e.fixture ≡ true
  alone =
      let each = same_each (combined e known) ids_apart in
      let parts = all-append is_alone (map fixture_of known) (e.fixture ∷ []) in
      let mapped = all-map is_alone known in ground arith

  all_before_kickoff :
      (upcoming : ℕ)
      → first_index e.fixture.id 0 batches ≡ some upcoming
      → any_late batches upcoming known ≡ ok false
      → all (λ r. ltb (kickoff_of r.fixture) (kickoff_of e.fixture)) known ≡ true
  all_before_kickoff upcoming found none_late =
      let both = alone in
      known_before e batches upcoming known found
        (chronological_fixture_batches-ordered calendar monotone (combined e known) batches made)
        (located e.fixture (ground arith))
        (all-imply (λ r. is_alone r.fixture) (is_located e batches)
          (λ r lone. located r.fixture lone) known (ground arith))
        none_late

-- With a calendar on which a later moment is not on an earlier date, the results that a feature row
-- is computed from are just those that were retrieved by the fixture's knowledge boundary, and each
-- is of a match that kicked off before the fixture does.
pub relevant_results-precedes :
    (calendar : Calendar) (e : CurrentFixtureEvidence)
    (results relevant : List CompletedResultEvidence)
    → IsMonotone calendar
    → relevant_results calendar e results ≡ ok relevant
    → (all (precedes e) relevant ≡ true) × Permᴰ relevant (filter (is_known e) results)
unfolding relevant_results
relevant_results-precedes calendar e results relevant monotone got =
    let known = filter (is_known e) results in
    let a =
      bind_ok (batches_or_error (chronological_fixture_batches calendar (combined e known))) _
        got in
    let batches = a.0 in
    let b = bind_ok (index_required (first_index e.fixture.id 0 batches)) _ (a.2) in
    let c = bind_ok (any_late batches (b.0) known) _ (b.2) in
    let d = bind_ok (raise_if (c.0) (lifecycle_error chronology_violation)) _ (c.2) in
    let none_late = c.1 ∙ ap ok (raise_if-ok (c.0) (lifecycle_error chronology_violation) (d.1)) in
    let same : in_order known ≡ relevant = cc in
    let early =
      all_before_kickoff calendar monotone e known batches (batches_or_error-ok _ batches (a.1))
        (b.0) (index_required-ok _ (b.0) (b.1)) none_late in
    let whole =
      all-pair (is_known e) (λ r. ltb (kickoff_of r.fixture) (kickoff_of e.fixture)) known
        (filter-all (is_known e) results) early in
    let by_id = sort_by (λ (r : CompletedResultEvidence). r.fixture.id) known in
    (
      subst (λ rs. all (precedes e) rs ≡ true) same
          (all-sort_by (λ (r : CompletedResultEvidence). kickoff_of r.fixture) (precedes e) by_id
            ∙ all-sort_by (λ (r : CompletedResultEvidence). r.fixture.id) (precedes e) known
            ∙ whole),
      subst (λ rs. Permᴰ rs known) same
          (Permᴰ.trans (sort_by-perm (λ (r : CompletedResultEvidence). kickoff_of r.fixture) by_id)
            (sort_by-perm (λ (r : CompletedResultEvidence). r.fixture.id) known)),
    )
