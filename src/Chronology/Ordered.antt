-- ===== src/Chronology/Ordered.antt =====
-- src/pl_platform/features/chronology.py: the order of the batches.
use ai_powered_premier_leagu.Prelude.{
  ℕ, ◌==◌, ◌≡◌, ◌≤◌, ltb, refl, Bool, true, ◌&&◌, inl, inr, List, [], ◌∷◌, ◌++◌, map, all,
  all-append, all-sort_by, ok, bind_ok, Bool-cases, arith, subst,
}
use ai_powered_premier_leagu.Fixtures.{Fixture}
use ai_powered_premier_leagu.Grouping.{Group, items}
use ai_powered_premier_leagu.Chronology.{
  FixtureBatch, Calendar, admit, sorted_groups, exact_batch, has_date_only, batches_of_date,
  batches_of_dates, chronological_fixture_batches, id_of, kickoff_of, date_of_fixture,
}
use ai_powered_premier_leagu.Chronology.Cutoffs.{has_its_key, sorted_groups-all, sorted_groups-keys}
use ai_powered_premier_leagu.Chronology.Rising.{
  rises, sorted_groups-rises, exact-all, batches_of_date-all, batches_of_dates-all, groups_above,
}

-- Each kickoff of the one batch is before each kickoff of the other.
abbrev pub is_before : FixtureBatch → FixtureBatch → Bool
is_before b c = all (λ f. all (λ g. ltb (kickoff_of f) (kickoff_of g)) c.fixtures) b.fixtures

abbrev pub is_ordered : List FixtureBatch → Bool
is_ordered [] = true
is_ordered (b ∷ bs) = all (is_before b) bs && is_ordered bs

-- What the program relies on of the calendar: a later moment is not on an earlier date.
pub record IsMonotone (calendar : Calendar) : Type 0 where
  pub in_order : (k m : ℕ) → k ≤ m → calendar.date_of k ≤ calendar.date_of m

all_before :
    (a : ℕ) (f : Fixture) (gs : List Fixture)
    → kickoff_of f ≡ a
    → (p : Fixture → Bool) → ((g : Fixture) → p g ≡ true → ltb a (kickoff_of g) ≡ true)
    → all p gs ≡ true
    → all (λ g. ltb (kickoff_of f) (kickoff_of g)) gs ≡ true
all_before a f [] at p later whole = refl
all_before a f (g ∷ gs) at p later whole =
    let first = later g (ground arith) in ground (arith, all_before a f gs at p later)

-- If `q` puts a fixture after every fixture that `p` admits, one batch is before the other.
is_before-all :
    (p q : Fixture → Bool)
    → ((f g : Fixture) → p f ≡ true → q g ≡ true → ltb (kickoff_of f) (kickoff_of g) ≡ true)
    → (fs gs : List Fixture) → all p fs ≡ true
    → all q gs ≡ true
    → all (λ f. all (λ g. ltb (kickoff_of f) (kickoff_of g)) gs) fs ≡ true
is_before-all p q apart [] gs early late = refl
is_before-all p q apart (f ∷ fs) gs early late =
    let first =
      all_before (kickoff_of f) f gs refl q (λ g holds. apart f g (ground arith) holds) late in
    ground (arith, is_before-all p q apart fs gs)

before_each :
    (p q : Fixture → Bool)
    → ((f g : Fixture) → p f ≡ true → q g ≡ true → ltb (kickoff_of f) (kickoff_of g) ≡ true)
    → (b : FixtureBatch) (bs : List FixtureBatch) → all p b.fixtures ≡ true
    → all (λ c. all q c.fixtures) bs ≡ true
    → all (is_before b) bs ≡ true
before_each p q apart b [] early late = refl
before_each p q apart b (c ∷ bs) early late =
    let first = is_before-all p q apart b.fixtures c.fixtures early (ground arith) in
    ground (arith, before_each p q apart b bs early)

exact-ordered :
    (gs : List (Group ℕ Fixture))
    → rises gs ≡ true
    → all (has_its_key kickoff_of) gs ≡ true
    → is_ordered (map exact_batch gs) ≡ true
exact-ordered [] up keyed = refl
exact-ordered (g ∷ gs) up keyed =
    let later =
      exact-all (λ f. ltb g.key (kickoff_of f)) gs
        (groups_above kickoff_of g.key gs (ground arith) (ground arith)) in
    let mine = all-sort_by id_of (λ f. kickoff_of f == g.key) (items g) in
    let first =
      before_each (λ f. kickoff_of f == g.key) (λ f. ltb g.key (kickoff_of f))
        (λ f h early late. ground arith) (exact_batch g) (map exact_batch gs) (ground arith)
        later in
    ground (arith, exact-ordered gs)

ordered-append :
    (xs ys : List FixtureBatch)
    → is_ordered xs ≡ true
    → is_ordered ys ≡ true
    → all (λ b. all (is_before b) ys) xs ≡ true
    → is_ordered (xs ++ ys) ≡ true
ordered-append [] ys first second across = second
ordered-append (b ∷ xs) ys first second across =
    let joined = all-append (is_before b) xs ys in ground (arith, ordered-append xs ys)

batches_of_date-ordered :
    (calendar : Calendar) (g : Group ℕ Fixture) → is_ordered (batches_of_date calendar g) ≡ true
unfolding batches_of_date
batches_of_date-ordered calendar g = elim (Bool-cases (has_date_only (items g))) [
  | inl some_date_only ↦ rw (some_date_only) refl
  | inr all_exact ↦ rw (all_exact) (
      exact-ordered (sorted_groups kickoff_of (items g)) (sorted_groups-rises kickoff_of (items g))
        (sorted_groups-keys kickoff_of (items g)))
]

each_before :
    (p q : Fixture → Bool)
    → ((f g : Fixture) → p f ≡ true → q g ≡ true → ltb (kickoff_of f) (kickoff_of g) ≡ true)
    → (xs ys : List FixtureBatch) → all (λ b. all p b.fixtures) xs ≡ true
    → all (λ c. all q c.fixtures) ys ≡ true
    → all (λ b. all (is_before b) ys) xs ≡ true
each_before p q apart [] ys early late = refl
each_before p q apart (b ∷ xs) ys early late =
    let first = before_each p q apart b ys (ground arith) late in
    ground (arith, each_before p q apart xs ys)

module _ (calendar : Calendar) (monotone : IsMonotone calendar) where
  dates_apart :
      (k : ℕ) (f g : Fixture)
      → (date_of_fixture calendar f == k) ≡ true
      → ltb k (date_of_fixture calendar g) ≡ true
      → ltb (kickoff_of f) (kickoff_of g) ≡ true
  dates_apart k f g same above = elim (Bool-cases (ltb (kickoff_of f) (kickoff_of g))) [
    | inl before ↦ before
    | inr after ↦
        let order = monotone.in_order (kickoff_of g) (kickoff_of f) (ground arith) in
        absurd (ground arith)
  ]

  batches_of_dates-ordered :
      (gs : List (Group ℕ Fixture))
      → rises gs ≡ true
      → all (has_its_key (date_of_fixture calendar)) gs ≡ true
      → is_ordered (batches_of_dates calendar gs) ≡ true
  unfolding batches_of_dates
  batches_of_dates-ordered [] up keyed = refl
  batches_of_dates-ordered (g ∷ gs) up keyed =
      let date = date_of_fixture calendar in
      let mine = batches_of_date-all (λ f. date f == g.key) calendar g (ground arith) in
      let later =
        batches_of_dates-all (λ f. ltb g.key (date f)) calendar gs
          (groups_above date g.key gs (ground arith) (ground arith)) in
      ordered-append (batches_of_date calendar g) (batches_of_dates calendar gs)
        (batches_of_date-ordered calendar g)
        (batches_of_dates-ordered gs (ground arith) (ground arith))
        (each_before (λ f. date f == g.key) (λ f. ltb g.key (date f)) (dates_apart g.key)
          (batches_of_date calendar g) (batches_of_dates calendar gs) mine later)

  -- What holds of every fixture holds of every fixture of the batches.
  pub chronological_fixture_batches-all :
      (p : Fixture → Bool) (fixtures : List Fixture) (batches : List FixtureBatch)
      → chronological_fixture_batches calendar fixtures ≡ ok batches
      → all p fixtures ≡ true
      → all (λ b. all p b.fixtures) batches ≡ true
  unfolding chronological_fixture_batches
  chronological_fixture_batches-all p fixtures batches made whole =
      let checked = bind_ok (admit calendar [] fixtures) _ made in
      let dates = sorted_groups (date_of_fixture calendar) fixtures in
      let same : batches_of_dates calendar dates ≡ batches = cc in
      subst (λ bs. all (λ b. all p b.fixtures) bs ≡ true) same
        (batches_of_dates-all p calendar dates
          (sorted_groups-all (date_of_fixture calendar) p fixtures whole))

  -- With a calendar on which a later moment is not on an earlier date, the batches are in strict
  -- order of time: every kickoff of a batch is before every kickoff of each later batch.
  pub chronological_fixture_batches-ordered :
      (fixtures : List Fixture) (batches : List FixtureBatch)
      → chronological_fixture_batches calendar fixtures ≡ ok batches
      → is_ordered batches ≡ true
  unfolding chronological_fixture_batches
  chronological_fixture_batches-ordered fixtures batches made =
      let checked = bind_ok (admit calendar [] fixtures) _ made in
      let dates = sorted_groups (date_of_fixture calendar) fixtures in
      let same : batches_of_dates calendar dates ≡ batches = cc in
      subst (λ bs. is_ordered bs ≡ true) same
        (batches_of_dates-ordered dates (sorted_groups-rises (date_of_fixture calendar) fixtures)
          (sorted_groups-keys (date_of_fixture calendar) fixtures))
