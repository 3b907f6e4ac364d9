-- ===== src/Chronology/Cutoffs.antt =====
-- src/pl_platform/features/chronology.py: the cutoffs of the batches.
use ai_powered_premier_leagu.Prelude.{
  ℕ, ◌==◌, ◌≡◌, ◌≤◌, ltb, refl, ap, ◌∙◌, Bool, true, false, not, ◌&&◌, inl, inr, List, [], ◌∷◌, map,
  all, All, filter, all-append, all-sort_by, ok, bind_ok, Bool-cases, arith, if◌then◌else◌, subst,
  ==→eq,
}
use ai_powered_premier_leagu.Fixtures.{Fixture, is_date_only}
use ai_powered_premier_leagu.Grouping.{Group, items, group_by}
use ai_powered_premier_leagu.Grouping.Laws.{Holds, group_by-Holds}
use ai_powered_premier_leagu.Chronology.{
  FixtureBatch, Calendar, admit, sorted_groups, exact_batch, date_only_batch, has_date_only,
  batches_of_date, batches_of_dates, chronological_fixture_batches, key_of, id_of, kickoff_of,
  date_of_fixture, before_date,
}

-- What the program relies on of the calendar: a date starts no later than each of its moments.
pub record IsCalendar (calendar : Calendar) : Type 0 where
  pub starts_before : (k : ℕ) → calendar.start_of (calendar.date_of k) ≤ k

-- The date of the fixture starts after the first moment there is, so that a cutoff is before it.
abbrev pub has_time_before : Calendar → Fixture → Bool
has_time_before calendar f = ltb 0 (calendar.start_of (date_of_fixture calendar f))

-- A batch whose fixtures may not know each other's results: one with an unknown kickoff is cut off
-- before each kickoff, and else each kickoff is known and is the cutoff itself.
abbrev pub is_safe_for : FixtureBatch → Fixture → Bool
is_safe_for b f =
    if b.is_date_only_batch
    then ltb b.feature_cutoff_at (kickoff_of f)
    else (kickoff_of f == b.feature_cutoff_at) && not (is_date_only f.kickoff_precision)

abbrev pub is_safe : FixtureBatch → Bool
is_safe b = all (is_safe_for b) b.fixtures

pub ==-same : (n : ℕ) → (n == n) ≡ true
==-same n = ground arith

all-filter :
    (p q : Fixture → Bool) (xs : List Fixture) → all p xs ≡ true → all p (filter q xs) ≡ true
all-filter p q [] h = refl
all-filter p q (x ∷ xs) h = ground (arith, all-filter p q xs)

filter-all : (p : Fixture → Bool) (xs : List Fixture) → all p (filter p xs) ≡ true
filter-all p [] = refl
filter-all p (x ∷ xs) = ground (arith, filter-all p xs)

module _ (key : Fixture → ℕ) where
  abbrev pub has_its_key : Group ℕ Fixture → Bool
  has_its_key g = all (λ f. key f == g.key) (items g)

  Holds-keys :
      (xs : List Fixture) (gs : List (Group ℕ Fixture))
      → All (Holds ◌==◌ key (λ k. ==-same k) ==→eq xs) gs
      → all has_its_key gs ≡ true
  Holds-keys xs [] h = refl
  Holds-keys xs (g ∷ gs) h =
      let mine = ap (all (λ f. key f == g.key)) (h.0) ∙ filter-all (λ f. key f == g.key) xs in
      ground (arith, Holds-keys xs gs (h.1))

  Holds-all :
      (p : Fixture → Bool) (xs : List Fixture) (gs : List (Group ℕ Fixture))
      → all p xs ≡ true
      → All (Holds ◌==◌ key (λ k. ==-same k) ==→eq xs) gs
      → all (λ g. all p (items g)) gs ≡ true
  Holds-all p xs [] whole h = refl
  Holds-all p xs (g ∷ gs) whole h =
      let mine = ap (all p) (h.0) ∙ all-filter p (λ f. key f == g.key) xs whole in
      ground (arith, Holds-all p xs gs whole (h.1))

  pub sorted_groups-keys : (xs : List Fixture) → all has_its_key (sorted_groups key xs) ≡ true
  sorted_groups-keys xs =
      all-sort_by key_of has_its_key (group_by ◌==◌ key xs)
      ∙ Holds-keys xs (group_by ◌==◌ key xs) (group_by-Holds ◌==◌ key (λ k. ==-same k) ==→eq xs)

  pub sorted_groups-all :
      (p : Fixture → Bool) (xs : List Fixture)
      → all p xs ≡ true
      → all (λ g. all p (items g)) (sorted_groups key xs) ≡ true
  sorted_groups-all p xs whole =
      all-sort_by key_of (λ g. all p (items g)) (group_by ◌==◌ key xs)
      ∙ Holds-all p xs (group_by ◌==◌ key xs) whole
          (group_by-Holds ◌==◌ key (λ k. ==-same k) ==→eq xs)

abbrev is_exact : Fixture → Bool
is_exact f = not (is_date_only f.kickoff_precision)

any-not : (xs : List Fixture) → has_date_only xs ≡ false → all is_exact xs ≡ true
any-not [] h = refl
any-not (x ∷ xs) h = ground (arith, any-not xs)

pub all-both :
    (p q : Fixture → Bool) (xs : List Fixture)
    → all p xs ≡ true
    → all q xs ≡ true
    → all (λ f. p f && q f) xs ≡ true
all-both p q [] h k = refl
all-both p q (x ∷ xs) h k = ground (arith, all-both p q xs)

exact-safe :
    (gs : List (Group ℕ Fixture))
    → all (has_its_key kickoff_of) gs ≡ true
    → all (λ g. all is_exact (items g)) gs ≡ true
    → all is_safe (map exact_batch gs) ≡ true
exact-safe [] h k = refl
exact-safe (g ∷ gs) h k =
    let keys : all (λ f. kickoff_of f == g.key) (items g) ≡ true = ground arith in
    let exacts : all is_exact (items g) ≡ true = ground arith in
    let mine =
      all-sort_by id_of (is_safe_for (exact_batch g)) (items g)
      ∙ all-both (λ f. kickoff_of f == g.key) is_exact (items g) keys exacts in
    ground (arith, exact-safe gs)

module _ (calendar : Calendar) (lawful : IsCalendar calendar) where
  before-kickoffs :
      (date : ℕ) (xs : List Fixture)
      → all (λ f. date_of_fixture calendar f == date) xs ≡ true
      → all (has_time_before calendar) xs ≡ true
      → all (λ f. ltb (before_date calendar date) (kickoff_of f)) xs ≡ true
  before-kickoffs date [] h room = refl
  before-kickoffs date (x ∷ xs) h room =
      let same = ==→eq (date_of_fixture calendar x) date (ground arith) in
      let early = lawful.starts_before (kickoff_of x) in
      let late : has_time_before calendar x ≡ true = ground arith in
      let start = ap calendar.start_of same in ground (arith, before-kickoffs date xs)

  batches_of_date-safe :
      (g : Group ℕ Fixture)
      → has_its_key (date_of_fixture calendar) g ≡ true
      → all (has_time_before calendar) (items g) ≡ true
      → all is_safe (batches_of_date calendar g) ≡ true
  unfolding batches_of_date
  batches_of_date-safe g keyed room = elim (Bool-cases (has_date_only (items g))) [
    | inl some_date_only ↦
        let mine =
          all-sort_by id_of (is_safe_for (date_only_batch calendar g)) (items g)
          ∙ before-kickoffs g.key (items g) keyed room in
        rw (some_date_only) (ground arith)
    | inr all_exact ↦ rw (all_exact) (
        exact-safe (sorted_groups kickoff_of (items g)) (sorted_groups-keys kickoff_of (items g))
          (sorted_groups-all kickoff_of is_exact (items g) (any-not (items g) all_exact)))
  ]

  batches_of_dates-safe :
      (gs : List (Group ℕ Fixture))
      → all (has_its_key (date_of_fixture calendar)) gs ≡ true
      → all (λ g. all (has_time_before calendar) (items g)) gs ≡ true
      → all is_safe (batches_of_dates calendar gs) ≡ true
  unfolding batches_of_dates
  batches_of_dates-safe [] h room = refl
  batches_of_dates-safe (g ∷ gs) h room =
      let first : has_its_key (date_of_fixture calendar) g ≡ true = ground arith in
      let after : all (has_time_before calendar) (items g) ≡ true = ground arith in
      let mine = batches_of_date-safe g first after in
      all-append is_safe (batches_of_date calendar g) (batches_of_dates calendar gs)
      ∙ ground (arith, batches_of_dates-safe gs)

  -- With a calendar whose dates start no later than their moments, and fixtures whose dates start
  -- after the first moment there is, every batch is safe: a date-only batch is cut off strictly before each of its kickoffs, and in any other batch each kickoff is
  -- exact and is the cutoff.
  pub chronological_fixture_batches-safe :
      (fixtures : List Fixture) (batches : List FixtureBatch)
      → all (has_time_before calendar) fixtures ≡ true
      → chronological_fixture_batches calendar fixtures ≡ ok batches
      → all is_safe batches ≡ true
  unfolding chronological_fixture_batches
  chronological_fixture_batches-safe fixtures batches room made =
      let checked = bind_ok (admit calendar [] fixtures) _ made in
      let dates = sorted_groups (date_of_fixture calendar) fixtures in
      let same : batches_of_dates calendar dates ≡ batches = cc in
      subst (λ bs. all is_safe bs ≡ true) same
        (batches_of_dates-safe dates (sorted_groups-keys (date_of_fixture calendar) fixtures)
          (sorted_groups-all (date_of_fixture calendar) (has_time_before calendar) fixtures room))
