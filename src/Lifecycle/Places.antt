-- ===== src/Lifecycle/Places.antt =====
-- src/pl_platform/prediction/lifecycle.py: the places of fixtures in the batches.

use ai_powered_premier_leagu.Prelude.{
  ℕ, ◌+◌, ◌==◌, ◌≡◌, ◌≤◌, ◌<◌, ◌⊎◌, if◌then◌else◌, ltb, refl, sym, ap, ◌∙◌, Bool, true, false, not,
  ◌||◌, inl, inr, Bool-cases, Option, none, some, is_some, List, [], ◌∷◌, map, mem, unique, any,
  all, arith, ==→eq,
}
use ai_powered_premier_leagu.Fixtures.{Fixture}
use ai_powered_premier_leagu.Chronology.{FixtureBatch, kickoff_of, id_of}
use ai_powered_premier_leagu.Chronology.Cutoffs.{all-both}
use ai_powered_premier_leagu.Chronology.Ordered.{is_before, is_ordered}
use ai_powered_premier_leagu.Lifecycle.{
  CompletedResultEvidence, fixture_of, has_fixture, first_index, last_index,
}

-- The kickoff of a fixture is known by its identifier.
abbrev pub is_same : ℕ → ℕ → Fixture → Bool
is_same id kickoff f = not (f.id == id) || (kickoff_of f == kickoff)

pick :
    (id kickoff : ℕ) (P : ℕ → Bool) (fs : List Fixture)
    → all (λ f. P (kickoff_of f)) fs ≡ true
    → all (is_same id kickoff) fs ≡ true
    → any (λ f. f.id == id) fs ≡ true
    → P kickoff ≡ true
pick id kickoff P [] holds same here = cc
pick id kickoff P (f ∷ fs) holds same here = elim (Bool-cases (f.id == id)) [
  | inl found ↦ let at = ==→eq (kickoff_of f) kickoff (ground arith) in ap P (sym at) ∙ ground arith
  | inr other ↦ pick id kickoff P fs (ground arith) (ground arith) (ground arith)
]

-- A fixture of one batch is before one of a later batch.
before_in :
    (b c : FixtureBatch) (id kickoff other late : ℕ)
    → is_before b c ≡ true
    → all (is_same id kickoff) b.fixtures ≡ true
    → has_fixture id b ≡ true
    → all (is_same other late) c.fixtures ≡ true
    → has_fixture other c ≡ true
    → ltb kickoff late ≡ true
before_in b c id kickoff other late before mine here theirs there =
    pick other late (ltb kickoff) c.fixtures
      (pick id kickoff (λ k. all (λ g. ltb k (kickoff_of g)) c.fixtures) b.fixtures before mine
        here)
      theirs there

-- Which branch gave an index.
first_choice :
    (has : Bool) (rest : Option ℕ) (index found : ℕ)
    → (if has then some index else rest) ≡ some found
    → ((has ≡ true) × (index ≡ found)) ⊎ ((has ≡ false) × (rest ≡ some found))
first_choice true rest index found is = inl (refl, cc)
first_choice false rest index found is = inr (refl, is)

last_choice :
    (has : Bool) (rest : Option ℕ) (index found : ℕ)
    → (if is_some rest then rest else if has then some index else none) ≡ some found
    → (rest ≡ some found) ⊎ ((has ≡ true) × (index ≡ found))
last_choice has (some later) index found is = inl is
last_choice true none index found is = inr (refl, cc)
last_choice false none index found is = cc

last_index-ge :
    (id index found : ℕ) (bs : List FixtureBatch)
    → last_index id index bs ≡ some found
    → index ≤ found
last_index-ge id index found [] is = cc
last_index-ge id index found (b ∷ bs) is =
    elim (last_choice (has_fixture id b) (last_index id (index + 1) bs) index found is) [
      | inl later ↦ let more = last_index-ge id (index + 1) found bs later in omega arith
      | inr (here, same) ↦ omega arith
    ]

module _ (id kickoff other late : ℕ) where
  before_later :
      (b : FixtureBatch) (bs : List FixtureBatch) (index upcoming : ℕ)
      → first_index other index bs ≡ some upcoming
      → all (is_before b) bs ≡ true
      → all (is_same id kickoff) b.fixtures ≡ true
      → has_fixture id b ≡ true
      → all (λ c. all (is_same other late) c.fixtures) bs ≡ true
      → ltb kickoff late ≡ true
  before_later b [] index upcoming found before mine here theirs = cc
  before_later b (c ∷ bs) index upcoming found before mine here theirs =
      elim (first_choice (has_fixture other c) (first_index other (index + 1) bs) index upcoming
        found) [
          | inl (there, same) ↦
              before_in b c id kickoff other late (ground arith) mine here (ground arith) there
          | inr (absent, later) ↦
              before_later b bs (index + 1) upcoming later (ground arith) mine here (ground arith)
        ]

  -- In ordered batches an earlier index is an earlier kickoff.
  pub before_index :
      (bs : List FixtureBatch) (start index upcoming : ℕ)
      → last_index id start bs ≡ some index
      → first_index other start bs ≡ some upcoming
      → index < upcoming
      → is_ordered bs ≡ true
      → all (λ b. all (is_same id kickoff) b.fixtures) bs ≡ true
      → all (λ c. all (is_same other late) c.fixtures) bs ≡ true
      → ltb kickoff late ≡ true
  before_index [] start index upcoming mine theirs low ordered same also = cc
  before_index (b ∷ bs) start index upcoming mine theirs low ordered same also =
      elim (last_choice (has_fixture id b) (last_index id (start + 1) bs) start index mine) [
        | inl later ↦
            let more = last_index-ge id (start + 1) index bs later in
            elim (first_choice (has_fixture other b) (first_index other (start + 1) bs) start
              upcoming theirs) [
                | inl (there, at) ↦ absurd (omega arith)
                | inr (absent, found) ↦
                    before_index bs (start + 1) index upcoming later found low (ground arith)
                      (ground arith) (ground arith)
              ]
        | inr (here, at) ↦
            elim (first_choice (has_fixture other b) (first_index other (start + 1) bs) start
              upcoming theirs) [
                | inl (there, also_at) ↦ absurd (omega arith)
                | inr (absent, found) ↦
                    before_later b bs (start + 1) upcoming found (ground arith) (ground arith) here
                      (ground arith)
              ]
      ]

-- Fixtures that are different have different identifiers, so each is the only one of its own.
other_ids :
    (id kickoff : ℕ) (fs : List Fixture)
    → mem id (map id_of fs) ≡ false
    → all (is_same id kickoff) fs ≡ true
other_ids id kickoff [] absent = refl
other_ids id kickoff (f ∷ fs) absent = ground (arith, other_ids id kickoff fs)

ids_other :
    (f : Fixture) (fs : List Fixture)
    → mem f.id (map id_of fs) ≡ false
    → all (λ g. is_same g.id (kickoff_of g) f) fs ≡ true
ids_other f [] absent = refl
ids_other f (g ∷ fs) absent = ground (arith, ids_other f fs)

pub same_each :
    (fs : List Fixture)
    → unique (map id_of fs) ≡ true
    → all (λ f. all (is_same f.id (kickoff_of f)) fs) fs ≡ true
same_each [] apart = refl
same_each (f ∷ fs) apart =
    let own : (kickoff_of f == kickoff_of f) ≡ true = ground arith in
    let others = other_ids f.id (kickoff_of f) fs (ground arith) in
    let rest =
      all-both (λ g. is_same g.id (kickoff_of g) f) (λ g. all (is_same g.id (kickoff_of g)) fs) fs
        (ids_other f fs (ground arith)) (same_each fs (ground arith)) in
    ground arith

pub all-imply {ℓ} :
    {A : Type ℓ} (p q : A → Bool)
    → ((a : A) → p a ≡ true → q a ≡ true)
    → (xs : List A) → all p xs ≡ true
    → all q xs ≡ true
all-imply p q follows [] whole = refl
all-imply p q follows (x ∷ xs) whole =
    let first = follows x (ground arith) in ground (arith, all-imply p q follows xs)

pub all-map :
    (p : Fixture → Bool) (rs : List CompletedResultEvidence)
    → all p (map fixture_of rs) ≡ all (λ r. p r.fixture) rs
all-map p [] = refl
all-map p (r ∷ rs) = ground (arith, all-map p rs)
