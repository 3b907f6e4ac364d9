-- ===== src/Chronology/Admission.antt =====
-- src/pl_platform/features/chronology.py: which fixtures are given batches.
use ai_powered_premier_leagu.Prelude.{
  ℕ, ◌≡◌, refl, ◌∙◌, Bool, true, false, not, ◌&&◌, List, [], ◌∷◌, map, mem, unique, all, Result, ok,
  err, ◌>>=◌, Bool-cases, inl, inr, arith,
}
use ai_powered_premier_leagu.Fixtures.{Fixture}
use ai_powered_premier_leagu.Chronology.{
  FixtureBatch, Calendar, ChronologyError, admit, chronological_fixture_batches,
  fixture_competition_date, id_of, is_premier_league,
}

abbrev pub returns {ℓ} : {Val : Type ℓ} → Result ChronologyError Val → Bool
returns (err raised) = false
returns (ok value) = true

abbrev pub is_supported : Fixture → Bool
is_supported f = is_premier_league f.competition_id

-- No fixture has an identifier of `seen`.
abbrev avoids : List ℕ → List Fixture → Bool
avoids seen fixtures = all (λ f. not (mem f.id seen)) fixtures

avoids-cons :
    (id : ℕ) (seen : List ℕ) (fixtures : List Fixture)
    → avoids (id ∷ seen) fixtures ≡ (not (mem id (map id_of fixtures)) && avoids seen fixtures)
avoids-cons id seen [] = refl
avoids-cons id seen (f ∷ fixtures) = ground (arith, avoids-cons id seen fixtures)

avoids-nil : (fixtures : List Fixture) → avoids [] fixtures ≡ true
avoids-nil [] = refl
avoids-nil (f ∷ fixtures) = avoids-nil fixtures

admit-returns :
    (calendar : Calendar) (seen : List ℕ) (fixtures : List Fixture)
    → returns (admit calendar seen fixtures)
      ≡ (all is_supported fixtures && unique (map id_of fixtures) && avoids seen fixtures)
unfolding admit fixture_competition_date
admit-returns calendar seen [] = refl
admit-returns calendar seen (f ∷ fixtures) = elim (Bool-cases (mem f.id seen)) [
  | inl old ↦ rw (old) (ground arith)
  | inr new ↦ elim (Bool-cases (is_premier_league f.competition_id)) [
    | inl ours ↦
        rw (new, ours)
          (admit-returns calendar (f.id ∷ seen) fixtures
            ∙ ground (arith, avoids-cons f.id seen fixtures))
    | inr other ↦ rw (new, other) refl
  ]
]

through :
    (step : Result ChronologyError (Unit {0})) (value : List FixtureBatch)
    → returns (step >>= λ done. ok value) ≡ returns step
through (err raised) value = refl
through (ok done) value = refl

-- There are batches exactly when every fixture is of the Premier League and no fixture occurs
-- twice; otherwise an error is raised.
pub chronological_fixture_batches-returns :
    (calendar : Calendar) (fixtures : List Fixture)
    → returns (chronological_fixture_batches calendar fixtures)
      ≡ (all is_supported fixtures && unique (map id_of fixtures))
unfolding chronological_fixture_batches
chronological_fixture_batches-returns calendar fixtures =
    let admitted = admit-returns calendar [] fixtures in
    let nothing = avoids-nil fixtures in through (admit calendar [] fixtures) _ ∙ ground arith
