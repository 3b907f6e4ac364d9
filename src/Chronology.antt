-- ===== src/Chronology.antt =====
-- src/pl_platform/features/chronology.py: fixtures in batches that may not see each other's results.
-- The two conversions between UTC and the calendar of Europe/London come from zoneinfo and are
-- arguments; a date is its number of days.
pub mod Batches
pub mod Cutoffs
pub mod Admission
pub mod Rising
pub mod Ordered
mod Tests
use Prim.Native.Nat.{Ordering}
use Prim.Native.String.{String, compare}
use ai_powered_premier_leagu.Prelude.{
  ℕ, ◌-◌, ◌==◌, Bool, true, false, not, Option, none, some, List, [], ◌∷◌, ◌++◌, map, mem, any,
  sort_by, Result, ok, err, ◌>>=◌, ◌>>◌, raise_if, if◌then◌else◌,
}
use ai_powered_premier_leagu.Fixtures.{Fixture, is_date_only}
use ai_powered_premier_leagu.Grouping.{Group, items, group_by}

pub data ChronologyError : Type 0 where
  repeated_fixture : ℕ → ChronologyError
  unsupported_competition : String → ChronologyError

pub record FixtureBatch : Type 0 where
  pub feature_cutoff_at : ℕ
  pub fixtures : List Fixture
  pub is_date_only_batch : Bool

-- The calendar date of a moment, and the first moment of a calendar date.
pub record Calendar : Type 0 where
  pub date_of : ℕ → ℕ
  pub start_of : ℕ → ℕ

abbrev pub is_premier_league : String → Bool
is_premier_league competition = elim (compare competition "eng-premier-league") [
  | Ordering.eq ↦ true
  | _ ↦ false
]

-- `_before_date`: one microsecond before the date starts.
abbrev pub before_date : Calendar → ℕ → ℕ
before_date calendar date = calendar.start_of date - 1

abbrev pub kickoff_of : Fixture → ℕ
kickoff_of fixture = fixture.kickoff_at.instant

abbrev pub date_of_fixture : Calendar → Fixture → ℕ
date_of_fixture calendar fixture = calendar.date_of (kickoff_of fixture)

-- `fixture_competition_date`
unfoldable pub fixture_competition_date : Calendar → Fixture → Result ChronologyError ℕ
fixture_competition_date calendar fixture =
    if is_premier_league fixture.competition_id
    then ok (date_of_fixture calendar fixture)
    else err (unsupported_competition fixture.competition_id)

-- The first loop, up to the error that it raises: `seen` is `fixture_ids`.
unfoldable pub admit : Calendar → List ℕ → List Fixture → Result ChronologyError (Unit {0})
admit calendar seen [] = ok tt
admit calendar seen (fixture ∷ fixtures) = do
  _ ← raise_if (mem fixture.id seen) (repeated_fixture fixture.id)
  _ ← fixture_competition_date calendar fixture
  admit calendar (fixture.id ∷ seen) fixtures

abbrev pub id_of : Fixture → ℕ
id_of fixture = fixture.id

abbrev pub key_of : Group ℕ Fixture → ℕ
key_of g = g.key

-- `groups[key(fixture)].append(fixture)`, read in the order of `sorted(groups)`.
abbrev pub sorted_groups : (Fixture → ℕ) → List Fixture → List (Group ℕ Fixture)
sorted_groups key fixtures = sort_by key_of (group_by ◌==◌ key fixtures)

abbrev pub exact_batch : Group ℕ Fixture → FixtureBatch
exact_batch g = record {
  feature_cutoff_at = g.key;
  fixtures = sort_by id_of (items g);
  is_date_only_batch = false;
}

abbrev pub date_only_batch : Calendar → Group ℕ Fixture → FixtureBatch
date_only_batch calendar g = record {
  feature_cutoff_at = before_date calendar g.key;
  fixtures = sort_by id_of (items g);
  is_date_only_batch = true;
}

abbrev pub has_date_only : List Fixture → Bool
has_date_only fixtures = any (λ (f : Fixture). is_date_only f.kickoff_precision) fixtures

-- The body of the loop over the dates.
unfoldable pub batches_of_date : Calendar → Group ℕ Fixture → List FixtureBatch
batches_of_date calendar g =
    if has_date_only (items g)
    then date_only_batch calendar g ∷ []
    else map exact_batch (sorted_groups kickoff_of (items g))

unfoldable pub batches_of_dates : Calendar → List (Group ℕ Fixture) → List FixtureBatch
batches_of_dates calendar [] = []
batches_of_dates calendar (g ∷ gs) = batches_of_date calendar g ++ batches_of_dates calendar gs

unfoldable pub chronological_fixture_batches :
    Calendar → List Fixture → Result ChronologyError (List FixtureBatch)
chronological_fixture_batches calendar fixtures = do
  _ ← admit calendar [] fixtures
  ok (batches_of_dates calendar (sorted_groups (date_of_fixture calendar) fixtures))
