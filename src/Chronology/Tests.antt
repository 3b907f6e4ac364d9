-- ===== src/Chronology/Tests.antt =====
-- Three fixtures on two dates, one of them without a kickoff time.
use mathlib.Core.List.{Permᴰ}
use ai_powered_premier_leagu.Prelude.{
  ◌&&◌, unique, map, ℕ, ◌*◌, ◌/◌, ◌≡◌, refl, true, false, all, none, List, [], ◌∷◌, ok, err, arith,
}
use ai_powered_premier_leagu.Datetimes.{utc}
use ai_powered_premier_leagu.Fixtures.{Fixture, KickoffPrecision, scheduled, exact, date_only}
use ai_powered_premier_leagu.Grouping.{group_by}
use ai_powered_premier_leagu.Chronology.{
  id_of, Calendar, FixtureBatch, chronological_fixture_batches, admit, batches_of_dates,
  batches_of_date, fixture_competition_date, repeated_fixture,
}
use ai_powered_premier_leagu.Chronology.Admission.{
  returns, is_supported, chronological_fixture_batches-returns,
}
use ai_powered_premier_leagu.Chronology.Batches.{fixtures_in, chronological_fixture_batches-perm}
use ai_powered_premier_leagu.Chronology.Ordered.{
  IsMonotone, is_ordered, chronological_fixture_batches-ordered,
}
use ai_powered_premier_leagu.Chronology.Cutoffs.{
  IsCalendar, is_safe, chronological_fixture_batches-safe,
}

abbrev kick_off : ℕ → ℕ → KickoffPrecision → Fixture
kick_off id time precision = record {
  id = id;
  competition_id = "eng-premier-league";
  season_id = "2024-2025";
  kickoff_at = utc time;
  kickoff_precision = precision;
  home_team_id = 1;
  away_team_id = 2;
  status = scheduled;
  full_time_score = none;
  half_time_score = none;
  outcome = none;
  statistics = none;
}

-- A date is a hundred moments.
abbrev calendar : Calendar
calendar = record { date_of = λ k. k / 100; start_of = λ d. d * 100 }

abbrev fixtures : List Fixture
fixtures = kick_off 5 250 exact ∷ kick_off 3 210 date_only ∷ kick_off 9 120 exact ∷ []

abbrev batches : List FixtureBatch
batches =
    record {
      feature_cutoff_at = 120;
      fixtures = kick_off 9 120 exact ∷ [];
      is_date_only_batch = false;
    }
    ∷ record {
      feature_cutoff_at = 199;
      fixtures = kick_off 3 210 date_only ∷ kick_off 5 250 exact ∷ [];
      is_date_only_batch = true;
    }
    ∷ []

batched : chronological_fixture_batches calendar fixtures ≡ ok batches
unfolding chronological_fixture_batches admit fixture_competition_date batches_of_dates
    batches_of_date group_by
batched = refl

repeated :
    chronological_fixture_batches calendar (kick_off 5 250 exact ∷ kick_off 5 260 exact ∷ [])
    ≡ err (repeated_fixture 5)
unfolding chronological_fixture_batches admit fixture_competition_date
repeated = refl

chronological_fixture_batches-perm_example : Permᴰ (fixtures_in batches) fixtures
chronological_fixture_batches-perm_example =
    chronological_fixture_batches-perm calendar fixtures batches batched

calendar-IsCalendar : IsCalendar calendar
calendar-IsCalendar = record { starts_before = λ k. omega arith }

chronological_fixture_batches-safe_example : all is_safe batches ≡ true
chronological_fixture_batches-safe_example =
    chronological_fixture_batches-safe calendar calendar-IsCalendar fixtures batches refl batched

chronological_fixture_batches-returns_example :
    returns (chronological_fixture_batches calendar fixtures)
    ≡ (all is_supported fixtures && unique (map id_of fixtures))
chronological_fixture_batches-returns_example =
    chronological_fixture_batches-returns calendar fixtures

calendar-IsMonotone : IsMonotone calendar
calendar-IsMonotone = record { in_order = λ k m order. omega arith }

chronological_fixture_batches-ordered_example : is_ordered batches ≡ true
chronological_fixture_batches-ordered_example =
    chronological_fixture_batches-ordered calendar calendar-IsMonotone fixtures batches batched
