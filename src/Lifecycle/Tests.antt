-- ===== src/Lifecycle/Tests.antt =====
-- An upcoming fixture on its own date, a result from the day before, and one that came too late.
use mathlib.Core.List.{Permᴰ}
use ai_powered_premier_leagu.Prelude.{
  ℕ, ◌*◌, ◌/◌, ◌≡◌, refl, true, none, filter, all, List, [], ◌∷◌, ok, err, arith,
}
use ai_powered_premier_leagu.Datetimes.{utc}
use ai_powered_premier_leagu.Fixtures.{Fixture, exact, scheduled}
use ai_powered_premier_leagu.Grouping.{group_by}
use ai_powered_premier_leagu.Chronology.{
  Calendar, chronological_fixture_batches, admit, fixture_competition_date, batches_of_dates,
  batches_of_date,
}
use ai_powered_premier_leagu.Chronology.Ordered.{IsMonotone}
use ai_powered_premier_leagu.Lifecycle.{
  CurrentFixtureEvidence, CompletedResultEvidence, relevant_results, any_late, is_known,
  lifecycle_error, chronology_violation,
}
use ai_powered_premier_leagu.Lifecycle.Boundaries.{precedes, relevant_results-precedes}

abbrev kick_off : ℕ → ℕ → Fixture
kick_off id time = record {
  id = id;
  competition_id = "eng-premier-league";
  season_id = "2026-2027";
  kickoff_at = utc time;
  kickoff_precision = exact;
  home_team_id = 1;
  away_team_id = 2;
  status = scheduled;
  full_time_score = none;
  half_time_score = none;
  outcome = none;
  statistics = none;
}

abbrev result : ℕ → ℕ → ℕ → CompletedResultEvidence
result id time retrieved = record {
  fixture = kick_off id time;
  result_id = id;
  result_identity_sha256 = id;
  observation_id = id;
  cache_key_sha256 = id;
  retrieved_at = utc retrieved;
}

-- A date is a hundred moments.
abbrev calendar : Calendar
calendar = record { date_of = λ k. k / 100; start_of = λ d. d * 100 }

calendar-IsMonotone : IsMonotone calendar
calendar-IsMonotone = record { in_order = λ k m order. omega arith }

abbrev upcoming : CurrentFixtureEvidence
upcoming = record { fixture = kick_off 5 350; knowledge_available_at = utc 350 }

abbrev results : List CompletedResultEvidence
results = result 8 250 260 ∷ result 3 120 180 ∷ result 9 260 400 ∷ []

relevant :
    relevant_results calendar upcoming results ≡ ok (result 3 120 180 ∷ result 8 250 260 ∷ [])
unfolding relevant_results chronological_fixture_batches admit fixture_competition_date
    batches_of_dates batches_of_date group_by any_late
relevant = refl

-- A result that is known before the fixture kicks off, of a match that kicks off after it.
too_early :
    relevant_results calendar upcoming (result 7 360 300 ∷ [])
    ≡ err (lifecycle_error chronology_violation)
unfolding relevant_results chronological_fixture_batches admit fixture_competition_date
    batches_of_dates batches_of_date group_by any_late
too_early = refl

relevant_results-precedes_example :
    (all (precedes upcoming) (result 3 120 180 ∷ result 8 250 260 ∷ []) ≡ true)
    × Permᴰ (result 3 120 180 ∷ result 8 250 260 ∷ []) (filter (is_known upcoming) results)
relevant_results-precedes_example =
    relevant_results-precedes calendar upcoming results (result 3 120 180 ∷ result 8 250 260 ∷ [])
      calendar-IsMonotone relevant
