-- ===== src/Fixtures/Tests.antt =====
-- A finished match, and the fixture contract at it.
use ai_powered_premier_leagu.Prelude.{◌≡◌, ◌≢◌, ◌↔◌, refl, false, none, some, ok, err}
use ai_powered_premier_leagu.Datetimes.{utc, is_not_utc}
use ai_powered_premier_leagu.Fixtures.{
  Fixture, exact, finished, home_win, away_win, score_outcome, check_state, check_fixture,
  outcome_mismatch,
}
use ai_powered_premier_leagu.Fixtures.Validity.{Consistent, check_fixture_iff}

abbrev match : Fixture
match = record {
  id = 7;
  competition_id = "eng-premier-league";
  season_id = "2024-2025";
  kickoff_at = utc 1723834800000000;
  kickoff_precision = exact;
  home_team_id = 1;
  away_team_id = 2;
  status = finished;
  full_time_score = some (record { home = 2; away = 1 });
  half_time_score = some (record { home = 0; away = 1 });
  outcome = some home_win;
  statistics = none;
}

accepted : check_fixture match ≡ ok tt
unfolding check_fixture check_state score_outcome
accepted = refl

wrong_outcome : check_fixture (record match { outcome = some away_win }) ≡ err outcome_mismatch
unfolding check_fixture check_state score_outcome
wrong_outcome = refl

check_fixture_iff_example : (check_fixture match ≡ ok tt) ↔ (
    (is_not_utc match.kickoff_at ≡ false)
    × (match.home_team_id ≢ match.away_team_id)
    × Consistent match.status match.full_time_score match.half_time_score match.outcome)
check_fixture_iff_example = check_fixture_iff match
