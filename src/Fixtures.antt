-- ===== src/Fixtures.antt =====
-- src/pl_platform/domain/fixtures.py: outcomes, statuses, scores and the fixture contract. A UUID is
-- its integer; a validator is a function that raises the first violation it finds.
pub mod Validity
mod Tests
use ai_powered_premier_leagu.Prelude.{
  ℕ, ◌==◌, ltb, Bool, true, false, not, ◌&&◌, ◌||◌, Option, none, some, is_some, is_none, Result,
  ok, err, ◌>>=◌, ◌>>◌, raise_if, if◌then◌else◌,
}
use ai_powered_premier_leagu.Datetimes.{Datetime, is_not_utc}
use Prim.Native.String.{String}

pub data MatchOutcome : Type 0 where
  home_win draw away_win : MatchOutcome

pub data FixtureStatus : Type 0 where
  scheduled postponed cancelled abandoned in_progress finished : FixtureStatus

pub data KickoffPrecision : Type 0 where
  exact date_only : KickoffPrecision

abbrev pub is_date_only : KickoffPrecision → Bool
is_date_only exact = false
is_date_only date_only = true

abbrev pub is_finished : FixtureStatus → Bool
is_finished finished = true
is_finished _ = false

-- `a == b` on outcomes
abbrev pub same_outcome : MatchOutcome → MatchOutcome → Bool
same_outcome home_win home_win = true
same_outcome draw draw = true
same_outcome away_win away_win = true
same_outcome _ _ = false

-- The comparison that both `FixtureScore.outcome` and `Scoreline.outcome` make.
unfoldable pub outcome_of : ℕ → ℕ → MatchOutcome
outcome_of home away = if ltb away home then home_win else if ltb home away then away_win else draw

pub record FixtureScore : Type 0 where
  pub home : ℕ
  pub away : ℕ

unfoldable pub score_outcome : FixtureScore → MatchOutcome
unfolding outcome_of
score_outcome s = outcome_of s.home s.away

pub record TeamMatchStatistics : Type 0 where
  pub shots : Option ℕ
  pub shots_on_target : Option ℕ
  pub fouls : Option ℕ
  pub corners : Option ℕ
  pub yellow_cards : Option ℕ
  pub red_cards : Option ℕ

pub record FixtureStatistics : Type 0 where
  pub home : TeamMatchStatistics
  pub away : TeamMatchStatistics

pub record Fixture : Type 0 where
  pub id : ℕ
  pub competition_id : String
  pub season_id : String
  pub kickoff_at : Datetime
  pub kickoff_precision : KickoffPrecision
  pub home_team_id : ℕ
  pub away_team_id : ℕ
  pub status : FixtureStatus
  pub full_time_score : Option FixtureScore
  pub half_time_score : Option FixtureScore
  pub outcome : Option MatchOutcome
  pub statistics : Option FixtureStatistics

pub data FixtureError : Type 0 where
  kickoff_not_utc same_teams inactive_with_score finished_without_score outcome_mismatch
        half_time_exceeds :
      FixtureError

-- The set `inactive` of the validator.
abbrev pub is_inactive : FixtureStatus → Bool
is_inactive scheduled = true
is_inactive postponed = true
is_inactive cancelled = true
is_inactive abandoned = true
is_inactive in_progress = true
is_inactive finished = false

abbrev finished_score : Option FixtureScore → Option MatchOutcome → Result FixtureError (Unit {0})
finished_score (some s) (some o) =
    raise_if (not (same_outcome o (score_outcome s))) outcome_mismatch
finished_score _ _ = err finished_without_score

abbrev half_exceeds : Option FixtureScore → Option FixtureScore → Bool
half_exceeds (some half) (some full) = ltb full.home half.home || ltb full.away half.away
half_exceeds _ _ = false

-- The part of the validator that reads the status, the scores and the outcome.
unfoldable pub check_state :
    FixtureStatus
    → Option FixtureScore
    → Option FixtureScore
    → Option MatchOutcome
    → Result FixtureError (Unit {0})
unfolding score_outcome
check_state status full half outcome = do
  raise_if (is_inactive status && (is_some full || is_some half || is_some outcome))
      inactive_with_score
  if is_finished status then finished_score full outcome else ok tt
  raise_if (half_exceeds half full) half_time_exceeds

-- `Fixture.fixture_state_must_be_consistent`
unfoldable pub check_fixture : Fixture → Result FixtureError (Unit {0})
check_fixture f = do
  raise_if (is_not_utc f.kickoff_at) kickoff_not_utc
  raise_if (f.home_team_id == f.away_team_id) same_teams
  check_state f.status f.full_time_score f.half_time_score f.outcome
