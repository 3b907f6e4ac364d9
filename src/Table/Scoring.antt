-- ===== src/Table/Scoring.antt =====
-- Scorelines, played fixtures and the totals of one team, with the two sides' share of a match.
use ai_powered_premier_leagu.Prelude.{ℕ, ◌+◌, ◌==◌, Bool, ◌&&◌}
use ai_powered_premier_leagu.Fixtures.{MatchOutcome, home_win, draw, away_win, outcome_of}

pub record Scoreline : Type 0 where
  pub home_goals : ℕ
  pub away_goals : ℕ

unfoldable pub scoreline_outcome : Scoreline → MatchOutcome
scoreline_outcome s = outcome_of s.home_goals s.away_goals

pub record PlayedFixture : Type 0 where
  pub fixture_id : ℕ
  pub home_team_id : ℕ
  pub away_team_id : ℕ
  pub scoreline : Scoreline

pub record Totals : Type 0 where
  pub played : ℕ
  pub won : ℕ
  pub drawn : ℕ
  pub lost : ℕ
  pub goals_for : ℕ
  pub goals_against : ℕ
  pub points : ℕ

abbrev pub no_totals : Totals
no_totals = record {
  played = 0;
  won = 0;
  drawn = 0;
  lost = 0;
  goals_for = 0;
  goals_against = 0;
  points = 0;
}

abbrev pub totals_eq : Totals → Totals → Bool
totals_eq a b =
    a.played == b.played
    && a.won == b.won
    && a.drawn == b.drawn
    && a.lost == b.lost
    && a.goals_for == b.goals_for
    && a.goals_against == b.goals_against
    && a.points == b.points

-- A match counted, with its goals for and against.
abbrev pub add_goals : ℕ → ℕ → Totals → Totals
add_goals scored conceded t = record t {
  played = t.played + 1;
  goals_for = t.goals_for + scored;
  goals_against = t.goals_against + conceded;
}

abbrev pub add_win : Totals → Totals
add_win t = record t { won = t.won + 1; points = t.points + 3 }

abbrev pub add_draw : Totals → Totals
add_draw t = record t { drawn = t.drawn + 1; points = t.points + 1 }

abbrev pub add_loss : Totals → Totals
add_loss t = record t { lost = t.lost + 1 }

abbrev pub home_result : MatchOutcome → Totals → Totals
home_result home_win t = add_win t
home_result away_win t = add_loss t
home_result draw t = add_draw t

abbrev pub away_result : MatchOutcome → Totals → Totals
away_result home_win t = add_loss t
away_result away_win t = add_win t
away_result draw t = add_draw t

unfoldable pub add_home : Scoreline → Totals → Totals
add_home s t = home_result (scoreline_outcome s) (add_goals s.home_goals s.away_goals t)

unfoldable pub add_away : Scoreline → Totals → Totals
add_away s t = away_result (scoreline_outcome s) (add_goals s.away_goals s.home_goals t)
