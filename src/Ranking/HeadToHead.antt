-- ===== src/Ranking/HeadToHead.antt =====
-- The head-to-head values of a team, described match by match.
use ai_powered_premier_leagu.Prelude.{
  ℕ, ◌+◌, ◌*◌, ◌==◌, ◌≡◌, Bool, not, ◌||◌, List, [], ◌∷◌, mem, sum_of, arith, if◌then◌else◌,
}
use ai_powered_premier_leagu.Fixtures.{MatchOutcome, home_win, draw, away_win}
use ai_powered_premier_leagu.Table.{PlayedFixture, scoreline_outcome}
use ai_powered_premier_leagu.Table.Tally.{by_side, home_wins, away_wins, draws}
use ai_powered_premier_leagu.Ranking.{
  HeadToHeadCounts, count_of, add_count, add_result_points, head_to_head_step, head_to_head_counts,
  head_to_head_values,
}

-- A match between two teams of the group.
abbrev pub between : List ℕ → PlayedFixture → Bool
between team_ids m = not (not (mem m.home_team_id team_ids) || not (mem m.away_team_id team_ids))

-- Three points for a win and one for a draw, in a match within the group.
unfoldable pub points_between : List ℕ → ℕ → PlayedFixture → ℕ
points_between team_ids team m =
    let o = scoreline_outcome m.scoreline in
    if between team_ids m
    then by_side team m (3 * home_wins o + draws o) (3 * away_wins o + draws o)
    else 0

-- Goals scored as the visitor, in a match within the group.
unfoldable pub away_goals_between : List ℕ → ℕ → PlayedFixture → ℕ
away_goals_between team_ids team m =
    if between team_ids m then by_side team m 0 m.scoreline.away_goals else 0

count_of-add_count :
    (j k n : ℕ) (d : List (ℕ × ℕ))
    → count_of j (add_count k n d) ≡ count_of j d + (if j == k then n else 0)
count_of-add_count j k n [] = ground arith
count_of-add_count j k n ((i, c) ∷ d) = ground (arith, count_of-add_count j k n d)

count_of-add_result_points :
    (team : ℕ) (o : MatchOutcome) (m : PlayedFixture) (d : List (ℕ × ℕ))
    → count_of team (add_result_points o m d)
      ≡ count_of team d + by_side team m (3 * home_wins o + draws o) (3 * away_wins o + draws o)
count_of-add_result_points team home_win m d =
    ground (arith, count_of-add_count team m.home_team_id 3 d)
count_of-add_result_points team away_win m d =
    ground (arith, count_of-add_count team m.away_team_id 3 d)
count_of-add_result_points team draw m d = ground (
  arith,
  count_of-add_count team m.away_team_id 1 (add_count m.home_team_id 1 d),
  count_of-add_count team m.home_team_id 1 d,
)

module _ (team_ids : List ℕ) (team : ℕ) where
  step_points :
      (m : PlayedFixture) (c : HeadToHeadCounts)
      → count_of team (head_to_head_step team_ids m c).points
        ≡ count_of team c.points + points_between team_ids team m
  unfolding head_to_head_step points_between
  step_points m c =
      ground (arith, count_of-add_result_points team (scoreline_outcome m.scoreline) m c.points)

  step_away_goals :
      (m : PlayedFixture) (c : HeadToHeadCounts)
      → count_of team (head_to_head_step team_ids m c).away_goals
        ≡ count_of team c.away_goals + away_goals_between team_ids team m
  unfolding head_to_head_step away_goals_between
  step_away_goals m c =
      ground (arith, count_of-add_count team m.away_team_id m.scoreline.away_goals c.away_goals)

  counts_lem :
      (ms : List PlayedFixture) (c : HeadToHeadCounts)
      → (count_of team (head_to_head_counts team_ids ms c).points
          ≡ count_of team c.points + sum_of (points_between team_ids team) ms)
        × (count_of team (head_to_head_counts team_ids ms c).away_goals
            ≡ count_of team c.away_goals + sum_of (away_goals_between team_ids team) ms)
  unfolding head_to_head_counts
  counts_lem [] c = omega arith
  counts_lem (m ∷ ms) c =
      let (p, a) = counts_lem ms (head_to_head_step team_ids m c) in
      omega (arith, p, a, step_points m c, step_away_goals m c)

  -- The two dictionaries that the code fills give a team its points and its away goals from the
  -- matches between teams of the group, and nothing from any other match.
  pub head_to_head_values_lem :
      (ms : List PlayedFixture)
      → head_to_head_values team_ids ms team ≡ record {
        points = sum_of (points_between team_ids team) ms;
        away_goals = sum_of (away_goals_between team_ids team) ms;
      }
  unfolding head_to_head_values
  head_to_head_values_lem ms =
      let (p, a) = counts_lem ms (record { points = []; away_goals = [] }) in ground (arith, p, a)
