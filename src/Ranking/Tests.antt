-- ===== src/Ranking/Tests.antt =====
-- The opening results give a final table; a league with no result is tied throughout.
use ai_powered_premier_leagu.Prelude.{ℕ, ◌≡◌, refl, List, [], ◌∷◌, ◌++◌, map, ok, err, sum_of, ◌⊎◌}
use ai_powered_premier_leagu.Grouping.{group_by, sort_desc}
use ai_powered_premier_leagu.Fixtures.{outcome_of}
use ai_powered_premier_leagu.Table.{make_row, scoreline_outcome}
use ai_powered_premier_leagu.Table.Tally.{
  tally, played_in, won_in, drawn_in, lost_in, scored_in, conceded_in,
}
use ai_powered_premier_leagu.Table.Build.{tally_row, league_table}
use ai_powered_premier_leagu.Table.Tests.{teams, game, opening, opening_table, opening_built}
use ai_powered_premier_leagu.Ranking.{
  Placed, RankError, RankedTableRow, primary_lt, primary_eq, secondary_lt, secondary_eq,
  primary_key, head_to_head_step, head_to_head_counts, head_to_head_values, place_tied, place_group,
  place_groups, order_rows, make_ranked_row, number_rows, check_ranked, rank_final_table,
  unresolved_tie,
}
use ai_powered_premier_leagu.Ranking.HeadToHead.{
  points_between, away_goals_between, head_to_head_values_lem,
}
use ai_powered_premier_leagu.Ranking.Ties.{HasTie, RaisesTie}
use ai_powered_premier_leagu.Ranking.Final.{Official, ranked_from, rank_final_table_lem}
use ai_powered_premier_leagu.Ranking.Resolved.{rank_final_table-no_tie}

program : Unit {0}
unfolding rank_final_table order_rows place_groups place_group place_tied head_to_head_values
    head_to_head_counts head_to_head_step number_rows make_ranked_row make_row check_ranked
    primary_lt primary_eq secondary_lt secondary_eq primary_key group_by sort_desc league_table
    tally outcome_of scoreline_outcome played_in won_in drawn_in lost_in scored_in conceded_in
program = tt

abbrev place : ℕ → ℕ → ℕ → Placed
place team points away_goals = record {
  row = tally_row opening team;
  head_to_head = record { points = points; away_goals = away_goals };
}

abbrev alone : List ℕ → List Placed
alone ids = map (λ k. place k 0 0) ids

-- Teams 19 and 20 drew 2-2 and share all else: the away goals of 20 decide.
abbrev final_ranking : List RankedTableRow
final_ranking = ranked_from 1 (
    alone (17 ∷ 15 ∷ 13 ∷ 11 ∷ 9 ∷ 7 ∷ 5 ∷ 3 ∷ 1 ∷ [])
    ++ place 20 1 2 ∷ place 19 1 0 ∷ alone (2 ∷ 4 ∷ 6 ∷ 8 ∷ 10 ∷ 12 ∷ 14 ∷ 16 ∷ 18 ∷ []))

opening_ranked : rank_final_table opening_table ≡ ok final_ranking
unfolding program
opening_ranked = refl

-- After one match the eighteen teams that have not played are tied.
unplayed_tied :
    rank_final_table (league_table teams (game 1 1 2 1 0 ∷ []))
    ≡ err (
        unresolved_tie
          (3 ∷ 4 ∷ 5 ∷ 6 ∷ 7 ∷ 8 ∷ 9 ∷ 10 ∷ 11 ∷ 12 ∷ 13 ∷ 14 ∷ 15 ∷ 16 ∷ 17 ∷ 18 ∷ 19 ∷ 20 ∷ []))
unfolding program
unplayed_tied = refl

head_to_head_values_lem_example : head_to_head_values (19 ∷ 20 ∷ []) opening 20 ≡ record {
  points = sum_of (points_between (19 ∷ 20 ∷ []) 20) opening;
  away_goals = sum_of (away_goals_between (19 ∷ 20 ∷ []) 20) opening;
}
head_to_head_values_lem_example = head_to_head_values_lem (19 ∷ 20 ∷ []) 20 opening

rank_final_table_lem_example :
    ((rs : List RankedTableRow) × (rank_final_table opening_table ≡ ok rs)
      × Official opening_table rs)
    ⊎ ((e : RankError) × (rank_final_table opening_table ≡ err e)
        × RaisesTie opening_table.rows opening_table.matches e)
rank_final_table_lem_example = rank_final_table_lem teams opening opening_built

rank_final_table-no_tie_example : ¬ HasTie opening_table.rows opening_table.matches
rank_final_table-no_tie_example =
    rank_final_table-no_tie teams opening final_ranking opening_built opening_ranked
