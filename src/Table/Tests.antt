-- ===== src/Table/Tests.antt =====
-- A league of twenty teams and ten results, and the theorems of the table at it.
use mathlib.Core.List.{Permᴰ}
use mathlib.Core.List.Permᴰ
use ai_powered_premier_leagu.Prelude.{ℕ, ◌+◌, ◌*◌, ◌≡◌, refl, List, [], ◌∷◌, ◌++◌, length, ok, err}
use ai_powered_premier_leagu.Dicts.{map_option}
use ai_powered_premier_leagu.Table.{
  PlayedFixture, LeagueTableState, fixture_applied_twice, match_outside_table, build_league_table,
  apply_match_result, canonical_team_ids, aggregate_rows, accumulate, record_match, row_for,
  make_row, check_table, expected_totals, row_matches, add_home, add_away, scoreline_outcome,
}
use ai_powered_premier_leagu.Fixtures.{outcome_of}
use ai_powered_premier_leagu.Table.Tally.{
  after_match, tally, played_in, won_in, drawn_in, lost_in, scored_in, conceded_in,
}
use ai_powered_premier_leagu.Table.Build.{league_table, build_league_table_lem}
use ai_powered_premier_leagu.Table.Conservation.{
  column, goal_count, draw_count, build_league_table_conserves,
}
use ai_powered_premier_leagu.Table.Updates.{
  build_league_table-Permᴰ, apply_match_result-append, apply_match_result_rows, row_of,
}

abbrev pub teams : List ℕ
teams =
    20 ∷ 1 ∷ 2 ∷ 3 ∷ 4 ∷ 5 ∷ 6 ∷ 7 ∷ 8 ∷ 9 ∷ 10 ∷ 11 ∷ 12 ∷ 13 ∷ 14 ∷ 15 ∷ 16 ∷ 17 ∷ 18 ∷ 19 ∷ []

abbrev pub game : ℕ → ℕ → ℕ → ℕ → ℕ → PlayedFixture
game i h a x y = record {
  fixture_id = i;
  home_team_id = h;
  away_team_id = a;
  scoreline = record { home_goals = x; away_goals = y };
}

-- Each match has a margin of its own, so that no two teams agree in all of their numbers.
abbrev pub opening : List PlayedFixture
opening =
    game 10 1 2 1 0
    ∷ game 9 3 4 2 0
    ∷ game 8 5 6 3 0
    ∷ game 7 7 8 4 0
    ∷ game 6 9 10 5 0
    ∷ game 5 11 12 6 0
    ∷ game 4 13 14 7 0
    ∷ game 3 15 16 8 0
    ∷ game 2 17 18 9 0
    ∷ game 1 19 20 2 2
    ∷ []

abbrev pub opening_table : LeagueTableState
opening_table = league_table teams opening

program : Unit {0}
unfolding build_league_table apply_match_result canonical_team_ids aggregate_rows accumulate
    record_match row_for make_row check_table expected_totals row_matches add_home add_away
    scoreline_outcome league_table tally outcome_of played_in won_in drawn_in lost_in scored_in
    conceded_in
program = tt

pub opening_built : build_league_table teams opening ≡ ok opening_table
unfolding league_table
opening_built = build_league_table_lem teams opening

-- The code itself, run on the opening results.
opening_runs : build_league_table teams opening ≡ ok opening_table
unfolding program
opening_runs = refl

twice : build_league_table teams (game 4 1 2 0 0 ∷ opening) ≡ err fixture_applied_twice
unfolding program
twice = refl

stranger : build_league_table teams (game 44 1 77 0 0 ∷ opening) ≡ err match_outside_table
unfolding program
stranger = refl

build_league_table_lem_example :
    build_league_table teams (game 4 1 2 0 0 ∷ opening) ≡ err fixture_applied_twice
build_league_table_lem_example = build_league_table_lem teams (game 4 1 2 0 0 ∷ opening)

build_league_table_conserves_example :
    (column (λ e. e.played) opening_table ≡ 2 * length opening)
    × (column (λ e. e.won) opening_table ≡ column (λ e. e.lost) opening_table)
    × (column (λ e. e.goals_for) opening_table ≡ column (λ e. e.goals_against) opening_table)
    × (column (λ e. e.goals_for) opening_table ≡ goal_count opening)
    × (column (λ e. e.points) opening_table + draw_count opening ≡ 3 * length opening)
build_league_table_conserves_example = build_league_table_conserves teams opening opening_built

abbrev swapped : List PlayedFixture
swapped = game 21 2 1 1 1 ∷ game 20 1 2 0 3 ∷ []

abbrev in_turn : List PlayedFixture
in_turn = game 20 1 2 0 3 ∷ game 21 2 1 1 1 ∷ []

build_league_table-Permᴰ_example :
    build_league_table teams swapped ≡ build_league_table teams in_turn
build_league_table-Permᴰ_example =
    build_league_table-Permᴰ (Permᴰ.refl teams) (Permᴰ.swap refl refl)

apply_match_result-append_example :
    apply_match_result opening_table (game 11 2 1 0 0)
    ≡ build_league_table teams (opening ++ game 11 2 1 0 0 ∷ [])
apply_match_result-append_example =
    apply_match_result-append teams opening (game 11 2 1 0 0) opening_built

abbrev later_table : LeagueTableState
later_table = league_table teams (opening ++ game 11 2 1 0 0 ∷ [])

later_applied : apply_match_result opening_table (game 11 2 1 0 0) ≡ ok later_table
unfolding program
later_applied = refl

apply_match_result_rows_example :
    (later_table.team_ids ≡ opening_table.team_ids)
    × ((team : ℕ)
        → row_of team later_table.rows
          ≡ map_option (after_match team (game 11 2 1 0 0)) (row_of team opening_table.rows))
apply_match_result_rows_example =
    apply_match_result_rows teams opening (game 11 2 1 0 0) opening_built later_applied
