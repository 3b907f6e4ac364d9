-- ===== src/Ranking.antt =====
-- src/pl_platform/simulation/table.py, `_head_to_head_values` and `rank_final_table`, with the
-- contracts RankedTableRow and RankedLeagueTable of domain/simulation.py.
pub mod Lists
pub mod Keys
pub mod HeadToHead
pub mod Groups
pub mod Placing
pub mod Ties
pub mod Ordering
pub mod Final
pub mod Resolved
mod Tests
use ai_powered_premier_leagu.Prelude.{
  ℕ, suc, ◌+◌, ◌==◌, ltb, leb, Bool, true, false, not, ◌&&◌, ◌||◌, Option, none, some, List, [],
  ◌∷◌, ◌++◌, map, length, mem, sort, sort_by, to_set, ℤ, sub_ℕ, ltb_ℤ, eqb_ℤ, Result, ok, err,
  ◌>>=◌, ◌>>◌, raise_if, if◌then◌else◌,
}
use ai_powered_premier_leagu.Fixtures.{MatchOutcome, home_win, draw, away_win}
use ai_powered_premier_leagu.Grouping.{Group, items, group_by, sort_desc}
use ai_powered_premier_leagu.Table.{
  Totals, PlayedFixture, TeamTableRow, LeagueTableState, TableError, scoreline_outcome, ids_eq,
  make_row, row_ids,
}

-- `(row.points, row.goal_difference, row.goals_for)`
pub record PrimaryKey : Type 0 where
  pub points : ℕ
  pub goal_difference : ℤ
  pub goals_for : ℕ

-- A pair of head-to-head points and head-to-head away goals.
pub record SecondaryKey : Type 0 where
  pub points : ℕ
  pub away_goals : ℕ

-- The order and equality of tuples.
unfoldable pub primary_lt : PrimaryKey → PrimaryKey → Bool
primary_lt a b =
    ltb a.points b.points
    || a.points == b.points
      && (ltb_ℤ a.goal_difference b.goal_difference
          || eqb_ℤ a.goal_difference b.goal_difference && ltb a.goals_for b.goals_for)

unfoldable pub primary_eq : PrimaryKey → PrimaryKey → Bool
primary_eq a b =
    a.points == b.points && eqb_ℤ a.goal_difference b.goal_difference && a.goals_for == b.goals_for

unfoldable pub secondary_lt : SecondaryKey → SecondaryKey → Bool
secondary_lt a b = ltb a.points b.points || a.points == b.points && ltb a.away_goals b.away_goals

unfoldable pub secondary_eq : SecondaryKey → SecondaryKey → Bool
secondary_eq a b = a.points == b.points && a.away_goals == b.away_goals

unfoldable pub primary_key : TeamTableRow → PrimaryKey
primary_key r = record {
  points = r.totals.points;
  goal_difference = sub_ℕ r.totals.goals_for r.totals.goals_against;
  goals_for = r.totals.goals_for;
}

-- `d = defaultdict(int)`: `d[k]`, and `d[k] += n`.
abbrev pub count_of : ℕ → List (ℕ × ℕ) → ℕ
count_of k [] = 0
count_of k ((j, n) ∷ d) = if k == j then n else count_of k d

abbrev pub add_count : ℕ → ℕ → List (ℕ × ℕ) → List (ℕ × ℕ)
add_count k n [] = (k, n) ∷ []
add_count k n ((j, c) ∷ d) = if k == j then (j, c + n) ∷ d else (j, c) ∷ add_count k n d

pub record HeadToHeadCounts : Type 0 where
  pub points : List (ℕ × ℕ)
  pub away_goals : List (ℕ × ℕ)

abbrev add_result_points : MatchOutcome → PlayedFixture → List (ℕ × ℕ) → List (ℕ × ℕ)
add_result_points home_win m d = add_count m.home_team_id 3 d
add_result_points away_win m d = add_count m.away_team_id 3 d
add_result_points draw m d = add_count m.away_team_id 1 (add_count m.home_team_id 1 d)

-- The body of the loop of `_head_to_head_values`; a match with a team outside the group is skipped.
unfoldable pub head_to_head_step : List ℕ → PlayedFixture → HeadToHeadCounts → HeadToHeadCounts
head_to_head_step team_ids m c =
    if not (mem m.home_team_id team_ids) || not (mem m.away_team_id team_ids) then c else record {
      points = add_result_points (scoreline_outcome m.scoreline) m c.points;
      away_goals = add_count m.away_team_id m.scoreline.away_goals c.away_goals;
    }

unfoldable pub head_to_head_counts :
    List ℕ → List PlayedFixture → HeadToHeadCounts → HeadToHeadCounts
head_to_head_counts team_ids [] c = c
head_to_head_counts team_ids (m ∷ ms) c =
    head_to_head_counts team_ids ms (head_to_head_step team_ids m c)

-- `_head_to_head_values(team_ids, matches)[team]`
unfoldable pub head_to_head_values : List ℕ → List PlayedFixture → ℕ → SecondaryKey
head_to_head_values team_ids matches team =
    let c = head_to_head_counts team_ids matches (record { points = []; away_goals = [] }) in
    record { points = count_of team c.points; away_goals = count_of team c.away_goals }

pub data RankError : Type 0 where
  unresolved_tie : List ℕ → RankError
  invalid_row : TableError → RankError
  position_out_of_range positions_incomplete teams_not_unique : RankError

-- A row with the head-to-head values that `ordered_rows` holds beside it.
pub record Placed : Type 0 where
  pub row : TeamTableRow
  pub head_to_head : SecondaryKey

-- `[rows for rows in secondary_groups.values() if len(rows) > 1]`, as the teams that the message
-- lists.
abbrev pub unresolved : List (Group SecondaryKey TeamTableRow) → List ℕ
unresolved [] = []
unresolved (g ∷ gs) =
    let later = unresolved gs in
    elim g.rest [ [] ↦ later | _ ∷ _ ↦ sort (row_ids (items g)) ++ later ]

abbrev pub place_first : List (Group SecondaryKey TeamTableRow) → List Placed
place_first [] = []
place_first (g ∷ gs) = record { row = g.first; head_to_head = g.key } ∷ place_first gs

abbrev pub placed_or_tied :
    List ℕ → List (Group SecondaryKey TeamTableRow) → Result RankError (List Placed)
placed_or_tied [] gs = ok (place_first (sort_desc secondary_lt gs))
placed_or_tied (t ∷ ts) gs = err (unresolved_tie (t ∷ ts))

-- The body of the loop over the primary groups for a group of several rows.
unfoldable pub place_tied : List PlayedFixture → List TeamTableRow → Result RankError (List Placed)
place_tied matches group =
    let values = head_to_head_values (row_ids group) matches in
    let gs = group_by secondary_eq (λ r. values r.team_id) group in
    placed_or_tied (unresolved gs) gs

abbrev pub no_head_to_head : SecondaryKey
no_head_to_head = record { points = 0; away_goals = 0 }

unfoldable pub place_group :
    List PlayedFixture → Group PrimaryKey TeamTableRow → Result RankError (List Placed)
place_group matches g = elim g.rest [
  | [] ↦ ok (record { row = g.first; head_to_head = no_head_to_head } ∷ [])
  | _ ∷ _ ↦ place_tied matches (items g)
]

-- The loop over `sorted(primary_groups, reverse=True)`, which builds `ordered_rows`.
unfoldable pub place_groups :
    List PlayedFixture → List (Group PrimaryKey TeamTableRow) → Result RankError (List Placed)
place_groups matches [] = ok []
place_groups matches (g ∷ gs) = do
  placed ← place_group matches g
  later ← place_groups matches gs
  ok (placed ++ later)

unfoldable pub order_rows : LeagueTableState → Result RankError (List Placed)
order_rows table =
    place_groups table.matches (sort_desc primary_lt (group_by primary_eq primary_key table.rows))

pub record RankedTableRow : Type 0 where
  pub row : TeamTableRow
  pub position : ℕ
  pub head_to_head_points : ℕ
  pub head_to_head_away_goals : ℕ

-- `RankedTableRow(**row.model_dump(), position=..., ...)` with its validation
unfoldable pub make_ranked_row : ℕ → Placed → Result RankError RankedTableRow
make_ranked_row position p =
    if not (leb 1 position && leb position 20)
    then err position_out_of_range
    else elim (make_row p.row.team_id p.row.totals) [
      | err e ↦ err (invalid_row e)
      | ok r ↦ ok (record {
        row = r;
        position = position;
        head_to_head_points = p.head_to_head.points;
        head_to_head_away_goals = p.head_to_head.away_goals;
      })
    ]

-- `enumerate(ordered_rows, start=1)`
unfoldable pub number_rows : ℕ → List Placed → Result RankError (List RankedTableRow)
number_rows position [] = ok []
number_rows position (p ∷ ps) = do
  r ← make_ranked_row position p
  later ← number_rows (suc position) ps
  ok (r ∷ later)

abbrev pub positions : List RankedTableRow → List ℕ
positions rows = map (λ r. r.position) rows

-- `range(start, start + count)`
abbrev pub range : ℕ → ℕ → List ℕ
range start ℕ.zero = []
range start (suc n) = start ∷ range (suc start) n

-- `RankedLeagueTable.positions_must_be_complete`
unfoldable pub check_ranked : List RankedTableRow → Result RankError (Unit {0})
check_ranked rows = do
  raise_if (not (length rows == 20) || not (ids_eq (positions rows) (range 1 20)))
      positions_incomplete
  raise_if (not (length (to_set (map (λ r. r.row.team_id) rows)) == 20)) teams_not_unique

-- `rank_final_table`
unfoldable pub rank_final_table : LeagueTableState → Result RankError (List RankedTableRow)
rank_final_table table = do
  ordered ← order_rows table
  ranked ← number_rows 1 ordered
  check_ranked ranked
  ok ranked
