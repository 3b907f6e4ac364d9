-- ===== src/Table.antt =====
-- src/pl_platform/simulation/table.py and the table contracts of domain/simulation.py: the league
-- table as rows that are rebuilt from a ledger of played fixtures. A UUID is its integer.
mod Scoring
pub mod Tally
pub mod Build
pub mod Conservation
pub mod Updates
pub mod Tests
pub use Scoring.{Scoreline, PlayedFixture, Totals}
unfoldable pub use Scoring.{scoreline_outcome, no_totals, totals_eq, add_home, add_away}
use ai_powered_premier_leagu.Prelude.{
  ℕ, suc, ◌+◌, ◌*◌, ◌==◌, ltb, Bool, true, false, not, ◌&&◌, ◌||◌, Option, none, some, List, [],
  ◌∷◌, ◌++◌, map, length, any, all, mem, to_set, sort_by, sort, sorted_set, Result, ok, err, ◌>>=◌,
  ◌>>◌, raise_if, map_result, if◌then◌else◌,
}
use ai_powered_premier_leagu.Dicts.{Dict, lookup, fill, adjust}

pub record TeamTableRow : Type 0 where
  pub team_id : ℕ
  pub totals : Totals

pub record LeagueTableState : Type 0 where
  pub team_ids : List ℕ
  pub matches : List PlayedFixture
  pub rows : List TeamTableRow

-- The violations, in the words of the source. The first three are SimulationContractError, the
-- others are raised by the validators of the records.
pub data TableError : Type 0 where
  not_twenty_unique_teams match_outside_table fixture_applied_twice : TableError
  appearances_differ points_differ teams_not_canonical matches_not_canonical non_member
        rows_out_of_order rows_differ missing_key :
      TableError

-- `xs == ys` on tuples of identifiers
abbrev pub ids_eq : List ℕ → List ℕ → Bool
ids_eq [] [] = true
ids_eq (x ∷ xs) (y ∷ ys) = x == y && ids_eq xs ys
ids_eq _ _ = false

-- `TeamTableRow(team_id=..., **values)` with `totals_must_agree`
unfoldable pub make_row : ℕ → Totals → Result TableError TeamTableRow
make_row team_id t = do
  raise_if (not (t.played == t.won + t.drawn + t.lost)) appearances_differ
  raise_if (not (t.points == 3 * t.won + t.drawn)) points_differ
  ok (record { team_id = team_id; totals = t })

-- `values[k]`, which raises KeyError for a missing key
abbrev pub get_item : ℕ → Dict Totals → Result TableError Totals
get_item k d = elim (lookup k d) [ none ↦ err missing_key | some t ↦ ok t ]

-- `_canonical_team_ids`
unfoldable pub canonical_team_ids : List ℕ → Result TableError (List ℕ)
canonical_team_ids team_ids =
    let ordered = sort team_ids in
    if not (length ordered == 20) || not (length (to_set ordered) == 20)
    then err not_twenty_unique_teams
    else ok ordered

-- The body of the loop of `_aggregate_rows` behind its membership test: the two sides' entries.
unfoldable pub record_match : PlayedFixture → Dict Totals → Dict Totals
record_match m d =
    adjust m.away_team_id (add_away m.scoreline) (adjust m.home_team_id (add_home m.scoreline) d)

abbrev pub outside : List ℕ → PlayedFixture → Bool
outside team_ids m = not (mem m.home_team_id team_ids) || not (mem m.away_team_id team_ids)

unfoldable pub accumulate :
    List ℕ → List PlayedFixture → Dict Totals → Result TableError (Dict Totals)
accumulate team_ids [] d = ok d
accumulate team_ids (m ∷ ms) d =
    let rest = accumulate team_ids ms (record_match m d) in
    if outside team_ids m then err match_outside_table else rest

-- One element of the tuple that `_aggregate_rows` returns.
unfoldable pub row_for : Dict Totals → ℕ → Result TableError TeamTableRow
unfolding make_row
row_for values team_id = do t ← get_item team_id values; make_row team_id t

-- `_aggregate_rows`
unfoldable pub aggregate_rows : List ℕ → List PlayedFixture → Result TableError (List TeamTableRow)
aggregate_rows team_ids matches = do
  values ← accumulate team_ids matches (fill no_totals team_ids)
  map_result (row_for values) team_ids

-- The validator's own second accumulation, whose matches are known to be between members.
unfoldable pub expected_totals : List PlayedFixture → Dict Totals → Dict Totals
expected_totals [] d = d
expected_totals (m ∷ ms) d = expected_totals ms (record_match m d)

abbrev pub fixture_ids : List PlayedFixture → List ℕ
fixture_ids ms = map (λ m. m.fixture_id) ms

abbrev pub row_ids : List TeamTableRow → List ℕ
row_ids rows = map (λ r. r.team_id) rows

unfoldable pub row_matches : Dict Totals → TeamTableRow → Bool
row_matches d r = elim (lookup r.team_id d) [ none ↦ false | some t ↦ totals_eq r.totals t ]

-- `LeagueTableState.table_shape_must_be_canonical`
unfoldable pub check_table : LeagueTableState → Result TableError (Unit {0})
check_table t = do
  raise_if (not (length t.team_ids == 20) || not (ids_eq t.team_ids (sorted_set t.team_ids)))
      teams_not_canonical
  raise_if (not (ids_eq (fixture_ids t.matches) (sorted_set (fixture_ids t.matches))))
      matches_not_canonical
  raise_if (any (outside t.team_ids) t.matches) non_member
  raise_if (not (ids_eq (row_ids t.rows) t.team_ids)) rows_out_of_order
  let expected = expected_totals t.matches (fill no_totals t.team_ids)
  raise_if (not (all (row_matches expected) t.rows)) rows_differ

-- `build_league_table`, the validation of the record that it constructs included
unfoldable pub build_league_table : List ℕ → List PlayedFixture → Result TableError LeagueTableState
build_league_table team_ids matches = do
  ordered_teams ← canonical_team_ids team_ids
  let ordered_matches = sort_by (λ m. m.fixture_id) matches
  raise_if (not (length (to_set (fixture_ids ordered_matches)) == length ordered_matches))
      fixture_applied_twice
  rows ← aggregate_rows ordered_teams ordered_matches
  let table : LeagueTableState = record {
    team_ids = ordered_teams;
    matches = ordered_matches;
    rows = rows;
  }
  check_table table
  ok table

-- `apply_match_result`
unfoldable pub apply_match_result :
    LeagueTableState → PlayedFixture → Result TableError LeagueTableState
apply_match_result table m =
    if mem m.fixture_id (fixture_ids table.matches)
    then err fixture_applied_twice
    else build_league_table table.team_ids (table.matches ++ m ∷ [])
