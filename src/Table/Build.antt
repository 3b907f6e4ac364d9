-- ===== src/Table/Build.antt =====
-- `build_league_table` and its three refusals, described without sorting, dictionaries or the second
-- validation.
use ai_powered_premier_leagu.Prelude.{
  ℕ, ◌+◌, ◌==◌, ◌≡◌, refl, ap, ap₂, ◌∙◌, true, false, not, ◌&&◌, ◌||◌, List, [], ◌∷◌, map, any, all,
  mem, unique, length, sort, sort_by, sorted_set, to_set, sorted_set-sort, length-sort_by,
  length-to_set, unique-sort, mem-sort, any-sort_by, map-sort_by, sum_of-sort_by, ok, err,
  map_result, arith, if◌then◌else◌, Bool-cases, inl, inr, length-map,
}
use ai_powered_premier_leagu.Dicts.{Dict, fill}
use ai_powered_premier_leagu.Table.{
  Totals, no_totals, totals_eq, PlayedFixture, TeamTableRow, LeagueTableState,
  not_twenty_unique_teams, match_outside_table, fixture_applied_twice, ids_eq, make_row, row_for,
  canonical_team_ids, aggregate_rows, expected_totals, outside, fixture_ids, row_ids, row_matches,
  check_table, build_league_table,
}
use ai_powered_premier_leagu.Table.Tally.{
  tally, played_in, won_in, drawn_in, lost_in, accumulate_lem, lookup-expected_fill,
}

pub ids_eq_refl : (xs : List ℕ) → ids_eq xs xs ≡ true
ids_eq_refl [] = refl
ids_eq_refl (x ∷ xs) = ground (arith, ids_eq_refl xs)

played_in_lem :
    (team : ℕ) (m : PlayedFixture)
    → played_in team m ≡ won_in team m + drawn_in team m + lost_in team m
unfolding played_in won_in drawn_in lost_in
played_in_lem team m = ground arith

totals_eq_refl : (t : Totals) → totals_eq t t ≡ true
totals_eq_refl t = ground arith

-- A tally always satisfies the arithmetic that the row contract tests.
tally_appearances :
    (team : ℕ) (ms : List PlayedFixture)
    → (tally team ms).played ≡ (tally team ms).won + (tally team ms).drawn + (tally team ms).lost
unfolding tally
tally_appearances team [] = refl
tally_appearances team (m ∷ ms) = omega (arith, tally_appearances team ms, played_in_lem team m)

pub make_row-tally :
    (team : ℕ) (ms : List PlayedFixture)
    → make_row team (tally team ms) ≡ ok (record { team_id = team; totals = tally team ms })
unfolding make_row tally
make_row-tally team ms = ground (arith, tally_appearances team ms)

abbrev pub tally_row : List PlayedFixture → ℕ → TeamTableRow
tally_row ms team = record { team_id = team; totals = tally team ms }

module _ (ids : List ℕ) (ms : List PlayedFixture) where
  abbrev values : Dict Totals
  values = expected_totals ms (fill no_totals ids)

  row_for-values : (k : ℕ) → mem k ids ≡ true → row_for values k ≡ ok (tally_row ms k)
  unfolding row_for
  row_for-values k h = ground (arith, lookup-expected_fill ids k ms h, make_row-tally k ms)

  row_matches-values : (k : ℕ) → mem k ids ≡ true → row_matches values (tally_row ms k) ≡ true
  unfolding row_matches
  row_matches-values k h =
      ground (arith, lookup-expected_fill ids k ms h, totals_eq_refl (tally k ms))

  rows_of_members :
      (ks : List ℕ)
      → ((k : ℕ) → mem k ks ≡ true → mem k ids ≡ true)
      → map_result (row_for values) ks ≡ ok (map (tally_row ms) ks)
  rows_of_members [] h = refl
  rows_of_members (k ∷ ks) h =
      rw (row_for-values k (h k (ground arith)), rows_of_members ks (λ j m. h j (ground arith)))
        refl

  rows_agree :
      (ks : List ℕ)
      → ((k : ℕ) → mem k ks ≡ true → mem k ids ≡ true)
      → all (row_matches values) (map (tally_row ms) ks) ≡ true
  rows_agree [] h = refl
  rows_agree (k ∷ ks) h =
      rw (row_matches-values k (h k (ground arith))) (rows_agree ks (λ j m. h j (ground arith)))

pub row_ids-map : (ms : List PlayedFixture) (ks : List ℕ) → row_ids (map (tally_row ms) ks) ≡ ks
row_ids-map ms [] = refl
row_ids-map ms (k ∷ ks) = ap (λ r. k ∷ r) (row_ids-map ms ks)

canonical_team_ids_lem :
    (ids : List ℕ)
    → canonical_team_ids ids
      ≡ (if length ids == 20 && unique ids then ok (sort ids) else err not_twenty_unique_teams)
unfolding canonical_team_ids
canonical_team_ids_lem ids =
    ground (arith, length-sort_by (λ n. n) ids, length-to_set (sort ids), unique-sort ids)

-- The table that a ledger determines: members and matches by identifier, a tally for each member.
unfoldable pub league_table : List ℕ → List PlayedFixture → LeagueTableState
league_table ids ms = record {
  team_ids = sort ids;
  matches = sort_by (λ m. m.fixture_id) ms;
  rows = map (tally_row ms) (sort ids);
}

-- The order of a ledger does not matter to a tally.
tally-sort_by :
    (team : ℕ) (ms : List PlayedFixture)
    → tally team (sort_by (λ m. m.fixture_id) ms) ≡ tally team ms
unfolding tally
tally-sort_by team ms = simp (sum_of-sort_by (λ (m : PlayedFixture). m.fixture_id))

aggregate_rows_lem :
    (ids : List ℕ) (ms : List PlayedFixture)
    → aggregate_rows ids ms
      ≡ (if any (outside ids) ms then err match_outside_table else ok (map (tally_row ms) ids))
unfolding aggregate_rows
aggregate_rows_lem ids ms =
    rw (accumulate_lem ids ms (fill no_totals ids)) (elim (Bool-cases (any (outside ids) ms)) [
      | inl e ↦ rw e refl
      | inr e ↦ rw e (rows_of_members ids ms ids (λ k h. h))
    ])

outside-sort : (ids : List ℕ) (m : PlayedFixture) → outside (sort ids) m ≡ outside ids m
outside-sort ids m = rw (mem-sort m.home_team_id ids, mem-sort m.away_team_id ids) refl

pub any-outside-sort :
    (ids : List ℕ) (ms : List PlayedFixture) → any (outside (sort ids)) ms ≡ any (outside ids) ms
any-outside-sort ids [] = refl
any-outside-sort ids (m ∷ ms) = ap₂ ◌||◌ (outside-sort ids m) (any-outside-sort ids ms)

fixture_ids-sort :
    (ms : List PlayedFixture) → fixture_ids (sort_by (λ m. m.fixture_id) ms) ≡ sort (fixture_ids ms)
fixture_ids-sort ms = map-sort_by (λ m. m.fixture_id) ms

map-tally_row :
    (ms : List PlayedFixture) (ks : List ℕ)
    → map (tally_row (sort_by (λ m. m.fixture_id) ms)) ks ≡ map (tally_row ms) ks
map-tally_row ms [] = refl
map-tally_row ms (k ∷ ks) =
    ap₂ (λ t r. record { team_id = k; totals = t } ∷ r) (tally-sort_by k ms) (map-tally_row ms ks)

module _ (ids : List ℕ) (ms : List PlayedFixture) (twenty : (length ids == 20) ≡ true)
    (teams_unique : unique ids ≡ true) (fixtures_unique : unique (fixture_ids ms) ≡ true)
    (inside : any (outside ids) ms ≡ false) where
  abbrev ledger : List PlayedFixture
  ledger = sort_by (λ m. m.fixture_id) ms

  teams_canonical : ids_eq (sort ids) (sorted_set (sort ids)) ≡ true
  teams_canonical = rw (sorted_set-sort ids teams_unique) (ids_eq_refl (sort ids))

  matches_canonical : ids_eq (fixture_ids ledger) (sorted_set (fixture_ids ledger)) ≡ true
  matches_canonical =
      rw (fixture_ids-sort ms, sorted_set-sort (fixture_ids ms) fixtures_unique)
        (ids_eq_refl (sort (fixture_ids ms)))

  inside_ledger : any (outside (sort ids)) ledger ≡ false
  inside_ledger =
      any-sort_by (λ m. m.fixture_id) (outside (sort ids)) ms ∙ any-outside-sort ids ms ∙ inside

  -- The validator of the record accepts what the builder hands it.
  check_table-built :
      check_table
        (record { team_ids = sort ids; matches = ledger; rows = map (tally_row ledger) (sort ids) })
      ≡ ok tt
  unfolding check_table
  check_table-built =
      rw
        (
          length-sort_by (λ n. n) ids,
          twenty,
          teams_canonical,
          matches_canonical,
          inside_ledger,
          row_ids-map ledger (sort ids),
          ids_eq_refl (sort ids),
          rows_agree (sort ids) ledger (sort ids) (λ k h. h),
        )
        refl

fixture_test :
    (ms : List PlayedFixture)
    → (length (to_set (fixture_ids (sort_by (λ m. m.fixture_id) ms)))
        == length (sort_by (λ m. m.fixture_id) ms))
      ≡ unique (fixture_ids ms)
fixture_test ms =
    let sorted = sort_by (λ (m : PlayedFixture). m.fixture_id) ms in
    rw (← length-map sorted (λ (m : PlayedFixture). m.fixture_id)) (
      length-to_set (fixture_ids sorted)
      ∙ ap unique (fixture_ids-sort ms)
      ∙ unique-sort (fixture_ids ms))

-- Building a table succeeds exactly for twenty different teams, fixtures that each occur once, and
-- matches between those teams. It then gives each team its tally; otherwise the first violation in
-- this order is raised. The record's own validation never refuses what was built.
pub build_league_table_lem :
    (ids : List ℕ) (ms : List PlayedFixture)
    → build_league_table ids ms ≡ (
        if not (length ids == 20 && unique ids)
        then err not_twenty_unique_teams
        else if not (unique (fixture_ids ms))
        then err fixture_applied_twice
        else if any (outside ids) ms
        then err match_outside_table
        else ok (league_table ids ms))
unfolding build_league_table league_table
build_league_table_lem ids ms =
    rw (canonical_team_ids_lem ids) (elim (Bool-cases (length ids == 20 && unique ids)) [
      | inr few ↦ rw few refl
      | inl teams ↦
          rw (teams, fixture_test ms)
            (elim (Bool-cases (unique (fixture_ids ms))) [
              | inr twice ↦ rw twice refl
              | inl once ↦
                  rw
                    (
                      once,
                      aggregate_rows_lem (sort ids) (sort_by (λ m. m.fixture_id) ms),
                      any-sort_by (λ m. m.fixture_id) (outside (sort ids)) ms,
                      any-outside-sort ids ms,
                    )
                    (elim (Bool-cases (any (outside ids) ms)) [
                      | inl stray ↦ rw stray refl
                      | inr inside ↦
                          rw
                            (
                              inside,
                              check_table-built ids ms (ground arith) (ground arith) once inside,
                              map-tally_row ms (sort ids),
                            )
                            refl
                    ])
            ])
    ])

pub build_league_table-ok :
    (ids : List ℕ) (ms : List PlayedFixture) {t : LeagueTableState}
    → build_league_table ids ms ≡ ok t
    → ((length ids == 20) ≡ true)
      × (unique ids ≡ true)
      × (unique (fixture_ids ms) ≡ true)
      × (any (outside ids) ms ≡ false)
      × (t ≡ league_table ids ms)
build_league_table-ok ids ms h = ground (arith, build_league_table_lem ids ms)
