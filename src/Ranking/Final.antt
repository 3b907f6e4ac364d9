-- ===== src/Ranking/Final.antt =====
-- `rank_final_table` on a table that was built from a ledger: the official order, or a tie.
use mathlib.Core.List.{Permᴰ}
use mathlib.Core.List.Permᴰ
use ai_powered_premier_leagu.Prelude.{
  ℕ, suc, ◌+◌, ◌≡◌, ◌≤◌, refl, sym, ap, ◌∙◌, true, List, [], ◌∷◌, map, length, All, ok, err,
  Result-cases, ◌⊎◌, inl, inr, arith, subst, unique, unique-Permᴰ, length-Permᴰ, length-map,
  to_set-unique, unique-sort, length-sort_by, to_set, sort,
}
use ai_powered_premier_leagu.Grouping.Order.{Pairs}
use ai_powered_premier_leagu.Table.{
  PlayedFixture, TeamTableRow, LeagueTableState, build_league_table, make_row, row_ids,
}
use ai_powered_premier_leagu.Table.Build.{
  build_league_table-ok, league_table, tally_row, make_row-tally, row_ids-map,
}
use ai_powered_premier_leagu.Ranking.{
  RankError, Placed, order_rows, RankedTableRow, make_ranked_row, number_rows, positions, range,
  check_ranked, rank_final_table,
}
use ai_powered_premier_leagu.Ranking.Lists.{All-Permᴰ}
use ai_powered_premier_leagu.Ranking.Groups.{deciding, Above, placed_rows}
use ai_powered_premier_leagu.Ranking.Ties.{RaisesTie}
use ai_powered_premier_leagu.Ranking.Ordering.{Ordered, order_rows-ok, order_rows-err}

-- The ranked rows that are numbered from a position on.
abbrev pub ranked_from : ℕ → List Placed → List RankedTableRow
ranked_from n [] = []
ranked_from n (p ∷ ps) =
    record {
      row = p.row;
      position = n;
      head_to_head_points = p.head_to_head.points;
      head_to_head_away_goals = p.head_to_head.away_goals;
    }
    ∷ ranked_from (suc n) ps

abbrev IsValidRow : TeamTableRow → Type 0
IsValidRow r = make_row r.team_id r.totals ≡ ok r

make_ranked_row_lem :
    (n : ℕ) (p : Placed)
    → 1 ≤ n
    → n ≤ 20
    → IsValidRow p.row
    → make_ranked_row n p
      ≡ ok (record {
        row = p.row;
        position = n;
        head_to_head_points = p.head_to_head.points;
        head_to_head_away_goals = p.head_to_head.away_goals;
      })
unfolding make_ranked_row
make_ranked_row_lem n p low high v = ground arith

number_rows_lem :
    (n : ℕ) (ps : List Placed)
    → 1 ≤ n
    → n + length ps ≤ 21
    → All IsValidRow (placed_rows ps)
    → number_rows n ps ≡ ok (ranked_from n ps)
unfolding number_rows
number_rows_lem n [] low high v = refl
number_rows_lem n (p ∷ ps) low high v =
    rw
      (
        make_ranked_row_lem n p low (omega arith) v.0,
        number_rows_lem (suc n) ps (omega arith) (omega arith) v.1,
      )
      refl

positions-ranked_from :
    (n : ℕ) (ps : List Placed) → positions (ranked_from n ps) ≡ range n (length ps)
positions-ranked_from n [] = refl
positions-ranked_from n (p ∷ ps) = ap (λ l. n ∷ l) (positions-ranked_from (suc n) ps)

length-ranked_from : (n : ℕ) (ps : List Placed) → length (ranked_from n ps) ≡ length ps
length-ranked_from n [] = refl
length-ranked_from n (p ∷ ps) = ap suc (length-ranked_from (suc n) ps)

ranked_ids :
    (n : ℕ) (ps : List Placed)
    → map (λ (r : RankedTableRow). r.row.team_id) (ranked_from n ps) ≡ row_ids (placed_rows ps)
ranked_ids n [] = refl
ranked_ids n (p ∷ ps) = ap (λ l. p.row.team_id ∷ l) (ranked_ids (suc n) ps)

abbrev pub unranked : RankedTableRow → Placed
unranked r = record {
  row = r.row;
  head_to_head = record { points = r.head_to_head_points; away_goals = r.head_to_head_away_goals };
}

-- The final table: every row once, at the positions 1 to 20 in the official order, with the
-- head-to-head values that decided.
pub record Official (t : LeagueTableState) (rs : List RankedTableRow) : Type 0 where
  pub same : Permᴰ (map (λ r. r.row) rs) t.rows
  pub numbered : positions rs ≡ range 1 20
  pub decided : All (λ r. (unranked r).head_to_head ≡ deciding t.rows t.matches r.row) rs
  pub in_order : Pairs (λ r q. Above (unranked r) (unranked q)) rs

All-ranked_from :
    (P : Placed → Type 0) (n : ℕ) (ps : List Placed)
    → All P ps
    → All (λ r. P (unranked r)) (ranked_from n ps)
All-ranked_from P n [] h = tt
All-ranked_from P n (p ∷ ps) h = (h.0, All-ranked_from P (suc n) ps h.1)

Pairs-ranked_from :
    (n : ℕ) (ps : List Placed)
    → Pairs Above ps
    → Pairs (λ r q. Above (unranked r) (unranked q)) (ranked_from n ps)
Pairs-ranked_from n [] h = tt
Pairs-ranked_from n (p ∷ ps) h =
    (All-ranked_from (Above p) (suc n) ps h.0, Pairs-ranked_from (suc n) ps h.1)

rows-ranked_from :
    (n : ℕ) (ps : List Placed)
    → map (λ (r : RankedTableRow). r.row) (ranked_from n ps) ≡ placed_rows ps
rows-ranked_from n [] = refl
rows-ranked_from n (p ∷ ps) = ap (λ l. p.row ∷ l) (rows-ranked_from (suc n) ps)

valid_rows : (ms : List PlayedFixture) (ks : List ℕ) → All IsValidRow (map (tally_row ms) ks)
valid_rows ms [] = tt
valid_rows ms (k ∷ ks) = (make_row-tally k ms, valid_rows ms ks)

module _ (ids : List ℕ) (ms : List PlayedFixture) {t : LeagueTableState}
    (built : build_league_table ids ms ≡ ok t) where
  table_rows : t.rows ≡ map (tally_row ms) (sort ids)
  unfolding league_table
  table_rows = ap (λ (u : LeagueTableState). u.rows) (build_league_table-ok ids ms built).4

  twenty_rows : length t.rows ≡ 20
  twenty_rows =
      ap length table_rows
      ∙ length-map (sort ids) (tally_row ms)
      ∙ length-sort_by (λ n. n) ids
      ∙ ground (arith, (build_league_table-ok ids ms built).0)

  unique_rows : unique (row_ids t.rows) ≡ true
  unique_rows =
      ap (λ rs. unique (row_ids rs)) table_rows
      ∙ ap unique (row_ids-map ms (sort ids))
      ∙ unique-sort ids
      ∙ (build_league_table-ok ids ms built).1

  module _ (ps : List Placed) (o : Ordered t ps) where
    twenty_placed : length ps ≡ 20
    twenty_placed = sym (length-map ps (λ (p : Placed). p.row)) ∙ length-Permᴰ o.same ∙ twenty_rows

    placed_valid : All IsValidRow (placed_rows ps)
    placed_valid =
        All-Permᴰ IsValidRow (Permᴰ.symm o.same)
          (subst (All IsValidRow) (sym table_rows) (valid_rows ms (sort ids)))

    twenty_teams :
        length (to_set (map (λ (r : RankedTableRow). r.row.team_id) (ranked_from 1 ps))) ≡ 20
    twenty_teams =
        ap (λ l. length (to_set l)) (ranked_ids 1 ps)
        ∙ ap length (
            to_set-unique (row_ids (placed_rows ps))
              (unique-Permᴰ (λ (r : TeamTableRow). r.team_id) o.same ∙ unique_rows))
        ∙ length-map (placed_rows ps) (λ (r : TeamTableRow). r.team_id)
        ∙ length-map ps (λ (p : Placed). p.row)
        ∙ twenty_placed

    check_ranked-placed : check_ranked (ranked_from 1 ps) ≡ ok tt
    unfolding check_ranked
    check_ranked-placed =
        rw (length-ranked_from 1 ps, positions-ranked_from 1 ps, twenty_teams, twenty_placed) refl

    rank_placed : order_rows t ≡ ok ps → rank_final_table t ≡ ok (ranked_from 1 ps)
    unfolding rank_final_table
    rank_placed h =
        rw
          (
            h,
            number_rows_lem 1 ps (omega arith) (omega (arith, twenty_placed)) placed_valid,
            check_ranked-placed,
          )
          refl

    ranked-Official : Official t (ranked_from 1 ps)
    ranked-Official = record {
      same = subst (λ l. Permᴰ l t.rows) (sym (rows-ranked_from 1 ps)) o.same;
      numbered = positions-ranked_from 1 ps ∙ ap (range 1) twenty_placed;
      decided =
          All-ranked_from (λ p. p.head_to_head ≡ deciding t.rows t.matches p.row) 1 ps o.decided;
      in_order = Pairs-ranked_from 1 ps o.in_order;
    }

  pub rank_unplaced : (e : RankError) → order_rows t ≡ err e → rank_final_table t ≡ err e
  unfolding rank_final_table
  rank_unplaced e h = rw h refl

-- Ranking a table that was built from a ledger ends in one of two ways. Either it gives the official
-- final table, or it raises an unresolved tie, and then two rows agree in points, goal difference,
-- goals, and the head-to-head values within their group. The contracts of the rows and of the ranked
-- table never refuse what was ranked.
pub rank_final_table_lem :
    (ids : List ℕ) (ms : List PlayedFixture) {t : LeagueTableState}
    → build_league_table ids ms ≡ ok t
    → ((rs : List RankedTableRow) × (rank_final_table t ≡ ok rs) × Official t rs)
      ⊎ ((e : RankError) × (rank_final_table t ≡ err e) × RaisesTie t.rows t.matches e)
rank_final_table_lem ids ms {t} built = elim (Result-cases (order_rows t)) [
  | inl (ps, h) ↦
      let o = order_rows-ok t ps h in
      inl (ranked_from 1 ps, rank_placed ids ms built ps o h, ranked-Official ids ms built ps o)
  | inr (e, h) ↦ inr (e, rank_unplaced ids ms built e h, order_rows-err t e h)
]
