-- ===== src/Table/Conservation.antt =====
-- What every match adds to the table as a whole.
use ai_powered_premier_leagu.Prelude.{
  ℕ, ◌+◌, ◌*◌, ◌==◌, ◌≡◌, refl, sym, ap, ap₂, ◌∙◌, true, false, List, [], ◌∷◌, map, any, mem,
  unique, sum_of, length, sort, unique-sort, ok, arith, if◌then◌else◌,
}
use ai_powered_premier_leagu.Fixtures.{draw}
use ai_powered_premier_leagu.Table.{
  Totals, PlayedFixture, TeamTableRow, LeagueTableState, scoreline_outcome, outside,
  build_league_table,
}
use ai_powered_premier_leagu.Table.Tally.{
  tally, by_side, draws, played_in, won_in, drawn_in, lost_in, scored_in, conceded_in,
}
use ai_powered_premier_leagu.Table.Build.{
  tally_row, league_table, build_league_table-ok, any-outside-sort,
}

-- The side of one team, summed over members that are all different, is counted once.
sum_of-one_absent :
    (team v : ℕ) (ids : List ℕ)
    → mem team ids ≡ false
    → sum_of (λ k. if k == team then v else 0) ids ≡ 0
sum_of-one_absent team v [] h = refl
sum_of-one_absent team v (k ∷ ks) h = ground (arith, sum_of-one_absent team v ks)

sum_of-one :
    (team v : ℕ) (ids : List ℕ)
    → unique ids ≡ true
    → mem team ids ≡ true
    → sum_of (λ k. if k == team then v else 0) ids ≡ v
sum_of-one team v [] u h = cc
sum_of-one team v (k ∷ ks) u h = ground (arith, sum_of-one team v ks, sum_of-one_absent team v ks)

sum_of_add {ℓ} :
    {A : Type ℓ} (f g : A → ℕ) (ids : List A)
    → sum_of (λ k. f k + g k) ids ≡ sum_of f ids + sum_of g ids
sum_of_add f g [] = refl
sum_of_add f g (k ∷ ks) = omega (arith, sum_of_add f g ks)

sum_of-by_side :
    (ids : List ℕ) (m : PlayedFixture) (v w : ℕ)
    → unique ids ≡ true
    → outside ids m ≡ false
    → sum_of (λ k. by_side k m v w) ids ≡ v + w
sum_of-by_side ids m v w u o =
    sum_of_add (λ k. if k == m.home_team_id then v else 0)
      (λ k. if k == m.away_team_id then w else 0) ids
    ∙ ap₂ ◌+◌ (sum_of-one m.home_team_id v ids u (ground arith))
        (sum_of-one m.away_team_id w ids u (ground arith))

sum_of_zero : (ids : List ℕ) → sum_of (λ (k : ℕ). 0) ids ≡ 0
sum_of_zero [] = refl
sum_of_zero (k ∷ ks) = omega (arith, sum_of_zero ks)

-- A quantity of each team and match, summed over the members, match by match.
sum_of_swap :
    (f : ℕ → PlayedFixture → ℕ) (g : PlayedFixture → ℕ) (ids : List ℕ) (ms : List PlayedFixture)
    → ((m : PlayedFixture) → outside ids m ≡ false → sum_of (λ k. f k m) ids ≡ g m)
    → any (outside ids) ms ≡ false
    → sum_of (λ k. sum_of (f k) ms) ids ≡ sum_of g ms
sum_of_swap f g ids [] h o = sum_of_zero ids
sum_of_swap f g ids (m ∷ ms) h o =
    sum_of_add (λ k. f k m) (λ k. sum_of (f k) ms) ids
    ∙ ap₂ ◌+◌ (h m (ground arith)) (sum_of_swap f g ids ms h (ground arith))

abbrev pub draw_count : List PlayedFixture → ℕ
draw_count ms = sum_of (λ m. draws (scoreline_outcome m.scoreline)) ms

abbrev pub goal_count : List PlayedFixture → ℕ
goal_count ms = sum_of (λ m. m.scoreline.home_goals + m.scoreline.away_goals) ms

abbrev pub column : (Totals → ℕ) → LeagueTableState → ℕ
column f t = sum_of (λ (r : TeamTableRow). f r.totals) t.rows

sum_of-tally_row :
    (f : Totals → ℕ) (ms : List PlayedFixture) (ks : List ℕ)
    → sum_of (λ (r : TeamTableRow). f r.totals) (map (tally_row ms) ks)
      ≡ sum_of (λ k. f (tally k ms)) ks
sum_of-tally_row f ms [] = refl
sum_of-tally_row f ms (k ∷ ks) = ap (λ n. f (tally k ms) + n) (sum_of-tally_row f ms ks)

length-eq-sum_of : (ms : List PlayedFixture) → sum_of (λ (m : PlayedFixture). 2) ms ≡ 2 * length ms
length-eq-sum_of [] = refl
length-eq-sum_of (m ∷ ms) = omega (arith, length-eq-sum_of ms)

-- Wins of a match, of either side.
abbrev decisive : PlayedFixture → ℕ
decisive m = elim (scoreline_outcome m.scoreline) [ draw ↦ 0 | _ ↦ 1 ]

decisive_count : (ms : List PlayedFixture) → sum_of decisive ms + draw_count ms ≡ length ms
decisive_count [] = refl
decisive_count (m ∷ ms) = ground (arith, decisive_count ms)

sum_of_mul : (f : ℕ → ℕ) (ids : List ℕ) → sum_of (λ k. 3 * f k) ids ≡ 3 * sum_of f ids
sum_of_mul f [] = refl
sum_of_mul f (k ∷ ks) = omega (arith, sum_of_mul f ks)

module _ (ids : List ℕ) (ms : List PlayedFixture) (u : unique ids ≡ true)
    (o : any (outside ids) ms ≡ false) where
  abbrev total : (Totals → ℕ) → ℕ
  total f = sum_of (λ k. f (tally k ms)) ids

  total_played : total (λ t. t.played) ≡ 2 * length ms
  unfolding tally played_in
  total_played =
      sum_of_swap played_in (λ m. 2) ids ms (λ m i. sum_of-by_side ids m 1 1 u i) o
      ∙ length-eq-sum_of ms

  total_won : total (λ t. t.won) ≡ sum_of decisive ms
  unfolding tally won_in
  total_won =
      sum_of_swap won_in decisive ids ms (λ m i. sum_of-by_side ids m _ _ u i ∙ ground arith) o

  total_lost : total (λ t. t.lost) ≡ sum_of decisive ms
  unfolding tally lost_in
  total_lost =
      sum_of_swap lost_in decisive ids ms (λ m i. sum_of-by_side ids m _ _ u i ∙ ground arith) o

  total_drawn : total (λ t. t.drawn) ≡ 2 * draw_count ms
  unfolding tally drawn_in
  total_drawn =
      sum_of_swap drawn_in
        (λ m. draws (scoreline_outcome m.scoreline) + draws (scoreline_outcome m.scoreline)) ids ms
        (λ m i. sum_of-by_side ids m _ _ u i) o
      ∙ sum_of_add (λ m. draws (scoreline_outcome m.scoreline))
          (λ m. draws (scoreline_outcome m.scoreline)) ms
      ∙ omega arith

  total_for : total (λ t. t.goals_for) ≡ goal_count ms
  unfolding tally scored_in
  total_for = sum_of_swap scored_in _ ids ms (λ m i. sum_of-by_side ids m _ _ u i) o

  total_against : total (λ t. t.goals_against) ≡ goal_count ms
  unfolding tally conceded_in
  total_against =
      sum_of_swap conceded_in (λ m. m.scoreline.home_goals + m.scoreline.away_goals) ids ms
        (λ m i. sum_of-by_side ids m _ _ u i ∙ omega arith) o

  total_points : total (λ t. t.points) + draw_count ms ≡ 3 * length ms
  unfolding tally
  total_points =
      let split : total (λ t. t.points) ≡ 3 * total (λ t. t.won) + total (λ t. t.drawn) =
        sum_of_add (λ k. 3 * (tally k ms).won) (λ k. (tally k ms).drawn) ids
        ∙ ap (λ n. n + total (λ t. t.drawn)) (sum_of_mul (λ k. (tally k ms).won) ids) in
      omega (arith, split, total_won, total_drawn, decisive_count ms)

-- Over a whole table that was built from a ledger: two appearances for each match, as many wins as
-- losses, as many goals scored as conceded, and these are the goals of the ledger; three points for
-- each match, less one for each draw.
pub build_league_table_conserves :
    (ids : List ℕ) (ms : List PlayedFixture) {t : LeagueTableState}
    → build_league_table ids ms ≡ ok t
    → (column (λ e. e.played) t ≡ 2 * length ms)
      × (column (λ e. e.won) t ≡ column (λ e. e.lost) t)
      × (column (λ e. e.goals_for) t ≡ column (λ e. e.goals_against) t)
      × (column (λ e. e.goals_for) t ≡ goal_count ms)
      × (column (λ e. e.points) t + draw_count ms ≡ 3 * length ms)
unfolding league_table
build_league_table_conserves ids ms h =
    let (twenty, u, once, inside, e) = build_league_table-ok ids ms h in
    let u' = unique-sort ids ∙ u in
    let o' = any-outside-sort ids ms ∙ inside in
    let at = λ (f : Totals → ℕ). sum_of-tally_row f ms (sort ids) in
    rw
      (
        e,
        at (λ e. e.played),
        at (λ e. e.won),
        at (λ e. e.lost),
        at (λ e. e.goals_for),
        at (λ e. e.goals_against),
        at (λ e. e.points),
      )
      (
        total_played (sort ids) ms u' o',
        total_won (sort ids) ms u' o' ∙ sym (total_lost (sort ids) ms u' o'),
        total_for (sort ids) ms u' o' ∙ sym (total_against (sort ids) ms u' o'),
        total_for (sort ids) ms u' o',
        total_points (sort ids) ms u' o',
      )
