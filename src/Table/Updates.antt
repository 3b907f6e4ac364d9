-- ===== src/Table/Updates.antt =====
-- The table does not depend on the order of its ledger, and `apply_match_result` extends the ledger.
use mathlib.Core.List.{Permᴰ}
use ai_powered_premier_leagu.Prelude.{
  ℕ, ◌==◌, ◌≡◌, refl, sym, ap, ap₂, ◌∙◌, true, not, ◌&&◌, ◌||◌, Option, none, some, List, [], ◌∷◌,
  ◌++◌, map, any, mem, unique, length, sort, mem-append, ok, err, arith, if◌then◌else◌, Bool-cases,
  inl, inr, mem-Permᴰ, unique-Permᴰ, sort_by-Permᴰ, sort_by-perm, append_right-Permᴰ, any-Permᴰ,
  length-Permᴰ, sum_of-Permᴰ,
}
use ai_powered_premier_leagu.Dicts.{map_option}
use ai_powered_premier_leagu.Table.{
  Totals, PlayedFixture, TeamTableRow, LeagueTableState, fixture_applied_twice, outside,
  fixture_ids, build_league_table, apply_match_result,
}
use ai_powered_premier_leagu.Table.Tally.{
  tally, tally-snoc, after_match, played_in, won_in, drawn_in, lost_in, scored_in, conceded_in,
}
use ai_powered_premier_leagu.Table.Build.{
  tally_row, league_table, build_league_table_lem, build_league_table-ok,
}

id-map : (xs : List ℕ) → map (λ n. n) xs ≡ xs
id-map [] = refl
id-map (x ∷ xs) = ap (λ r. x ∷ r) (id-map xs)

sort-Permᴰ : {xs ys : List ℕ} → Permᴰ xs ys → unique xs ≡ true → sort xs ≡ sort ys
sort-Permᴰ {xs} p u = sort_by-Permᴰ (λ n. n) p (ap unique (id-map xs) ∙ u)

unique_ids-Permᴰ : {xs ys : List ℕ} → Permᴰ xs ys → unique xs ≡ unique ys
unique_ids-Permᴰ {xs} {ys} p =
    ap unique (sym (id-map xs)) ∙ unique-Permᴰ (λ n. n) p ∙ ap unique (id-map ys)

mem_ids-Permᴰ : (a : ℕ) {xs ys : List ℕ} → Permᴰ xs ys → mem a xs ≡ mem a ys
mem_ids-Permᴰ a {xs} {ys} p =
    ap (mem a) (sym (id-map xs)) ∙ mem-Permᴰ (λ n. n) a p ∙ ap (mem a) (id-map ys)

tally-Permᴰ : (team : ℕ) {ms ns : List PlayedFixture} → Permᴰ ms ns → tally team ms ≡ tally team ns
unfolding tally
tally-Permᴰ team p = ground (
  arith,
  sum_of-Permᴰ (played_in team) p,
  sum_of-Permᴰ (won_in team) p,
  sum_of-Permᴰ (drawn_in team) p,
  sum_of-Permᴰ (lost_in team) p,
  sum_of-Permᴰ (scored_in team) p,
  sum_of-Permᴰ (conceded_in team) p,
)

rows-Permᴰ :
    {ms ns : List PlayedFixture} (ks : List ℕ)
    → Permᴰ ms ns
    → map (tally_row ms) ks ≡ map (tally_row ns) ks
rows-Permᴰ [] p = refl
rows-Permᴰ (k ∷ ks) p =
    ap₂ (λ t r. record { team_id = k; totals = t } ∷ r) (tally-Permᴰ k p) (rows-Permᴰ ks p)

any-outside-Permᴰ :
    {ids ids' : List ℕ} (ms : List PlayedFixture)
    → Permᴰ ids ids'
    → any (outside ids) ms ≡ any (outside ids') ms
any-outside-Permᴰ [] p = refl
any-outside-Permᴰ {ids} {ids'} (m ∷ ms) p =
    ap₂ ◌||◌
      (ap₂ (λ a b. not a || not b) (mem_ids-Permᴰ m.home_team_id p)
        (mem_ids-Permᴰ m.away_team_id p))
      (any-outside-Permᴰ ms p)

league_table-Permᴰ :
    {ids ids' : List ℕ} {ms ns : List PlayedFixture}
    → Permᴰ ids ids'
    → Permᴰ ms ns
    → unique ids ≡ true
    → unique (fixture_ids ms) ≡ true
    → league_table ids ms ≡ league_table ids' ns
unfolding league_table
league_table-Permᴰ {ids} {ids'} {ms} {ns} p q u v =
    let teams = sort-Permᴰ p u in
    let fixtures = sort_by-Permᴰ (λ (m : PlayedFixture). m.fixture_id) q v in
    let rows = rows-Permᴰ (sort ids) q ∙ ap (map (tally_row ns)) teams in
    λ i. record { team_ids = teams i; matches = fixtures i; rows = rows i }

-- Building does not depend on the order in which the teams and the results are given, the error that
-- is raised included.
pub build_league_table-Permᴰ :
    {ids ids' : List ℕ} {ms ns : List PlayedFixture}
    → Permᴰ ids ids'
    → Permᴰ ms ns
    → build_league_table ids ms ≡ build_league_table ids' ns
build_league_table-Permᴰ {ids} {ids'} {ms} {ns} p q = ground (
  arith,
  build_league_table_lem ids ms,
  build_league_table_lem ids' ns,
  length-Permᴰ p,
  unique_ids-Permᴰ p,
  unique-Permᴰ (λ (m : PlayedFixture). m.fixture_id) q,
  any-outside-Permᴰ ms p,
  any-Permᴰ (outside ids') q,
  league_table-Permᴰ p q,
)

unique-snoc : (x : ℕ) (xs : List ℕ) → unique (xs ++ x ∷ []) ≡ (unique xs && not (mem x xs))
unique-snoc x [] = refl
unique-snoc x (y ∷ ys) = ground (arith, unique-snoc x ys, mem-append y ys (x ∷ []))

fixture_ids-snoc :
    (ms : List PlayedFixture) (m : PlayedFixture)
    → fixture_ids (ms ++ m ∷ []) ≡ fixture_ids ms ++ m.fixture_id ∷ []
fixture_ids-snoc [] m = refl
fixture_ids-snoc (n ∷ ms) m = ap (λ r. n.fixture_id ∷ r) (fixture_ids-snoc ms m)

build_league_table-repeated :
    (ids : List ℕ) (ms : List PlayedFixture) (m : PlayedFixture)
    → (length ids == 20) ≡ true
    → unique ids ≡ true
    → mem m.fixture_id (fixture_ids ms) ≡ true
    → build_league_table ids (ms ++ m ∷ []) ≡ err fixture_applied_twice
build_league_table-repeated ids ms m twenty u again = ground (
  arith,
  build_league_table_lem ids (ms ++ m ∷ []),
  ap unique (fixture_ids-snoc ms m),
  unique-snoc m.fixture_id (fixture_ids ms),
)

-- Applying a result to a table that was built from a ledger is building from the ledger with that
-- result added at its end: with the same table if it succeeds, and the same error if it fails.
pub apply_match_result-append :
    (ids : List ℕ) (ms : List PlayedFixture) (m : PlayedFixture) {t : LeagueTableState}
    → build_league_table ids ms ≡ ok t
    → apply_match_result t m ≡ build_league_table ids (ms ++ m ∷ [])
unfolding apply_match_result league_table
apply_match_result-append ids ms m h =
    let (twenty, u, once, inside, e) = build_league_table-ok ids ms h in
    let same_ids =
      mem-Permᴰ (λ (n : PlayedFixture). n.fixture_id) m.fixture_id
        (sort_by-perm (λ (n : PlayedFixture). n.fixture_id) ms) in
    rw e (elim (Bool-cases (mem m.fixture_id (fixture_ids ms))) [
      | inl again ↦ rw (same_ids, again) (sym (build_league_table-repeated ids ms m twenty u again))
      | inr new ↦
          rw (same_ids, new)
            (build_league_table-Permᴰ (sort_by-perm (λ n. n) ids)
              (append_right-Permᴰ (m ∷ []) (sort_by-perm (λ (n : PlayedFixture). n.fixture_id) ms)))
    ])

-- The row of a team, if it has one.
abbrev pub row_of : ℕ → List TeamTableRow → Option Totals
row_of team [] = none
row_of team (r ∷ rs) = if team == r.team_id then some r.totals else row_of team rs

row_of-map :
    (team : ℕ) (ms : List PlayedFixture) (ks : List ℕ)
    → row_of team (map (tally_row ms) ks) ≡ (if mem team ks then some (tally team ms) else none)
row_of-map team ms [] = refl
row_of-map team ms (k ∷ ks) = ground (arith, row_of-map team ms ks)

-- A result that is applied moves the rows of its two teams, each by its side of the match, leaves
-- every other row as it is, and keeps the members.
pub apply_match_result_rows :
    (ids : List ℕ) (ms : List PlayedFixture) (m : PlayedFixture) {t t' : LeagueTableState}
    → build_league_table ids ms ≡ ok t
    → apply_match_result t m ≡ ok t'
    → (t'.team_ids ≡ t.team_ids)
      × ((team : ℕ) → row_of team t'.rows ≡ map_option (after_match team m) (row_of team t.rows))
unfolding league_table
apply_match_result_rows ids ms m h k =
    let (_, _, _, _, e) = build_league_table-ok ids ms h in
    let (_, _, _, _, e') =
      build_league_table-ok ids (ms ++ m ∷ []) (sym (apply_match_result-append ids ms m h) ∙ k) in
    rw (e, e')
      (
        refl,
        λ team.
            rw
              (
                row_of-map team (ms ++ m ∷ []) (sort ids),
                row_of-map team ms (sort ids),
                tally-snoc team ms m,
              )
              (ground arith),
      )
