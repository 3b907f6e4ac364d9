-- ===== src/Table/Tally.antt =====
-- A team's totals described match by match, with no dictionary: what each field counts or sums. The
-- dictionary that the code fills holds these totals.
use ai_powered_premier_leagu.Prelude.{
  ℕ, ◌+◌, ◌*◌, ◌==◌, ◌≡◌, refl, sym, ap, ◌∙◌, Bool, true, false, some, List, [], ◌∷◌, ◌++◌, any,
  mem, sum_of, sum_of-append, ok, err, arith, if◌then◌else◌,
}
use ai_powered_premier_leagu.Fixtures.{home_win, draw, away_win, MatchOutcome}
use ai_powered_premier_leagu.Dicts.{Dict, lookup, fill, lookup-adjust, lookup-fill}
use ai_powered_premier_leagu.Table.{
  Totals, no_totals, PlayedFixture, scoreline_outcome, add_home, add_away, record_match, accumulate,
  expected_totals, outside, match_outside_table,
}

abbrev pub one_if : Bool → ℕ
one_if true = 1
one_if false = 0

-- What a team has from one match: `v` as the home side, `w` as the away side.
abbrev pub by_side : ℕ → PlayedFixture → ℕ → ℕ → ℕ
by_side team m v w =
    (if team == m.home_team_id then v else 0) + (if team == m.away_team_id then w else 0)

abbrev pub home_wins : MatchOutcome → ℕ
home_wins home_win = 1
home_wins _ = 0

abbrev pub away_wins : MatchOutcome → ℕ
away_wins away_win = 1
away_wins _ = 0

abbrev pub draws : MatchOutcome → ℕ
draws draw = 1
draws _ = 0

unfoldable pub played_in : ℕ → PlayedFixture → ℕ
played_in team m = by_side team m 1 1

unfoldable pub won_in : ℕ → PlayedFixture → ℕ
won_in team m = let o = scoreline_outcome m.scoreline in by_side team m (home_wins o) (away_wins o)

unfoldable pub drawn_in : ℕ → PlayedFixture → ℕ
drawn_in team m = let o = scoreline_outcome m.scoreline in by_side team m (draws o) (draws o)

unfoldable pub lost_in : ℕ → PlayedFixture → ℕ
lost_in team m = let o = scoreline_outcome m.scoreline in by_side team m (away_wins o) (home_wins o)

unfoldable pub scored_in : ℕ → PlayedFixture → ℕ
scored_in team m = by_side team m m.scoreline.home_goals m.scoreline.away_goals

unfoldable pub conceded_in : ℕ → PlayedFixture → ℕ
conceded_in team m = by_side team m m.scoreline.away_goals m.scoreline.home_goals

-- The totals of a team over a ledger: three points for a win, one for a draw.
unfoldable pub tally : ℕ → List PlayedFixture → Totals
tally team ms = record {
  played = sum_of (played_in team) ms;
  won = sum_of (won_in team) ms;
  drawn = sum_of (drawn_in team) ms;
  lost = sum_of (lost_in team) ms;
  goals_for = sum_of (scored_in team) ms;
  goals_against = sum_of (conceded_in team) ms;
  points = 3 * sum_of (won_in team) ms + sum_of (drawn_in team) ms;
}

abbrev plus : Totals → Totals → Totals
plus a b = record {
  played = a.played + b.played;
  won = a.won + b.won;
  drawn = a.drawn + b.drawn;
  lost = a.lost + b.lost;
  goals_for = a.goals_for + b.goals_for;
  goals_against = a.goals_against + b.goals_against;
  points = a.points + b.points;
}

plus_none : (t : Totals) → plus no_totals t ≡ t
plus_none t = ground arith

-- What the two updates of `record_match` do to the entry of one team.
abbrev pub after_match : ℕ → PlayedFixture → Totals → Totals
after_match team m t =
    let after_home = if team == m.home_team_id then add_home m.scoreline t else t in
    if team == m.away_team_id then add_away m.scoreline after_home else after_home

lookup-record_match :
    (team : ℕ) (m : PlayedFixture) (d : Dict Totals) {t : Totals}
    → lookup team d ≡ some t
    → lookup team (record_match m d) ≡ some (after_match team m t)
unfolding record_match
lookup-record_match team m d h = simp (lookup-adjust, h) (ground arith)

-- One match moves a team's entry by its share of that match.
after_match_lem :
    (team : ℕ) (m : PlayedFixture) (t : Totals)
    → after_match team m t ≡ plus t (tally team (m ∷ []))
unfolding tally add_home add_away played_in won_in drawn_in lost_in scored_in conceded_in
after_match_lem team m t = ground arith

plus-tally :
    (team : ℕ) (m : PlayedFixture) (ms : List PlayedFixture) (t : Totals)
    → plus (plus t (tally team (m ∷ []))) (tally team ms) ≡ plus t (tally team (m ∷ ms))
unfolding tally
plus-tally team m ms t = ground arith

plus_nil : (team : ℕ) (t : Totals) → plus t (tally team []) ≡ t
unfolding tally
plus_nil team t = ground arith

pub lookup-expected :
    (team : ℕ) (ms : List PlayedFixture) (d : Dict Totals) {t : Totals}
    → lookup team d ≡ some t
    → lookup team (expected_totals ms d) ≡ some (plus t (tally team ms))
unfolding expected_totals
lookup-expected team [] d {t} h = h ∙ ap some (sym (plus_nil team t))
lookup-expected team (m ∷ ms) d {t} h =
    lookup-expected team ms (record_match m d) (lookup-record_match team m d h)
    ∙ ap (λ e. some (plus e (tally team ms))) (after_match_lem team m t)
    ∙ ap some (plus-tally team m ms t)

tally-append :
    (team : ℕ) (ms ns : List PlayedFixture)
    → tally team (ms ++ ns) ≡ plus (tally team ms) (tally team ns)
unfolding tally
tally-append team ms ns = ground (
  arith,
  sum_of-append (played_in team) ms ns,
  sum_of-append (won_in team) ms ns,
  sum_of-append (drawn_in team) ms ns,
  sum_of-append (lost_in team) ms ns,
  sum_of-append (scored_in team) ms ns,
  sum_of-append (conceded_in team) ms ns,
)

-- One more match moves a tally by the update that the code makes.
pub tally-snoc :
    (team : ℕ) (ms : List PlayedFixture) (m : PlayedFixture)
    → tally team (ms ++ m ∷ []) ≡ after_match team m (tally team ms)
tally-snoc team ms m = tally-append team ms (m ∷ []) ∙ sym (after_match_lem team m (tally team ms))

-- After the loop the dictionary holds each member's tally.
pub lookup-expected_fill :
    (ids : List ℕ) (team : ℕ) (ms : List PlayedFixture)
    → mem team ids ≡ true
    → lookup team (expected_totals ms (fill no_totals ids)) ≡ some (tally team ms)
lookup-expected_fill ids team ms h =
    lookup-expected team ms (fill no_totals ids) (lookup-fill team no_totals ids ∙ ground arith)
    ∙ ap some (plus_none (tally team ms))

-- The loop that the code runs either meets a match outside the table, or fills the dictionary that
-- the validator expects.
pub accumulate_lem :
    (ids : List ℕ) (ms : List PlayedFixture) (d : Dict Totals)
    → accumulate ids ms d
      ≡ (if any (outside ids) ms then err match_outside_table else ok (expected_totals ms d))
unfolding accumulate expected_totals
accumulate_lem ids [] d = refl
accumulate_lem ids (m ∷ ms) d = ground (arith, accumulate_lem ids ms (record_match m d))
