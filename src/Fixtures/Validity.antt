-- ===== src/Fixtures/Validity.antt =====
-- What a fixture that passes its contract is known to be.
use ai_powered_premier_leagu.Prelude.{
  ◌≤◌, ◌≡◌, ◌≢◌, ◌↔◌, refl, Option, none, some, false, ok, arith,
}
use ai_powered_premier_leagu.Datetimes.{is_not_utc}
use ai_powered_premier_leagu.Fixtures.{
  Fixture, FixtureScore, FixtureStatus, scheduled, postponed, cancelled, abandoned, in_progress,
  finished, score_outcome, check_state, check_fixture, MatchOutcome,
}

-- The half-time goals, where they are known, do not pass the full-time goals.
abbrev pub HalfWithin : Option FixtureScore → FixtureScore → Type 0
HalfWithin (some half) full = (half.home ≤ full.home) × (half.away ≤ full.away)
HalfWithin none full = Unit

-- A finished fixture has a full-time score, the outcome that the score gives, and no more goals at
-- half time; any other has neither score nor outcome.
abbrev pub Consistent :
    FixtureStatus → Option FixtureScore → Option FixtureScore → Option MatchOutcome → Type 0
Consistent finished full half outcome =
    (s : FixtureScore) × (full ≡ some s) × (outcome ≡ some (score_outcome s)) × HalfWithin half s
Consistent _ full half outcome = (full ≡ none) × (half ≡ none) × (outcome ≡ none)

check_state_sound :
    (status : FixtureStatus) (full half : Option FixtureScore) (outcome : Option MatchOutcome)
    → check_state status full half outcome ≡ ok tt
    → Consistent status full half outcome
unfolding check_state
check_state_sound finished (some s) none (some o) h = (s, refl, ground arith, tt)
check_state_sound finished (some s) (some t) (some o) h = (s, refl, ground arith, ground arith)
check_state_sound finished none half o h = ground arith
check_state_sound finished (some s) half none h = ground arith
check_state_sound scheduled full half o h = ground arith
check_state_sound postponed full half o h = ground arith
check_state_sound cancelled full half o h = ground arith
check_state_sound abandoned full half o h = ground arith
check_state_sound in_progress full half o h = ground arith

check_state_complete :
    (status : FixtureStatus) (full half : Option FixtureScore) (outcome : Option MatchOutcome)
    → Consistent status full half outcome
    → check_state status full half outcome ≡ ok tt
unfolding check_state
check_state_complete finished full none o (s, e, f, w) = rw (e, f) (ground arith)
check_state_complete finished full (some t) o (s, e, f, w) = rw (e, f) (ground arith)
check_state_complete scheduled full half o (e, f, g) = ground arith
check_state_complete postponed full half o (e, f, g) = ground arith
check_state_complete cancelled full half o (e, f, g) = ground arith
check_state_complete abandoned full half o (e, f, g) = ground arith
check_state_complete in_progress full half o (e, f, g) = ground arith

-- The contract accepts a fixture exactly when its kickoff is in UTC, its teams differ, and its
-- scores and outcome are consistent with its status.
pub check_fixture_iff :
    (f : Fixture)
    → (check_fixture f ≡ ok tt) ↔ (
        (is_not_utc f.kickoff_at ≡ false)
        × (f.home_team_id ≢ f.away_team_id)
        × Consistent f.status f.full_time_score f.half_time_score f.outcome)
unfolding check_fixture
check_fixture_iff f = (
  λ h. (
    ground arith,
    ground arith,
    check_state_sound f.status f.full_time_score f.half_time_score f.outcome (ground arith),
  ),
  λ (u, d, c).
      ground (arith, check_state_complete f.status f.full_time_score f.half_time_score f.outcome c),
)
