-- ===== src/Polling/Timing.antt =====
-- src/pl_platform/automation/polling.py: when one fixture is looked at again.
use ai_powered_premier_leagu.Prelude.{
  ℕ, ◌+◌, ◌≡◌, ◌≤◌, ◌<◌, Bool, true, false, refl, ap, sym, ◌∙◌, Option, none, some, is_none, arith,
}
use ai_powered_premier_leagu.Datetimes.{minutes, hours, days}
use ai_powered_premier_leagu.Fixtures.{
  Fixture, FixtureStatus, scheduled, postponed, cancelled, abandoned, in_progress, finished,
  KickoffPrecision, exact, date_only,
}
use ai_powered_premier_leagu.Polling.{
  CanonicalCurrentFixture, LocalStart, date_only_decision, exact_decision, scheduled_decision,
  status_decision, decision,
}

abbrev pub is_over : FixtureStatus → Bool
is_over cancelled = true
is_over abandoned = true
is_over finished = true
is_over _ = false

some-injective : (t u : ℕ) → some t ≡ some u → t ≡ u
some-injective t u same = cc

module _ (fixture : Fixture) (at t : ℕ) where
  exact_decision-bounds :
      (exact_decision fixture at).next_poll_at ≡ some t → (at < t) × (t ≤ at + days 1)
  unfolding exact_decision
  exact_decision-bounds is = ground arith

  exact_decision-kickoff :
      (exact_decision fixture at).next_poll_at ≡ some t
      → at < fixture.kickoff_at.instant
      → t ≤ fixture.kickoff_at.instant
  unfolding exact_decision
  exact_decision-kickoff is ahead = ground arith

module _ (local_start : LocalStart) (current : CanonicalCurrentFixture) (at t : ℕ) where
  date_only_decision-bounds :
      (date_only_decision local_start current at).next_poll_at ≡ some t
      → (at < t) × (t ≤ at + days 1)
  unfolding date_only_decision
  date_only_decision-bounds is = ground arith

  date_only_decision-start :
      (date_only_decision local_start current at).next_poll_at ≡ some t
      → at < local_start current.source_timezone current.source_local_date
      → t ≤ local_start current.source_timezone current.source_local_date
  unfolding date_only_decision
  date_only_decision-start is ahead = ground arith

  scheduled_decision-bounds :
      (precision : KickoffPrecision)
      → (scheduled_decision local_start current at precision).next_poll_at ≡ some t
      → (at < t) × (t ≤ at + days 1)
  scheduled_decision-bounds exact is = exact_decision-bounds current.fixture at t is
  scheduled_decision-bounds date_only is = date_only_decision-bounds is

  status_decision-bounds :
      (status : FixtureStatus)
      → (status_decision local_start current at status).next_poll_at ≡ some t
      → (at < t) × (t ≤ at + days 1)
  status_decision-bounds scheduled is =
      scheduled_decision-bounds current.fixture.kickoff_precision is
  status_decision-bounds postponed is = let same = some-injective (at + hours 6) t is in omega arith
  status_decision-bounds cancelled is = cc
  status_decision-bounds abandoned is = cc
  status_decision-bounds in_progress is =
      let same = some-injective (at + minutes 1) t is in omega arith
  status_decision-bounds finished is = cc

  -- A fixture that is looked at again is looked at after the present moment, and within a day.
  pub decision-bounds :
      (decision local_start current at).next_poll_at ≡ some t → (at < t) × (t ≤ at + days 1)
  unfolding decision
  decision-bounds is = status_decision-bounds current.fixture.status is

-- The moment that the policy takes for the start of a fixture.
abbrev pub start_of : LocalStart → CanonicalCurrentFixture → KickoffPrecision → ℕ
start_of local_start current exact = current.fixture.kickoff_at.instant
start_of local_start current date_only =
    local_start current.source_timezone current.source_local_date

module _ (local_start : LocalStart) (current : CanonicalCurrentFixture) (at t : ℕ) where
  scheduled_decision-start :
      (precision : KickoffPrecision)
      → (scheduled_decision local_start current at precision).next_poll_at ≡ some t
      → at < start_of local_start current precision
      → t ≤ start_of local_start current precision
  scheduled_decision-start exact is ahead = exact_decision-kickoff current.fixture at t is ahead
  scheduled_decision-start date_only is ahead =
      date_only_decision-start local_start current at t is ahead

module _ (local_start : LocalStart) (current : CanonicalCurrentFixture) (at : ℕ) where
  scheduled_decision-some :
      (precision : KickoffPrecision)
      → is_none (scheduled_decision local_start current at precision).next_poll_at ≡ false
  unfolding exact_decision date_only_decision
  scheduled_decision-some exact = ground arith
  scheduled_decision-some date_only = ground arith

  status_decision-none :
      (status : FixtureStatus)
      → is_none (status_decision local_start current at status).next_poll_at ≡ is_over status
  status_decision-none scheduled = scheduled_decision-some current.fixture.kickoff_precision
  status_decision-none postponed = refl
  status_decision-none cancelled = refl
  status_decision-none abandoned = refl
  status_decision-none in_progress = refl
  status_decision-none finished = refl

  -- A fixture is not looked at again exactly when it is cancelled, abandoned or finished.
  pub decision-none :
      is_none (decision local_start current at).next_poll_at ≡ is_over current.fixture.status
  unfolding decision
  decision-none = status_decision-none current.fixture.status

  scheduled_decision-id :
      (precision : KickoffPrecision)
      → (scheduled_decision local_start current at precision).fixture_id ≡ current.fixture.id
  unfolding exact_decision date_only_decision
  scheduled_decision-id exact = ground arith
  scheduled_decision-id date_only = ground arith

  status_decision-id :
      (status : FixtureStatus)
      → (status_decision local_start current at status).fixture_id ≡ current.fixture.id
  status_decision-id scheduled = scheduled_decision-id current.fixture.kickoff_precision
  status_decision-id postponed = refl
  status_decision-id cancelled = refl
  status_decision-id abandoned = refl
  status_decision-id in_progress = refl
  status_decision-id finished = refl

  pub decision-id : (decision local_start current at).fixture_id ≡ current.fixture.id
  unfolding decision
  decision-id = status_decision-id current.fixture.status

some-value : (o : Option ℕ) → is_none o ≡ false → (t : ℕ) × (o ≡ some t)
some-value none given = cc
some-value (some t) given = (t, refl)

-- A scheduled fixture that has not started is looked at again, and after the present moment and by
-- its start: its kickoff, or the first moment of its local date where only the date is known.
pub decision-start :
    (local_start : LocalStart) (current : CanonicalCurrentFixture) (at : ℕ)
    → current.fixture.status ≡ scheduled
    → at < start_of local_start current current.fixture.kickoff_precision
    → (t : ℕ) × ((decision local_start current at).next_poll_at ≡ some t)
      × (at < t)
      × (t ≤ start_of local_start current current.fixture.kickoff_precision)
unfolding decision
decision-start local_start current at waiting ahead =
    let open_yet = decision-none local_start current at ∙ ap (λ s. is_over s) waiting in
    let next = some-value (decision local_start current at).next_poll_at open_yet in
    let bounds = decision-bounds local_start current at (next.0) (next.1) in
    let is =
      ap (λ s. (status_decision local_start current at s).next_poll_at) (sym waiting) ∙ next.1 in
    (
      next.0,
      next.1,
      bounds.0,
      scheduled_decision-start local_start current at (next.0) current.fixture.kickoff_precision is
          ahead,
    )
