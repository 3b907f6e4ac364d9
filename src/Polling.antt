-- ===== src/Polling.antt =====
-- src/pl_platform/automation/polling.py: when to look at a fixture again. Times are microseconds. The
-- first moment of a local date comes from zoneinfo and is an argument.
pub mod Timing
pub mod Plan
mod Tests
use ai_powered_premier_leagu.Prelude.{
  ℕ, ◌+◌, ◌-◌, ◌==◌, leb, ltb, min, Bool, true, false, not, Option, none, some, List, [], ◌∷◌, map,
  length, to_set, sort_by, Result, ok, err, ◌>>=◌, raise_if, if◌then◌else◌,
}
use ai_powered_premier_leagu.Datetimes.{Datetime, is_not_utc, minutes, hours, days}
use ai_powered_premier_leagu.Fixtures.{
  Fixture, FixtureStatus, scheduled, cancelled, abandoned, finished, KickoffPrecision, exact,
  date_only,
}

pub data FixturePollReason : Type 0 where
  in_progress : FixturePollReason
  overdue_exact_kickoff : FixturePollReason
  imminent_exact_kickoff : FixturePollReason
  near_exact_kickoff : FixturePollReason
  distant_exact_kickoff : FixturePollReason
  date_only_upcoming : FixturePollReason
  date_only_active_day : FixturePollReason
  date_only_overdue : FixturePollReason
  postponed : FixturePollReason
  terminal : FixturePollReason

pub record FixturePollDecision : Type 0 where
  pub fixture_id : ℕ
  pub reason : FixturePollReason
  pub next_poll_at : Option ℕ

pub record FixturePollingPlan : Type 0 where
  pub evaluated_at : Datetime
  pub decisions : List FixturePollDecision
  pub next_poll_at : Option ℕ

-- A timezone and a local date are handed to zoneinfo only.
pub record CanonicalCurrentFixture : Type 0 where
  pub fixture : Fixture
  pub source_timezone : ℕ
  pub source_local_date : ℕ

-- `datetime.combine(date, time.min, tzinfo=ZoneInfo(timezone)).astimezone(UTC)`
abbrev pub LocalStart : Type 0
LocalStart = ℕ → ℕ → ℕ

abbrev pub poll : Fixture → FixturePollReason → Option ℕ → FixturePollDecision
poll fixture reason next = record { fixture_id = fixture.id; reason = reason; next_poll_at = next }

-- `_date_only_decision`
unfoldable pub date_only_decision : LocalStart → CanonicalCurrentFixture → ℕ → FixturePollDecision
date_only_decision local_start current at =
    let start = local_start current.source_timezone current.source_local_date in
    let finish = start + days 1 in
    if ltb at start
    then poll current.fixture date_only_upcoming (some (min start (at + days 1)))
    else if ltb at finish
    then poll current.fixture date_only_active_day (some (at + hours 1))
    else poll current.fixture date_only_overdue (some (at + hours 6))

-- `_decision` of a scheduled fixture whose kickoff is exact.
unfoldable pub exact_decision : Fixture → ℕ → FixturePollDecision
exact_decision fixture at =
    let kickoff = fixture.kickoff_at.instant in
    if leb kickoff at
    then poll fixture overdue_exact_kickoff (some (at + minutes 5))
    else if leb (kickoff - at) (hours 6)
    then poll fixture imminent_exact_kickoff (some (min kickoff (at + minutes 15)))
    else if leb (kickoff - at) (days 2)
    then poll fixture near_exact_kickoff (some (at + hours 1))
    else if leb (kickoff - at) (days 7)
    then poll fixture distant_exact_kickoff (some (at + hours 6))
    else poll fixture distant_exact_kickoff (some (at + days 1))

abbrev pub scheduled_decision :
    LocalStart → CanonicalCurrentFixture → ℕ → KickoffPrecision → FixturePollDecision
scheduled_decision local_start current at date_only = date_only_decision local_start current at
scheduled_decision local_start current at exact = exact_decision current.fixture at

abbrev pub status_decision :
    LocalStart → CanonicalCurrentFixture → ℕ → FixtureStatus → FixturePollDecision
status_decision local_start current at cancelled = poll current.fixture terminal none
status_decision local_start current at abandoned = poll current.fixture terminal none
status_decision local_start current at FixtureStatus.in_progress =
    poll current.fixture in_progress (some (at + minutes 1))
status_decision local_start current at FixtureStatus.postponed =
    poll current.fixture postponed (some (at + hours 6))
status_decision local_start current at finished = poll current.fixture terminal none
status_decision local_start current at scheduled =
    scheduled_decision local_start current at current.fixture.kickoff_precision

-- `_decision`
unfoldable pub decision : LocalStart → CanonicalCurrentFixture → ℕ → FixturePollDecision
decision local_start current at = status_decision local_start current at current.fixture.status

pub data PollingError : Type 0 where
  time_not_utc : PollingError
  repeated_fixture : PollingError

-- The times of the decisions that have one, and `min(pending) if pending else None`.
abbrev pub pending : List FixturePollDecision → List ℕ
pending [] = []
pending (d ∷ ds) = let rest = pending ds in elim d.next_poll_at [ none ↦ rest | some t ↦ t ∷ rest ]

abbrev pub earliest : List ℕ → Option ℕ
earliest [] = none
earliest (t ∷ ts) = let rest = earliest ts in elim rest [ none ↦ some t | some u ↦ some (min t u) ]

abbrev pub fixture_id_of : CanonicalCurrentFixture → ℕ
fixture_id_of current = current.fixture.id

abbrev pub decide_all : LocalStart → ℕ → List CanonicalCurrentFixture → List FixturePollDecision
decide_all local_start at fixtures =
    sort_by (λ (d : FixturePollDecision). d.fixture_id)
      (map (λ c. decision local_start c at) fixtures)

unfoldable pub plan :
    LocalStart → List CanonicalCurrentFixture → Datetime → Result PollingError FixturePollingPlan
plan local_start fixtures at = do
  _ ← raise_if (is_not_utc at) time_not_utc
  let ids = map fixture_id_of fixtures
  _ ← raise_if (not (length ids == length (to_set ids))) repeated_fixture
  let decisions = decide_all local_start at.instant fixtures
  ok (record {
    evaluated_at = at;
    decisions = decisions;
    next_poll_at = earliest (pending decisions);
  })
