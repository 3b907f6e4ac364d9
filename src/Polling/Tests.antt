-- ===== src/Polling/Tests.antt =====
-- A plan for three fixtures: one to come, one under way, one over.
use ai_powered_premier_leagu.Prelude.{
  ℕ, ◌+◌, ◌≡◌, ◌≤◌, ◌<◌, refl, true, all, none, some, is_none, List, [], ◌∷◌, map, sort, mem, leb,
  ok, arith,
}
use ai_powered_premier_leagu.Datetimes.{utc, hours, days, minutes}
use ai_powered_premier_leagu.Fixtures.{FixtureStatus, scheduled, finished, in_progress, exact}
use ai_powered_premier_leagu.Polling.{
  CanonicalCurrentFixture, LocalStart, FixturePollDecision, FixturePollingPlan, decision, plan,
  pending, fixture_id_of, exact_decision, decide_all, earliest,
}
use ai_powered_premier_leagu.Polling.Timing.{decision-bounds, decision-start, start_of}
use ai_powered_premier_leagu.Polling.Plan.{plan-decisions, plan-next, is_closed}

abbrev now : ℕ
now = 1723834800000000

abbrev of_status : ℕ → FixtureStatus → ℕ → CanonicalCurrentFixture
of_status id status kickoff = record {
  fixture = record {
    id = id;
    competition_id = "eng-premier-league";
    season_id = "2024-2025";
    kickoff_at = utc kickoff;
    kickoff_precision = exact;
    home_team_id = 1;
    away_team_id = 2;
    status = status;
    full_time_score = none;
    half_time_score = none;
    outcome = none;
    statistics = none;
  };
  source_timezone = 0;
  source_local_date = 19951;
}

abbrev midnight : LocalStart
midnight timezone date = days date

-- Seven hours before its kickoff.
abbrev soon : CanonicalCurrentFixture
soon = of_status 9 scheduled (now + hours 7)

abbrev fixtures : List CanonicalCurrentFixture
fixtures = soon ∷ of_status 4 in_progress now ∷ of_status 6 finished now ∷ []

abbrev made : FixturePollingPlan
made = record {
  evaluated_at = utc now;
  decisions = decide_all midnight now fixtures;
  next_poll_at = earliest (pending (decide_all midnight now fixtures));
}

planned : plan midnight fixtures (utc now) ≡ ok made
unfolding plan
planned = refl

next_minute : made.next_poll_at ≡ some (now + minutes 1)
unfolding decision exact_decision
next_minute = refl

in_an_hour : (decision midnight soon now).next_poll_at ≡ some (now + hours 1)
unfolding decision exact_decision
in_an_hour = refl

decision-bounds_example : (now < now + hours 1) × (now + hours 1 ≤ now + days 1)
decision-bounds_example = decision-bounds midnight soon now (now + hours 1) in_an_hour

decision-start_example :
    (t : ℕ) × ((decision midnight soon now).next_poll_at ≡ some t)
    × (now < t)
    × (t ≤ start_of midnight soon exact)
decision-start_example = decision-start midnight soon now refl (omega arith)

plan-decisions_example :
    (map (λ (d : FixturePollDecision). d.fixture_id) made.decisions
      ≡ sort (map fixture_id_of fixtures))
    × (is_none made.next_poll_at ≡ all is_closed fixtures)
plan-decisions_example = plan-decisions midnight fixtures (utc now) made planned

plan-next_example :
    (mem (now + minutes 1) (pending made.decisions) ≡ true)
    × (all (leb (now + minutes 1)) (pending made.decisions) ≡ true)
plan-next_example = plan-next midnight fixtures (utc now) made (now + minutes 1) planned next_minute
