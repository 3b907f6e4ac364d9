-- ===== src/Polling/Plan.antt =====
-- src/pl_platform/automation/polling.py: the plan for a collection of fixtures.
use ai_powered_premier_leagu.Prelude.{
  ℕ, ◌==◌, ◌≡◌, ◌≤◌, leb, Bool, true, ◌&&◌, not, refl, ap, ap₂, sym, ◌∙◌, none, some, is_none, List,
  [], ◌∷◌, map, all, mem, Option-cases, inl, inr, sort, length, to_set, map-sort_by, all-sort_by,
  ok, raise_if, bind_ok, arith,
}
use ai_powered_premier_leagu.Datetimes.{Datetime, is_not_utc}
use ai_powered_premier_leagu.Polling.{
  CanonicalCurrentFixture, LocalStart, FixturePollDecision, FixturePollingPlan, decision,
  decide_all, pending, earliest, plan, fixture_id_of, time_not_utc, repeated_fixture,
}
use ai_powered_premier_leagu.Polling.Timing.{decision-id, decision-none, is_over}

abbrev pub is_closed : CanonicalCurrentFixture → Bool
is_closed current = is_over current.fixture.status

abbrev pub is_idle : FixturePollDecision → Bool
is_idle d = is_none d.next_poll_at

-- What a plan answers with.
Planned : LocalStart → List CanonicalCurrentFixture → Datetime → FixturePollingPlan → Type 0
Planned local_start fixtures at p =
    (p.decisions ≡ decide_all local_start at.instant fixtures)
    × (p.next_poll_at ≡ earliest (pending p.decisions))

plan-Planned :
    (local_start : LocalStart) (fixtures : List CanonicalCurrentFixture) (at : Datetime)
    (p : FixturePollingPlan)
    → plan local_start fixtures at ≡ ok p
    → Planned local_start fixtures at p
unfolding plan Planned
plan-Planned local_start fixtures at p made =
    let ids = map fixture_id_of fixtures in
    let a = bind_ok (raise_if (is_not_utc at) time_not_utc) _ made in
    let b = bind_ok (raise_if (not (length ids == length (to_set ids))) repeated_fixture) _ (a.2) in
    let decisions = decide_all local_start at.instant fixtures in
    let whole : record {
      evaluated_at = at;
      decisions = decisions;
      next_poll_at = earliest (pending decisions);
    }
        ≡ p =
      cc in
    (
      sym (ap (λ (q : FixturePollingPlan). q.decisions) whole),
      sym (ap (λ (q : FixturePollingPlan). q.next_poll_at) whole)
          ∙ ap (λ (q : FixturePollingPlan). earliest (pending q.decisions)) whole,
    )

ids-decide :
    (local_start : LocalStart) (at : ℕ) (fixtures : List CanonicalCurrentFixture)
    → map
        (λ (d : FixturePollDecision). d.fixture_id)
        (map (λ c. decision local_start c at) fixtures)
      ≡ map fixture_id_of fixtures
ids-decide local_start at [] = refl
ids-decide local_start at (c ∷ cs) =
    ap₂ ◌∷◌ (decision-id local_start c at) (ids-decide local_start at cs)

idle-decide :
    (local_start : LocalStart) (at : ℕ) (fixtures : List CanonicalCurrentFixture)
    → all is_idle (map (λ c. decision local_start c at) fixtures) ≡ all is_closed fixtures
idle-decide local_start at [] = refl
idle-decide local_start at (c ∷ cs) =
    ap₂ ◌&&◌ (decision-none local_start c at) (idle-decide local_start at cs)

earliest-idle : (ds : List FixturePollDecision) → is_none (earliest (pending ds)) ≡ all is_idle ds
earliest-idle [] = refl
earliest-idle (d ∷ ds) = ground (arith, earliest-idle ds)

earliest-mem : (ts : List ℕ) (t : ℕ) → earliest ts ≡ some t → mem t ts ≡ true
earliest-mem [] t is = cc
earliest-mem (u ∷ ts) t is = elim (Option-cases (earliest ts)) [
  | inl alone ↦ ground arith
  | inr later ↦
      let v = later.0 in let those = later.1 in let there = earliest-mem ts v those in ground arith
]

earliest-none : (ts : List ℕ) → earliest ts ≡ none → ts ≡ []
earliest-none [] is = refl
earliest-none (t ∷ ts) is = elim (Option-cases (earliest ts)) [
  | inl alone ↦ ground arith
  | inr later ↦ let those = later.1 in ground arith
]

all-leb : (t v : ℕ) (ts : List ℕ) → t ≤ v → all (leb v) ts ≡ true → all (leb t) ts ≡ true
all-leb t v [] order below = refl
all-leb t v (u ∷ ts) order below = ground (arith, all-leb t v ts order)

earliest-le : (ts : List ℕ) (t : ℕ) → earliest ts ≡ some t → all (leb t) ts ≡ true
earliest-le [] t is = cc
earliest-le (u ∷ ts) t is = elim (Option-cases (earliest ts)) [
  | inl alone ↦ let nothing = earliest-none ts alone in rw (nothing) (ground arith)
  | inr later ↦
      let v = later.0 in
      let those = later.1 in
      let first : t ≤ u = ground arith in
      let second : t ≤ v = ground arith in
      let below = all-leb t v ts second (earliest-le ts v those) in ground arith
]

-- A plan has one decision for each fixture, in the order of the fixtures' identifiers, and no next
-- poll exactly when each fixture is cancelled, abandoned or finished.
pub plan-decisions :
    (local_start : LocalStart) (fixtures : List CanonicalCurrentFixture) (at : Datetime)
    (p : FixturePollingPlan)
    → plan local_start fixtures at ≡ ok p
    → (map (λ (d : FixturePollDecision). d.fixture_id) p.decisions
        ≡ sort (map fixture_id_of fixtures))
      × (is_none p.next_poll_at ≡ all is_closed fixtures)
unfolding Planned
plan-decisions local_start fixtures at p made =
    let made_of = plan-Planned local_start fixtures at p made in
    let unsorted = map (λ c. decision local_start c at.instant) fixtures in
    let by_id = λ (d : FixturePollDecision). d.fixture_id in
    (
      ap (map by_id) (made_of.0)
          ∙ map-sort_by by_id unsorted
          ∙ ap sort (ids-decide local_start at.instant fixtures),
      ap is_none (made_of.1)
          ∙ earliest-idle p.decisions
          ∙ ap (all is_idle) (made_of.0)
          ∙ all-sort_by by_id is_idle unsorted
          ∙ idle-decide local_start at.instant fixtures,
    )

-- The next poll of a plan is the earliest of the times that its decisions name.
pub plan-next :
    (local_start : LocalStart) (fixtures : List CanonicalCurrentFixture) (at : Datetime)
    (p : FixturePollingPlan) (t : ℕ)
    → plan local_start fixtures at ≡ ok p
    → p.next_poll_at ≡ some t
    → (mem t (pending p.decisions) ≡ true) × (all (leb t) (pending p.decisions) ≡ true)
unfolding Planned
plan-next local_start fixtures at p t made is =
    let first = sym ((plan-Planned local_start fixtures at p made).1) ∙ is in
    (earliest-mem (pending p.decisions) t first, earliest-le (pending p.decisions) t first)
