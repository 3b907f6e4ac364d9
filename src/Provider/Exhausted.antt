-- ===== src/Provider/Exhausted.antt =====
-- src/pl_platform/ingestion/current_client.py: an exhausted quota between two executions.
use ai_powered_premier_leagu.Prelude.{
  ℕ, ◌==◌, ◌&&◌, ◌≡◌, not, refl, true, false, Bool, Option, none, some, is_none, List, Result, ok,
  err, raise_if, bind_ok, ◌>>◌, ltb, arith, if◌then◌else◌, inl, inr, Bool-cases, ◌+◌, ◌||◌, [], ◌∷◌,
  ap, ◌∙◌, filter,
}
use ai_powered_premier_leagu.Datetimes.{Datetime, is_not_utc, seconds}
use ai_powered_premier_leagu.Provider.{
  QuotaMetadata, check_quota, check_bounded, ContractError, remaining_over_limit,
  available_without_remaining, exhausted_with_remaining, exhausted_without_reset, reset_not_utc,
  is_available, is_unbounded, is_not_utc_if_given, QuotaStatus, unknown, available, exhausted,
  unlimited, is_exhausted, quota_exhausted, after_quota_reset,
}
use ai_powered_premier_leagu.Provider.Ledger.{
  Bucket, QuotaObservation, observation_of, record_quota, require_available, boundary_of, is_past,
  latest, instant_of, retry_boundary, forget, is_for,
}
use ai_powered_premier_leagu.Provider.Executor.{
  Reply, ProviderEndpointRequest, ProviderRetryPolicy, execute, operation_error, Execution,
  exhausted_message_length,
}
use ai_powered_premier_leagu.Provider.Errors.{exhausted_error-ok}

observation_of-record_quota :
    (source capability : ℕ) (quota : QuotaMetadata) (at : Datetime) (ledger : List Bucket)
    → observation_of source capability (record_quota source capability quota at ledger)
      ≡ some (record { metadata = quota; observed_at = at })
unfolding record_quota
observation_of-record_quota source capability quota at ledger = ground arith

raise_if-false :
    (test : Bool) (raised : ContractError) → raise_if test raised ≡ ok tt → test ≡ false
raise_if-false true raised passed = cc
raise_if-false false raised passed = refl

exhausted-bounded :
    (status : QuotaStatus) → is_exhausted status ≡ true → is_unbounded status ≡ false
exhausted-bounded unknown gone = cc
exhausted-bounded available gone = cc
exhausted-bounded exhausted gone = refl
exhausted-bounded unlimited gone = cc

abbrev pub observed : QuotaMetadata → Datetime → QuotaObservation
observed quota at = record { metadata = quota; observed_at = at }

latest-given :
    (resets : Option Datetime) (delay : Option ℕ) (o : QuotaObservation)
    → (is_none resets && is_none delay) ≡ false
    → is_none (latest (instant_of resets) (retry_boundary o delay)) ≡ false
unfolding latest
latest-given none none o given = cc
latest-given none (some delay) o given = refl
latest-given (some t) none o given = refl
latest-given (some t) (some delay) o given = refl

given-boundary :
    (q : QuotaMetadata) (at : Datetime)
    → (is_none q.resets_at && is_none q.retry_after_seconds) ≡ false
    → is_none (boundary_of (observed q at)) ≡ false
unfolding boundary_of
given-boundary q at given = latest-given q.resets_at q.retry_after_seconds (observed q at) given

boundary_of-bounded :
    (q : QuotaMetadata) (at : Datetime) (limit remaining : Option ℕ)
    → is_exhausted q.status ≡ true
    → check_bounded q limit remaining ≡ ok tt
    → is_none (boundary_of (observed q at)) ≡ false
unfolding check_bounded boundary_of latest
boundary_of-bounded q at none remaining gone valid = cc
boundary_of-bounded q at (some limit) none gone valid = cc
boundary_of-bounded q at (some limit) (some remaining) gone valid =
    let last =
      bind_ok
        (raise_if (ltb limit remaining) remaining_over_limit
          >> raise_if (is_available q.status && (remaining == 0)) available_without_remaining
          >> raise_if (is_exhausted q.status && not (remaining == 0)) exhausted_with_remaining)
        _ valid in
    let given = raise_if-false _ exhausted_without_reset (last.2) in
    given-boundary q at (ground arith)

second_branch :
    (test : Bool) (x y : Result ContractError (Unit {0}))
    → test ≡ false
    → (if test then x else y) ≡ ok tt
    → y ≡ ok tt
second_branch true x y other passed = cc
second_branch false x y other passed = passed

boundary_of-given :
    (q : QuotaMetadata) (at : Datetime)
    → is_exhausted q.status ≡ true
    → check_quota q ≡ ok tt
    → is_none (boundary_of (observed q at)) ≡ false
unfolding check_quota
boundary_of-given q at gone valid =
    let bounded = bind_ok (raise_if (is_not_utc_if_given q.resets_at) reset_not_utc) _ valid in
    boundary_of-bounded q at q.limit q.remaining gone
      (second_branch (is_unbounded q.status) _ _ (exhausted-bounded q.status gone) (bounded.2))

-- A moment that is given and still to come.
abbrev pub is_ahead : Option ℕ → ℕ → Bool
is_ahead none now = false
is_ahead (some moment) now = ltb now moment

-- The end of a delay that is counted from a moment.
abbrev pub end_of : ℕ → Option ℕ → Option ℕ
end_of start none = none
end_of start (some delay) = some (start + seconds delay)

-- The quota resets after now, or its delay, counted from when it was observed, ends after now.
abbrev pub is_waiting : QuotaMetadata → Datetime → ℕ → Bool
is_waiting quota at now =
    is_ahead (instant_of quota.resets_at) now
    || is_ahead (end_of at.instant quota.retry_after_seconds) now

-- An execution that sends nothing and leaves the ledger: the error for an exhausted quota.
abbrev pub refused : ProviderEndpointRequest → Datetime → QuotaMetadata → List Bucket → Execution
refused request now quota ledger = record {
  result = err (
      operation_error (record {
        source_id = request.source_id;
        capability = request.capability;
        code = quota_exhausted;
        retry_disposition = after_quota_reset;
        occurred_at = now;
        safe_message = exhausted_message_length;
        http_status = none;
        request_identity_sha256 = request.request_identity_sha256;
        provider_request_id = none;
        retry_after_seconds = none;
        quota = some quota;
      }));
  ledger = ledger;
  sent = 0;
  slept = [];
}

-- The observations for other sources and capabilities.
abbrev pub others : ProviderEndpointRequest → List Bucket → List Bucket
others request ledger = filter (λ b. not (is_for request.source_id request.capability b)) ledger

forget_lem :
    (request : ProviderEndpointRequest) (ledger : List Bucket)
    → forget request.source_id request.capability ledger ≡ others request ledger
unfolding forget
forget_lem request [] = refl
forget_lem request (b ∷ bs) = ground (arith, forget_lem request bs)

others_twice :
    (request : ProviderEndpointRequest) (ledger : List Bucket)
    → others request (others request ledger) ≡ others request ledger
others_twice request [] = refl
others_twice request (b ∷ bs) = ground (arith, others_twice request bs)

forget-record_quota :
    (request : ProviderEndpointRequest) (quota : QuotaMetadata) (at : Datetime)
    (ledger : List Bucket)
    → forget request.source_id request.capability
        (record_quota request.source_id request.capability quota at ledger)
      ≡ others request ledger
unfolding forget record_quota
forget-record_quota request quota at ledger =
    let kept = forget request.source_id request.capability ledger in
    let twice =
      forget_lem request kept
      ∙ ap (others request) (forget_lem request ledger)
      ∙ others_twice request ledger in
    ground arith

observation_of-others :
    (request : ProviderEndpointRequest) (ledger : List Bucket)
    → observation_of request.source_id request.capability (others request ledger) ≡ none
observation_of-others request [] = refl
observation_of-others request (b ∷ bs) =
    elim (Bool-cases (is_for request.source_id request.capability b)) [
      | inl ours ↦ rw (ours) (observation_of-others request bs)
      | inr other ↦ rw (other, other) (observation_of-others request bs)
    ]

is_past-latest :
    (resets : Option Datetime) (delay : Option ℕ) (o : QuotaObservation) (now : ℕ)
    → is_none (latest (instant_of resets) (retry_boundary o delay)) ≡ false
    → is_past (latest (instant_of resets) (retry_boundary o delay)) now
      ≡ not (is_ahead (instant_of resets) now || is_ahead (end_of o.observed_at.instant delay) now)
unfolding latest
is_past-latest none none o now given = cc
is_past-latest none (some delay) o now given = ground arith
is_past-latest (some t) none o now given = ground arith
is_past-latest (some t) (some delay) o now given = ground arith

is_past-boundary :
    (quota : QuotaMetadata) (at : Datetime) (now : ℕ)
    → is_exhausted quota.status ≡ true
    → check_quota quota ≡ ok tt
    → is_past (boundary_of (observed quota at)) now ≡ not (is_waiting quota at now)
unfolding boundary_of
is_past-boundary quota at now gone valid =
    is_past-latest quota.resets_at quota.retry_after_seconds (observed quota at) now
      (boundary_of-given quota at gone valid)

-- After a valid exhausted quota was recorded, an execution for the same source and capability whose
-- clock is in UTC sends nothing while the quota's reset or its delay, counted from when it was
-- observed, is still to come: it keeps the ledger and raises the error for an exhausted quota. When
-- none of them is to come any more, it does what an execution does that never observed a quota for
-- this source and capability.
pub execute_exhausted :
    (p : ProviderRetryPolicy) (request : ProviderEndpointRequest) (reply : ℕ → Reply)
    (now at : Datetime) (quota : QuotaMetadata) (before : List Bucket)
    → is_exhausted quota.status ≡ true
    → check_quota quota ≡ ok tt
    → is_not_utc now ≡ false
    → let ledger = record_quota request.source_id request.capability quota at before in
      execute p request reply now ledger ≡ (
        if is_waiting quota at now.instant
        then refused request now quota ledger
        else execute p request reply now (others request before))
unfolding execute require_available
execute_exhausted p request reply now at quota before gone valid utc =
    let last = observation_of-record_quota request.source_id request.capability quota at before in
    let past = is_past-boundary quota at now.instant gone valid in
    let kept = forget-record_quota request quota at before in
    elim (Bool-cases (is_waiting quota at now.instant)) [
      | inl waits ↦
          rw (last, gone, past ∙ ap not waits, exhausted_error-ok request now quota utc gone, waits)
            refl
      | inr over ↦
          rw (last, gone, past ∙ ap not over, kept, observation_of-others request before, over) refl
    ]
