-- ===== src/Provider/Errors.antt =====
-- src/pl_platform/ingestion/current_client.py: the errors that the executor makes of a reply, against the
-- contract of ProviderError.
use ai_powered_premier_leagu.Prelude.{
  ℕ, ◌≡◌, leb, Bool, true, false, not, ◌&&◌, refl, ap, ◌∙◌, inl, inr, Option, none, some, is_none,
  is_some, Result, ok, err, arith, Bool-cases, if◌then◌else◌,
}
use ai_powered_premier_leagu.Datetimes.{Datetime, is_not_utc}
use ai_powered_premier_leagu.Provider.{
  QuotaMetadata, ContractError, field_invalid, time_not_utc, ProviderError, check_error, is_below,
  is_exhausted, is_retry_after, is_after_reset, is_permanent, is_never, has_bad_field,
  has_exhausted,
}
use ai_powered_premier_leagu.Provider.Executor.{
  ProviderTransportResponse, FailureCode, Outcome, responded, failure, ProviderEndpointRequest,
  classify, transport_error, response_error, exhausted_error, transport_failure_of,
  response_failure_of, exhaustion_of, valid_error, code_of, timed_out, failed, malformed,
}

-- What `__post_init__` of a response tests of these fields; a failure of the transport has a code
-- that its constructor admits, and any message.
pub record IsValidResponse (r : ProviderTransportResponse) : Type 0 where
  pub status_low : leb 100 r.http_status ≡ true
  pub status_high : leb r.http_status 599 ≡ true
  pub delay_positive : is_below 1 r.retry_after_seconds ≡ false

unfoldable pub IsValidOutcome : Outcome → Type 0
IsValidOutcome (failure code message) = Unit {0}
IsValidOutcome (responded r) = IsValidResponse r

-- The violation of ProviderError's contract that is raised: a bad field comes before a bad time.
abbrev pub violation : Bool → Datetime → Option ContractError
violation bad_field at =
    if bad_field then some field_invalid else if is_not_utc at then some time_not_utc else none

abbrev pub reported : ProviderError → Option ContractError → Result ContractError ProviderError
reported e none = ok e
reported e (some raised) = err raised

-- An empty message, or one that is too long.
abbrev pub is_bad_message : ℕ → Bool
is_bad_message message = not (leb 1 message && leb message 512)

module _ (r : ProviderTransportResponse) where
  classify-reset : is_after_reset (classify r).1 ≡ true → is_exhausted r.quota.status ≡ true
  unfolding classify
  classify-reset h = ground arith

  classify-delay : is_retry_after (classify r).1 ≡ true → is_none r.retry_after_seconds ≡ false
  unfolding classify
  classify-delay h = ground arith

  classify-permanent : is_permanent (classify r).0 ≡ false
  unfolding classify
  classify-permanent = ground arith

none-some {ℓ} : {A : Type ℓ} (o : Option A) → is_none o ≡ true → is_some o ≡ false
none-some none h = refl
none-some (some a) h = cc

passing-permanent : (code : FailureCode) → (is_permanent (code_of code) && true) ≡ false
passing-permanent timed_out = refl
passing-permanent failed = refl
passing-permanent malformed = refl

check_error_lem :
    (e : ProviderError)
    → is_none e.retry_after_seconds ≡ not (is_retry_after e.retry_disposition)
    → (is_after_reset e.retry_disposition && not (has_exhausted e.quota)) ≡ false
    → (is_permanent e.code && not (is_never e.retry_disposition)) ≡ false
    → valid_error e (check_error e) ≡ reported e (violation (has_bad_field e) e.occurred_at)
unfolding check_error
check_error_lem e delay reset permanent = elim (Bool-cases (has_bad_field e)) [
  | inl bad ↦ rw (bad) refl
  | inr good ↦ elim (Bool-cases (is_not_utc e.occurred_at)) [
    | inl other_zone ↦ rw (good, other_zone) refl
    | inr utc ↦ elim (Bool-cases (is_retry_after e.retry_disposition)) [
      | inl waits ↦ rw (good, utc, waits, delay ∙ ap not waits, reset, permanent) refl
      | inr other ↦
          rw
            (
              good,
              utc,
              other,
              none-some e.retry_after_seconds (delay ∙ ap not other),
              reset,
              permanent,
            )
            refl
    ]
  ]
]

pick-none :
    (b : Bool) (o : Option ℕ)
    → (b ≡ true → is_none o ≡ false)
    → is_none (if b then o else none) ≡ not b
pick-none true o given = given refl
pick-none false o given = refl

pick-below :
    (b : Bool) (o : Option ℕ) → is_below 1 o ≡ false → is_below 1 (if b then o else none) ≡ false
pick-below true o high = high
pick-below false o high = refl

response-bad_field :
    (request : ProviderEndpointRequest) (r : ProviderTransportResponse) (at : Datetime)
    → IsValidResponse r
    → has_bad_field (response_failure_of request r at) ≡ is_below 1 r.provider_request_id
response-bad_field request r at valid =
    let low = valid.status_low in
    let high = valid.status_high in
    let picked =
      pick-below (is_retry_after (classify r).1) r.retry_after_seconds valid.delay_positive in
    ground arith

pub response_error_lem :
    (request : ProviderEndpointRequest) (r : ProviderTransportResponse) (at : Datetime)
    → IsValidResponse r
    → response_error request r at
      ≡ reported
          (response_failure_of request r at)
          (violation (is_below 1 r.provider_request_id) at)
unfolding response_error
response_error_lem request r at valid =
    let reset = classify-reset r in
    let delay = classify-delay r in
    let permanent = classify-permanent r in
    check_error_lem (response_failure_of request r at)
      (pick-none (is_retry_after (classify r).1) r.retry_after_seconds delay) (ground arith)
      (ground arith)
    ∙ ap (λ b. reported (response_failure_of request r at) (violation b at))
        (response-bad_field request r at valid)

transport-bad_field :
    (request : ProviderEndpointRequest) (code : FailureCode) (message : ℕ) (at : Datetime)
    → has_bad_field (transport_failure_of request code message at) ≡ is_bad_message message
transport-bad_field request code message at = ground arith

pub transport_error_lem :
    (request : ProviderEndpointRequest) (code : FailureCode) (message : ℕ) (at : Datetime)
    → transport_error request code message at
      ≡ reported
          (transport_failure_of request code message at)
          (violation (is_bad_message message) at)
unfolding transport_error
transport_error_lem request code message at =
    check_error_lem (transport_failure_of request code message at) refl refl
      (passing-permanent code)
    ∙ ap (λ b. reported (transport_failure_of request code message at) (violation b at))
        (transport-bad_field request code message at)

pub exhausted_error-ok :
    (request : ProviderEndpointRequest) (now : Datetime) (quota : QuotaMetadata)
    → is_not_utc now ≡ false
    → is_exhausted quota.status ≡ true
    → exhausted_error request now quota ≡ ok (exhaustion_of request now quota)
unfolding exhausted_error
exhausted_error-ok request now quota in_utc gone =
    check_error_lem (exhaustion_of request now quota) refl (rw (gone) refl) refl ∙ rw (in_utc) refl
