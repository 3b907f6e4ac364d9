-- ===== src/Provider/Executor.antt =====
-- src/pl_platform/ingestion/current_client.py: the retry policy and CurrentProviderRequestExecutor. The
-- transport and the clock are an argument: what each attempt came back with, and when.
use ai_powered_premier_leagu.Prelude.{
  ℕ, zero, suc, ◌+◌, ◌-◌, ◌*◌, ◌^◌, ◌==◌, leb, min, Bool, true, false, not, ◌&&◌, ◌||◌, Option,
  none, some, is_some, List, [], ◌∷◌, Result, ok, err, if◌then◌else◌,
}
use ai_powered_premier_leagu.Datetimes.{Datetime}
use ai_powered_premier_leagu.Provider.{
  QuotaMetadata, ContractError, ProviderErrorCode, RetryDisposition, ProviderError, check_error,
  is_exhausted, is_retry_after, temporarily_unavailable, invalid_request, authentication_failed,
  permission_denied, not_found, rate_limited, quota_exhausted, timeout, transport_failure,
  provider_rejected, malformed_response, never, retry_later, retry_after, after_quota_reset,
}
use ai_powered_premier_leagu.Provider.Ledger.{Bucket, record_quota, require_available}

-- The fields of a response that the executor reads.
pub record ProviderTransportResponse : Type 0 where
  pub body : List ℕ
  pub http_status : ℕ
  pub provider_request_id : Option ℕ
  pub quota : QuotaMetadata
  pub retry_after_seconds : Option ℕ

-- The codes that ProviderTransportFailure admits.
pub data FailureCode : Type 0 where
  timed_out failed malformed : FailureCode

abbrev pub code_of : FailureCode → ProviderErrorCode
code_of timed_out = timeout
code_of failed = transport_failure
code_of malformed = malformed_response

pub data Outcome : Type 0 where
  responded : ProviderTransportResponse → Outcome
  failure : FailureCode → ℕ → Outcome

pub record Reply : Type 0 where
  pub outcome : Outcome
  pub observed_at : Datetime

pub record ProviderRetryPolicy : Type 0 where
  pub maximum_attempts : ℕ
  pub base_delay : ℕ
  pub maximum_delay : ℕ
  pub unit : ℕ

-- `repeats_header` says whether the executor's authentication header has the name of one of the
-- request's headers, up to case.
pub record ProviderEndpointRequest : Type 0 where
  pub source_id : ℕ
  pub capability : ℕ
  pub request_identity_sha256 : ℕ
  pub repeats_header : Bool

abbrev pub failure_message_length : ℕ
failure_message_length = 43

abbrev pub exhausted_message_length : ℕ
exhausted_message_length = 35

-- `delay_for`
unfoldable pub delay_for : ProviderRetryPolicy → ℕ → Option ℕ → ℕ
delay_for p attempt none = min (p.base_delay * 2 ^ (attempt - 1)) p.maximum_delay
delay_for p attempt (some delay) = min (delay * p.unit) p.maximum_delay

abbrev pub valid_error :
    ProviderError → Result ContractError (Unit {0}) → Result ContractError ProviderError
valid_error e (ok done) = ok e
valid_error e (err raised) = err raised

-- A ProviderError, with its validation.
abbrev pub make_error : ProviderError → Result ContractError ProviderError
make_error e = valid_error e (check_error e)

-- `_transport_error`
abbrev pub transport_failure_of :
    ProviderEndpointRequest → FailureCode → ℕ → Datetime → ProviderError
transport_failure_of request code message occurred_at = record {
  source_id = request.source_id;
  capability = request.capability;
  code = code_of code;
  retry_disposition = retry_later;
  occurred_at = occurred_at;
  safe_message = message;
  http_status = none;
  request_identity_sha256 = request.request_identity_sha256;
  provider_request_id = none;
  retry_after_seconds = none;
  quota = none;
}

unfoldable pub transport_error :
    ProviderEndpointRequest → FailureCode → ℕ → Datetime → Result ContractError ProviderError
transport_error request code message occurred_at =
    make_error (transport_failure_of request code message occurred_at)

-- The chain of tests on the status.
unfoldable pub classify : ProviderTransportResponse → ProviderErrorCode × RetryDisposition
classify r =
    if r.http_status == 400
    then (invalid_request, never)
    else if r.http_status == 401
    then (authentication_failed, never)
    else if r.http_status == 403
    then (permission_denied, never)
    else if r.http_status == 404
    then (not_found, never)
    else if r.http_status == 408
    then (timeout, retry_later)
    else if (r.http_status == 429) && is_exhausted r.quota.status
    then (quota_exhausted, after_quota_reset)
    else if r.http_status == 429
    then (rate_limited, if is_some r.retry_after_seconds then retry_after else retry_later)
    else if leb 500 r.http_status && leb r.http_status 599
    then (temporarily_unavailable, retry_later)
    else (provider_rejected, never)

-- `_response_error`
abbrev pub response_failure_of :
    ProviderEndpointRequest → ProviderTransportResponse → Datetime → ProviderError
response_failure_of request response occurred_at =
    let verdict = classify response in
    record {
      source_id = request.source_id;
      capability = request.capability;
      code = verdict.0;
      retry_disposition = verdict.1;
      occurred_at = occurred_at;
      safe_message = failure_message_length;
      http_status = some response.http_status;
      request_identity_sha256 = request.request_identity_sha256;
      provider_request_id = response.provider_request_id;
      retry_after_seconds = if is_retry_after verdict.1 then response.retry_after_seconds else none;
      quota = some response.quota;
    }

unfoldable pub response_error :
    ProviderEndpointRequest
    → ProviderTransportResponse
    → Datetime
    → Result ContractError ProviderError
response_error request response occurred_at =
    make_error (response_failure_of request response occurred_at)

-- `_retryable`
unfoldable pub retryable : RetryDisposition → Bool
retryable never = false
retryable retry_later = true
retryable retry_after = true
retryable after_quota_reset = false

-- ProviderOperationError, a ValidationError, the ValueError for a header that the authentication
-- repeats, and the AssertionError behind the loop.
pub data ExecutionFailure : Type 0 where
  operation_error : ProviderError → ExecutionFailure
  contract_error : ContractError → ExecutionFailure
  header_repeated : ExecutionFailure
  loop_not_terminated : ExecutionFailure

-- The outcome, the ledger after it, the number of requests that were sent, and the delays slept.
pub record Execution : Type 0 where
  pub result : Result ExecutionFailure ProviderTransportResponse
  pub ledger : List Bucket
  pub sent : ℕ
  pub slept : List ℕ

abbrev pub stop : List Bucket → ℕ → Result ExecutionFailure ProviderTransportResponse → Execution
stop ledger sent result = record { result = result; ledger = ledger; sent = sent; slept = [] }

abbrev pub after_sleep : ℕ → Execution → Execution
after_sleep delay e = record e { slept = delay ∷ e.slept }

-- What follows the error of an attempt; `rest` is the loop from the next attempt on.
abbrev pub handle :
    ProviderRetryPolicy
    → ℕ
    → List Bucket
    → Execution
    → Result ContractError ProviderError
    → Execution
handle p attempt ledger rest (err raised) = stop ledger attempt (err (contract_error raised))
handle p attempt ledger rest (ok e) =
    if not (retryable e.retry_disposition) || (attempt == p.maximum_attempts)
    then stop ledger attempt (err (operation_error e))
    else after_sleep (delay_for p attempt e.retry_after_seconds) rest

abbrev pub is_success : ℕ → Bool
is_success status = leb 200 status && leb status 299

-- The ledger after an attempt, and what the attempt ends in.
abbrev pub ledger_after : ProviderEndpointRequest → Reply → Outcome → List Bucket → List Bucket
ledger_after request reply (failure code message) ledger = ledger
ledger_after request reply (responded response) ledger =
    record_quota request.source_id request.capability response.quota reply.observed_at ledger

abbrev pub react :
    ProviderRetryPolicy
    → ProviderEndpointRequest
    → ℕ
    → Reply
    → Outcome
    → List Bucket
    → Execution
    → Execution
react p request attempt reply (failure code message) ledger rest =
    handle p attempt ledger rest (transport_error request code message reply.observed_at)
react p request attempt reply (responded response) ledger rest =
    if is_success response.http_status
    then stop ledger attempt (ok response)
    else handle p attempt ledger rest (response_error request response reply.observed_at)

-- The loop over the attempts, of which `left` are left.
unfoldable pub attempts :
    ProviderRetryPolicy → ProviderEndpointRequest → (ℕ → Reply) → ℕ → ℕ → List Bucket → Execution
attempts p request reply zero attempt ledger = stop ledger (attempt - 1) (err loop_not_terminated)
attempts p request reply (suc left) attempt ledger =
    let after = ledger_after request (reply attempt) (reply attempt).outcome ledger in
    react p request attempt (reply attempt) (reply attempt).outcome after
      (attempts p request reply left (attempt + 1) after)

abbrev pub exhaustion_of : ProviderEndpointRequest → Datetime → QuotaMetadata → ProviderError
exhaustion_of request now quota = record {
  source_id = request.source_id;
  capability = request.capability;
  code = quota_exhausted;
  retry_disposition = after_quota_reset;
  occurred_at = now;
  safe_message = exhausted_message_length;
  http_status = none;
  request_identity_sha256 = request.request_identity_sha256;
  provider_request_id = none;
  retry_after_seconds = none;
  quota = some quota;
}

unfoldable pub exhausted_error :
    ProviderEndpointRequest → Datetime → QuotaMetadata → Result ContractError ProviderError
exhausted_error request now quota = make_error (exhaustion_of request now quota)

abbrev pub refusal : Result ContractError ProviderError → ExecutionFailure
refusal (ok e) = operation_error e
refusal (err raised) = contract_error raised

abbrev pub start :
    ProviderRetryPolicy
    → ProviderEndpointRequest
    → (ℕ → Reply)
    → Datetime
    → List Bucket
    → Result QuotaMetadata (List Bucket)
    → Execution
start p request reply now ledger (err quota) =
    stop ledger 0 (err (refusal (exhausted_error request now quota)))
start p request reply now ledger (ok free) =
    if request.repeats_header
    then stop free 0 (err header_repeated)
    else attempts p request reply p.maximum_attempts 1 free

-- `execute`
unfoldable pub execute :
    ProviderRetryPolicy → ProviderEndpointRequest → (ℕ → Reply) → Datetime → List Bucket → Execution
execute p request reply now ledger =
    start p request reply now ledger
      (require_available request.source_id request.capability now.instant ledger)
