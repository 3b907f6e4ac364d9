-- ===== src/Provider.antt =====
-- src/pl_platform/ingestion/current.py, the quota and the error of the provider contract, and
-- src/pl_platform/ingestion/current_client.py, the bounded execution of one request. Identifiers,
-- digests and texts are compared only, so each is a number; a text that must not be empty is its
-- length. A delay is a number of ticks and `unit` ticks make a second, in place of a float.
pub mod Ledger
pub mod Executor
pub mod Errors
pub mod Attempts
pub mod Delays
pub mod Exhausted
mod Tests
use ai_powered_premier_leagu.Prelude.{
  ℕ, ◌==◌, leb, ltb, Bool, true, false, not, ◌&&◌, ◌||◌, Option, none, some, is_none, is_some,
  Result, ok, err, ◌>>=◌, ◌>>◌, raise_if, if◌then◌else◌,
}
use ai_powered_premier_leagu.Datetimes.{Datetime, is_not_utc}

pub data QuotaStatus : Type 0 where
  unknown available exhausted unlimited : QuotaStatus

pub record QuotaMetadata : Type 0 where
  pub status : QuotaStatus
  pub limit : Option ℕ
  pub remaining : Option ℕ
  pub resets_at : Option Datetime
  pub retry_after_seconds : Option ℕ

-- The ValidationErrors of the two contracts.
pub data ContractError : Type 0 where
  reset_not_utc : ContractError
  unbounded_with_limits : ContractError
  bounds_missing : ContractError
  remaining_over_limit : ContractError
  available_without_remaining : ContractError
  exhausted_with_remaining : ContractError
  exhausted_without_reset : ContractError
  field_invalid : ContractError
  time_not_utc : ContractError
  delay_required : ContractError
  delay_unexpected : ContractError
  reset_without_exhaustion : ContractError
  permanent_retried : ContractError

abbrev pub is_exhausted : QuotaStatus → Bool
is_exhausted exhausted = true
is_exhausted _ = false

abbrev pub is_available : QuotaStatus → Bool
is_available available = true
is_available _ = false

abbrev pub is_unbounded : QuotaStatus → Bool
is_unbounded unknown = true
is_unbounded unlimited = true
is_unbounded _ = false

abbrev pub is_not_utc_if_given : Option Datetime → Bool
is_not_utc_if_given none = false
is_not_utc_if_given (some t) = is_not_utc t

-- The part of `quota_state_must_be_consistent` for a bounded quota.
unfoldable pub check_bounded : QuotaMetadata → Option ℕ → Option ℕ → Result ContractError (Unit {0})
check_bounded q none remaining = err bounds_missing
check_bounded q (some limit) none = err bounds_missing
check_bounded q (some limit) (some remaining) =
    raise_if (ltb limit remaining) remaining_over_limit
    >> raise_if (is_available q.status && (remaining == 0)) available_without_remaining
    >> raise_if (is_exhausted q.status && not (remaining == 0)) exhausted_with_remaining
    >> raise_if (is_exhausted q.status && (is_none q.resets_at && is_none q.retry_after_seconds))
        exhausted_without_reset

-- `quota_state_must_be_consistent`
unfoldable pub check_quota : QuotaMetadata → Result ContractError (Unit {0})
check_quota q =
    raise_if (is_not_utc_if_given q.resets_at) reset_not_utc
    >> (if is_unbounded q.status
        then raise_if
            (is_some q.limit
              || is_some q.remaining
              || is_some q.resets_at
              || is_some q.retry_after_seconds)
            unbounded_with_limits
        else check_bounded q q.limit q.remaining)

pub data ProviderErrorCode : Type 0 where
  unsupported_capability : ProviderErrorCode
  temporarily_unavailable : ProviderErrorCode
  invalid_request : ProviderErrorCode
  unknown_provider_identity : ProviderErrorCode
  unknown_canonical_identity : ProviderErrorCode
  authentication_failed : ProviderErrorCode
  permission_denied : ProviderErrorCode
  not_found : ProviderErrorCode
  rate_limited : ProviderErrorCode
  quota_exhausted : ProviderErrorCode
  timeout : ProviderErrorCode
  transport_failure : ProviderErrorCode
  provider_rejected : ProviderErrorCode
  malformed_response : ProviderErrorCode
  incompatible_response : ProviderErrorCode
  response_integrity_failure : ProviderErrorCode
  unexpected_provider_failure : ProviderErrorCode

pub data RetryDisposition : Type 0 where
  never retry_later retry_after after_quota_reset : RetryDisposition

pub record ProviderError : Type 0 where
  pub source_id : ℕ
  pub capability : ℕ
  pub code : ProviderErrorCode
  pub retry_disposition : RetryDisposition
  pub occurred_at : Datetime
  pub safe_message : ℕ
  pub http_status : Option ℕ
  pub request_identity_sha256 : ℕ
  pub provider_request_id : Option ℕ
  pub retry_after_seconds : Option ℕ
  pub quota : Option QuotaMetadata

abbrev pub is_permanent : ProviderErrorCode → Bool
is_permanent unsupported_capability = true
is_permanent unknown_provider_identity = true
is_permanent unknown_canonical_identity = true
is_permanent _ = false

abbrev pub is_never : RetryDisposition → Bool
is_never never = true
is_never _ = false

abbrev pub is_retry_after : RetryDisposition → Bool
is_retry_after retry_after = true
is_retry_after _ = false

abbrev pub is_after_reset : RetryDisposition → Bool
is_after_reset after_quota_reset = true
is_after_reset _ = false

abbrev pub has_exhausted : Option QuotaMetadata → Bool
has_exhausted none = false
has_exhausted (some q) = is_exhausted q.status

-- A given number that its field refuses: `bound` is the least that it admits.
abbrev pub is_below : ℕ → Option ℕ → Bool
is_below bound none = false
is_below bound (some n) = ltb n bound

abbrev pub is_above : ℕ → Option ℕ → Bool
is_above bound none = false
is_above bound (some n) = ltb bound n

-- The fields' bounds.
abbrev pub has_bad_field : ProviderError → Bool
has_bad_field e =
    not (leb 1 e.safe_message && leb e.safe_message 512)
    || is_below 100 e.http_status
    || is_above 599 e.http_status
    || is_below 1 e.provider_request_id
    || is_below 1 e.retry_after_seconds

-- The fields, and `retry_metadata_must_be_consistent`.
unfoldable pub check_error : ProviderError → Result ContractError (Unit {0})
check_error e =
    raise_if (has_bad_field e) field_invalid
    >> raise_if (is_not_utc e.occurred_at) time_not_utc
    >> (if is_retry_after e.retry_disposition
        then raise_if (is_none e.retry_after_seconds) delay_required
        else raise_if (is_some e.retry_after_seconds) delay_unexpected)
    >> raise_if (is_after_reset e.retry_disposition && not (has_exhausted e.quota))
        reset_without_exhaustion
    >> raise_if (is_permanent e.code && not (is_never e.retry_disposition)) permanent_retried
