-- ===== src/Provider/Tests.antt =====
-- A policy of three attempts, and a provider that is busy, then limits the rate, then answers.
use ai_powered_premier_leagu.Prelude.{
  ℕ, zero, suc, ◌≡◌, ◌≤◌, ◌*◌, ◌+◌, refl, true, false, Option, none, some, [], ◌∷◌, ok, err, length,
  sum_of, arith,
}
use ai_powered_premier_leagu.Datetimes.{utc}
use ai_powered_premier_leagu.Provider.{
  QuotaMetadata, unknown, exhausted, check_quota, check_bounded, check_error,
  exhausted_with_remaining, field_invalid,
}
use ai_powered_premier_leagu.Provider.Ledger.{boundary_of, latest, record_quota, require_available}
use ai_powered_premier_leagu.Provider.Executor.{
  ProviderTransportResponse, Reply, Outcome, responded, failure, timed_out, ProviderRetryPolicy,
  ProviderEndpointRequest, execute, transport_error, retryable, delay_for, response_error, classify,
  attempts, contract_error, header_repeated,
}
use ai_powered_premier_leagu.Provider.Errors.{IsValidOutcome}
use ai_powered_premier_leagu.Provider.Attempts.{execute_lem, last_attempt, conclusion, waits}
use ai_powered_premier_leagu.Provider.Delays.{execute-slept}
use ai_powered_premier_leagu.Provider.Exhausted.{execute_exhausted, observed, refused}

abbrev no_quota : QuotaMetadata
no_quota = record {
  status = unknown;
  limit = none;
  remaining = none;
  resets_at = none;
  retry_after_seconds = none;
}

abbrev response : ℕ → Option ℕ → ProviderTransportResponse
response status delay = record {
  body = [];
  http_status = status;
  provider_request_id = some 12;
  quota = no_quota;
  retry_after_seconds = delay;
}

abbrev answers : ℕ → Outcome
answers zero = failure timed_out 34
answers (suc zero) = failure timed_out 34
answers (suc (suc zero)) = responded (response 429 (some 45))
answers (suc (suc (suc n))) = responded (response 200 none)

abbrev replies : ℕ → Reply
replies n = record { outcome = answers n; observed_at = utc 50 }

abbrev policy : ProviderRetryPolicy
policy = record { maximum_attempts = 3; base_delay = 1000; maximum_delay = 30000; unit = 1000 }

abbrev endpoint : ProviderEndpointRequest
endpoint = record {
  source_id = 4;
  capability = 2;
  request_identity_sha256 = 99;
  repeats_header = false;
}

answers-IsValidOutcome : (n : ℕ) → IsValidOutcome (replies n).outcome
unfolding IsValidOutcome
answers-IsValidOutcome zero = tt
answers-IsValidOutcome (suc zero) = tt
answers-IsValidOutcome (suc (suc zero)) = record {
  status_low = refl;
  status_high = refl;
  delay_positive = refl;
}
answers-IsValidOutcome (suc (suc (suc n))) = record {
  status_low = refl;
  status_high = refl;
  delay_positive = refl;
}

-- A busy provider that sends an empty request identifier.
abbrev nameless : Reply
nameless = record {
  outcome = responded (record (response 503 none) { provider_request_id = some 0 });
  observed_at = utc 50;
}

not_retried :
    (execute policy endpoint (λ n. nameless) (utc 7) []).result ≡ err (contract_error field_invalid)
unfolding execute require_available attempts check_error response_error classify
not_retried = refl

-- A header that the authentication repeats is refused before a request is sent.
refused_header :
    execute policy (record endpoint { repeats_header = true }) replies (utc 7) []
    ≡ record { result = err header_repeated; ledger = []; sent = 0; slept = [] }
unfolding execute require_available
refused_header = refl

-- The first delay is the base, the second is what the reply asks for, cut at the maximum.
three_attempts : (execute policy endpoint replies (utc 7) []).slept ≡ 1000 ∷ 30000 ∷ []
unfolding execute require_available attempts transport_error check_error retryable delay_for
    response_error classify
three_attempts = refl

free_ledger : require_available 4 2 7 [] ≡ ok []
unfolding require_available
free_ledger = refl

execute_lem_example :
    let e = execute policy endpoint replies (utc 7) [] in
    let last = last_attempt replies 2 1 in
    (e.sent ≡ last)
    × (last ≤ 3)
    × (e.result ≡ conclusion endpoint (replies last))
    × (e.slept ≡ waits policy replies 2 1)
execute_lem_example =
    execute_lem policy endpoint replies (utc 7) [] [] answers-IsValidOutcome (omega arith) refl
      free_ledger

execute-slept_example :
    let e = execute policy endpoint replies (utc 7) [] in
    (length e.slept + 1 ≡ e.sent) × (sum_of (λ d. d) e.slept ≤ 2 * 30000)
execute-slept_example =
    execute-slept policy endpoint replies (utc 7) [] [] answers-IsValidOutcome (omega arith) refl
      free_ledger

abbrev spent : QuotaMetadata
spent = record {
  status = exhausted;
  limit = some 100;
  remaining = some 0;
  resets_at = some (utc 5000000);
  retry_after_seconds = some 3;
}

spent_valid : check_quota spent ≡ ok tt
unfolding check_quota check_bounded
spent_valid = refl

some_left : check_quota (record spent { remaining = some 1 }) ≡ err exhausted_with_remaining
unfolding check_quota check_bounded
some_left = refl

-- The later of the reset at 5,000,000 and the retry at 6,000,000.
boundary_later : boundary_of (observed spent (utc 3000000)) ≡ some 6000000
unfolding boundary_of latest
boundary_later = refl

execute_exhausted_example :
    execute policy endpoint replies (utc 5500000) (record_quota 4 2 spent (utc 3000000) [])
    ≡ refused endpoint (utc 5500000) spent (record_quota 4 2 spent (utc 3000000) [])
execute_exhausted_example =
    execute_exhausted policy endpoint replies (utc 5500000) (utc 3000000) spent [] refl spent_valid
      refl
