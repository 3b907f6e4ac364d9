-- ===== src/Provider/Attempts.antt =====
-- src/pl_platform/ingestion/current_client.py: the loop of `execute` against the attempt that ends it.
use ai_powered_premier_leagu.Prelude.{
  ℕ, zero, suc, ◌+◌, ◌-◌, ◌==◌, ◌≡◌, ◌≤◌, Bool, true, false, not, ◌&&◌, refl, sym, ap, ◌∙◌, inl,
  inr, Option, none, some, is_none, List, [], ◌∷◌, Result, ok, err, arith, Bool-cases,
  if◌then◌else◌, subst,
}
use ai_powered_premier_leagu.Datetimes.{Datetime}
use ai_powered_premier_leagu.Provider.{ContractError, ProviderError, is_below, is_retry_after}
use ai_powered_premier_leagu.Provider.Ledger.{Bucket, require_available}
use ai_powered_premier_leagu.Provider.Executor.{
  ProviderTransportResponse, FailureCode, contract_error, handle, Outcome, responded, failure,
  Reply, ProviderEndpointRequest, ProviderRetryPolicy, Execution, ExecutionFailure, operation_error,
  classify, transport_failure_of, response_failure_of, retryable, is_success, attempts, execute,
  react, stop, after_sleep, delay_for, ledger_after, start,
}
use ai_powered_premier_leagu.Provider.Errors.{
  IsValidOutcome, response_error_lem, transport_error_lem, violation, reported, is_bad_message,
}

-- The violation of ProviderError's contract that the error of a reply would be, if any.
abbrev pub breach : Outcome → Datetime → Option ContractError
breach (failure code message) at = violation (is_bad_message message) at
breach (responded r) at =
    if is_success r.http_status then none else violation (is_below 1 r.provider_request_id) at

-- No answer, or a failure that may pass.
abbrev pub may_pass : Outcome → Bool
may_pass (failure code message) = true
may_pass (responded r) = not (is_success r.http_status) && retryable (classify r).1

-- Whether a reply is worth another attempt.
abbrev pub wants_retry : Reply → Bool
wants_retry reply = is_none (breach reply.outcome reply.observed_at) && may_pass reply.outcome

-- The first attempt from `attempt` on that is not worth another one, within `left` more.
unfoldable pub last_attempt : (ℕ → Reply) → ℕ → ℕ → ℕ
last_attempt reply zero attempt = attempt
last_attempt reply (suc left) attempt =
    let later = last_attempt reply left (attempt + 1) in
    if wants_retry (reply attempt) then later else attempt

-- The delay that a failed reply asks for.
abbrev pub advice : Outcome → Option ℕ
advice (failure code message) = none
advice (responded r) = if is_retry_after (classify r).1 then r.retry_after_seconds else none

-- The delays that are slept before the last attempt.
unfoldable pub waits : ProviderRetryPolicy → (ℕ → Reply) → ℕ → ℕ → List ℕ
waits p reply zero attempt = []
waits p reply (suc left) attempt =
    let later = waits p reply left (attempt + 1) in
    if wants_retry (reply attempt)
    then delay_for p attempt (advice (reply attempt).outcome) ∷ later
    else []

-- What a last reply ends in: a ValidationError, or else the response or the error made of it.
abbrev pub concluded :
    ProviderEndpointRequest
    → Datetime
    → Outcome
    → Option ContractError
    → Result ExecutionFailure ProviderTransportResponse
concluded request at outcome (some raised) = err (contract_error raised)
concluded request at (failure code message) none =
    err (operation_error (transport_failure_of request code message at))
concluded request at (responded r) none =
    if is_success r.http_status
    then ok r
    else err (operation_error (response_failure_of request r at))

abbrev pub conclusion :
    ProviderEndpointRequest → Reply → Result ExecutionFailure ProviderTransportResponse
conclusion request reply =
    concluded request reply.observed_at reply.outcome (breach reply.outcome reply.observed_at)

-- Whether the loop goes on after a reply.
abbrev again : ProviderRetryPolicy → ℕ → Outcome → Datetime → Bool
again p attempt outcome at =
    is_none (breach outcome at) && may_pass outcome && not (attempt == p.maximum_attempts)

module _ (p : ProviderRetryPolicy) (request : ProviderEndpointRequest) (attempt : ℕ) (at : Datetime)
    (ledger : List Bucket) (rest : Execution) where
  handle-stops :
      (e : ProviderError) (breached : Option ContractError)
      → (is_none breached && retryable e.retry_disposition && not (attempt == p.maximum_attempts))
        ≡ false
      → handle p attempt ledger rest (reported e breached)
        ≡ stop ledger attempt
            (err (elim breached [ none ↦ operation_error e | some raised ↦ contract_error raised ]))
  handle-stops e none ends = ground arith
  handle-stops e (some raised) ends = refl

  handle-continues :
      (e : ProviderError) (breached : Option ContractError)
      → (is_none breached && retryable e.retry_disposition && not (attempt == p.maximum_attempts))
        ≡ true
      → handle p attempt ledger rest (reported e breached)
        ≡ after_sleep (delay_for p attempt e.retry_after_seconds) rest
  handle-continues e none more = ground arith
  handle-continues e (some raised) more = cc

  failed-concluded :
      (code : FailureCode) (message : ℕ) (breached : Option ContractError)
      → err (elim breached [
        | none ↦ operation_error (transport_failure_of request code message at)
        | some raised ↦ contract_error raised
      ])
        ≡ concluded request at (failure code message) breached
  failed-concluded code message none = refl
  failed-concluded code message (some raised) = refl

  refused-concluded :
      (r : ProviderTransportResponse) (breached : Option ContractError)
      → is_success r.http_status ≡ false
      → err (elim breached [
        | none ↦ operation_error (response_failure_of request r at)
        | some raised ↦ contract_error raised
      ])
        ≡ concluded request at (responded r) breached
  refused-concluded r none bad = rw (bad) refl
  refused-concluded r (some raised) bad = refl

  accepted-concluded :
      (r : ProviderTransportResponse)
      → is_success r.http_status ≡ true
      → concluded request at (responded r) none ≡ ok r
  accepted-concluded r good = rw (good) refl

  react-stops :
      (outcome : Outcome)
      → IsValidOutcome outcome
      → again p attempt outcome at ≡ false
      → react p request attempt (record { outcome = outcome; observed_at = at }) outcome ledger rest
        ≡ stop ledger attempt (concluded request at outcome (breach outcome at))
  unfolding IsValidOutcome retryable
  react-stops (failure code message) valid ends =
      ap (handle p attempt ledger rest) (transport_error_lem request code message at)
      ∙ handle-stops (transport_failure_of request code message at)
          (violation (is_bad_message message) at) ends
      ∙ ap (stop ledger attempt)
          (failed-concluded code message (violation (is_bad_message message) at))
  react-stops (responded r) valid ends = elim (Bool-cases (is_success r.http_status)) [
    | inl good ↦ rw (good) (ap (stop ledger attempt) (sym (accepted-concluded r good)))
    | inr bad ↦
        let breached = violation (is_below 1 r.provider_request_id) at in
        rw (bad) (
          ap (handle p attempt ledger rest) (response_error_lem request r at valid)
          ∙ handle-stops (response_failure_of request r at) breached (ground arith)
          ∙ ap (stop ledger attempt) (refused-concluded r breached bad))
  ]

  react-continues :
      (outcome : Outcome)
      → IsValidOutcome outcome
      → again p attempt outcome at ≡ true
      → react p request attempt (record { outcome = outcome; observed_at = at }) outcome ledger rest
        ≡ after_sleep (delay_for p attempt (advice outcome)) rest
  unfolding IsValidOutcome retryable
  react-continues (failure code message) valid more =
      ap (handle p attempt ledger rest) (transport_error_lem request code message at)
      ∙ handle-continues (transport_failure_of request code message at)
          (violation (is_bad_message message) at) more
  react-continues (responded r) valid more =
      let bad : is_success r.http_status ≡ false = ground arith in
      let breached = violation (is_below 1 r.provider_request_id) at in
      rw (bad) (
        ap (handle p attempt ledger rest) (response_error_lem request r at valid)
        ∙ handle-continues (response_failure_of request r at) breached (ground arith))

-- What the loop does from an attempt on: how it ends, how many requests are sent, what is slept.
record Ends (p : ProviderRetryPolicy) (request : ProviderEndpointRequest) (reply : ℕ → Reply)
    (left attempt : ℕ) (e : Execution) : Type 0 where
  sends : e.sent ≡ last_attempt reply left attempt
  concludes : e.result ≡ conclusion request (reply (last_attempt reply left attempt))
  sleeps : e.slept ≡ waits p reply left attempt

module _ (p : ProviderRetryPolicy) (request : ProviderEndpointRequest) (reply : ℕ → Reply)
    (valid : (n : ℕ) → IsValidOutcome (reply n).outcome) where
  attempts-Ends :
      (left attempt : ℕ) (ledger : List Bucket)
      → attempt + left ≡ p.maximum_attempts
      → Ends p request reply left attempt (attempts p request reply (suc left) attempt ledger)
  unfolding attempts last_attempt waits
  attempts-Ends zero attempt ledger counted =
      let r = reply attempt in
      let after = ledger_after request r r.outcome ledger in
      let last : (attempt == p.maximum_attempts) ≡ true = ground arith in
      let rest = attempts p request reply zero (attempt + 1) after in
      let stops =
        react-stops p request attempt r.observed_at after rest r.outcome (valid attempt)
          (ground arith) in
      subst (Ends p request reply zero attempt) (sym stops)
        (record { sends = refl; concludes = refl; sleeps = refl })
  attempts-Ends (suc left) attempt ledger counted =
      let r = reply attempt in
      let after = ledger_after request r r.outcome ledger in
      let early : (attempt == p.maximum_attempts) ≡ false = ground arith in
      let rest = attempts p request reply (suc left) (attempt + 1) after in
      elim (Bool-cases (wants_retry r)) [
        | inl more ↦
            let goes_on =
              react-continues p request attempt r.observed_at after rest r.outcome (valid attempt)
                (ground arith) in
            let ends = attempts-Ends left (attempt + 1) after (omega arith) in
            subst (Ends p request reply (suc left) attempt) (sym goes_on) (record {
              sends = rw (more) ends.sends;
              concludes = rw (more) ends.concludes;
              sleeps =
                  rw (more) (ap (λ ds. delay_for p attempt (advice r.outcome) ∷ ds) ends.sleeps);
            })
        | inr enough ↦
            let stops =
              react-stops p request attempt r.observed_at after rest r.outcome (valid attempt)
                (ground arith) in
            subst (Ends p request reply (suc left) attempt) (sym stops) (record {
              sends = rw (enough) refl;
              concludes = rw (enough) refl;
              sleeps = rw (enough) refl;
            })
      ]

  last_attempt-le :
      (left attempt : ℕ)
      → (attempt ≤ last_attempt reply left attempt)
        × (last_attempt reply left attempt ≤ attempt + left)
  unfolding last_attempt
  last_attempt-le zero attempt = (omega arith, omega arith)
  last_attempt-le (suc left) attempt =
      let later = last_attempt-le left (attempt + 1) in ground arith

-- With a free quota, headers that the authentication does not repeat, a policy of at least one
-- attempt, and responses with a status from 100 to 599 and a positive delay, which their record
-- admits only, executing a request sends it until the first
-- reply that is not worth another attempt, at most `maximum_attempts` times. It sleeps the policy's
-- delays between them and ends in that last reply: the response, the provider error made of it, or,
-- where ProviderError refuses its message, its empty request identifier or the time, the
-- ValidationError, which ends it at once.
pub execute_lem :
    (p : ProviderRetryPolicy) (request : ProviderEndpointRequest) (reply : ℕ → Reply)
    (now : Datetime) (ledger free : List Bucket)
    → ((n : ℕ) → IsValidOutcome (reply n).outcome)
    → 1 ≤ p.maximum_attempts
    → request.repeats_header ≡ false
    → require_available request.source_id request.capability now.instant ledger ≡ ok free
    → let e = execute p request reply now ledger in
      let last = last_attempt reply (p.maximum_attempts - 1) 1 in
      (e.sent ≡ last)
      × (last ≤ p.maximum_attempts)
      × (e.result ≡ conclusion request (reply last))
      × (e.slept ≡ waits p reply (p.maximum_attempts - 1) 1)
unfolding execute
execute_lem p request reply now ledger free valid some_attempt distinct available =
    let left = p.maximum_attempts - 1 in
    let counted : suc left ≡ p.maximum_attempts = omega arith in
    let ends = attempts-Ends p request reply valid left 1 free (omega arith) in
    let most = last_attempt-le p request reply valid left 1 in
    let high = most.1 in
    let runs : execute p request reply now ledger ≡ attempts p request reply (suc left) 1 free =
      ap (start p request reply now ledger) available
      ∙ rw (distinct) refl
      ∙ ap (λ n. attempts p request reply n 1 free) (sym counted) in
    (
      ap (λ (e : Execution). e.sent) runs ∙ ends.sends,
      omega arith,
      ap (λ (e : Execution). e.result) runs ∙ ends.concludes,
      ap (λ (e : Execution). e.slept) runs ∙ ends.sleeps,
    )
