-- ===== src/Provider/Delays.antt =====
-- src/pl_platform/ingestion/current_client.py: how long an execution sleeps.
use ai_powered_premier_leagu.Prelude.{
  ℕ, zero, suc, ◌+◌, ◌-◌, ◌*◌, ◌≡◌, ◌≤◌, sym, ap, Option, none, some, false, List, length, sum_of,
  ok, arith, inl, inr, Bool-cases, subst,
}
use ai_powered_premier_leagu.Datetimes.{Datetime}
use ai_powered_premier_leagu.Provider.Ledger.{Bucket, require_available}
use ai_powered_premier_leagu.Provider.Executor.{
  Reply, ProviderEndpointRequest, ProviderRetryPolicy, delay_for, execute,
}
use ai_powered_premier_leagu.Provider.Errors.{IsValidOutcome}
use ai_powered_premier_leagu.Provider.Attempts.{
  waits, last_attempt, advice, wants_retry, execute_lem,
}

delay_for-le :
    (p : ProviderRetryPolicy) (attempt : ℕ) (delay : Option ℕ)
    → delay_for p attempt delay ≤ p.maximum_delay
unfolding delay_for
delay_for-le p attempt none = omega arith
delay_for-le p attempt (some delay) = omega arith

waits-le :
    (p : ProviderRetryPolicy) (reply : ℕ → Reply) (left attempt : ℕ)
    → sum_of (λ d. d) (waits p reply left attempt) ≤ left * p.maximum_delay
unfolding waits
waits-le p reply zero attempt = omega arith
waits-le p reply (suc left) attempt =
    let later = waits-le p reply left (attempt + 1) in
    let one = delay_for-le p attempt (advice (reply attempt).outcome) in
    elim (Bool-cases (wants_retry (reply attempt))) [
      | inl more ↦ rw (more) (omega arith)
      | inr enough ↦ rw (enough) (omega arith)
    ]

length-waits :
    (p : ProviderRetryPolicy) (reply : ℕ → Reply) (left attempt : ℕ)
    → length (waits p reply left attempt) + attempt ≡ last_attempt reply left attempt
unfolding waits last_attempt
length-waits p reply zero attempt = omega arith
length-waits p reply (suc left) attempt =
    let later = length-waits p reply left (attempt + 1) in
    elim (Bool-cases (wants_retry (reply attempt))) [
      | inl more ↦ rw (more) (omega arith)
      | inr enough ↦ rw (enough) (omega arith)
    ]

-- With a free quota, headers that the authentication does not repeat, a policy of at least one
-- attempt, and responses with a status from 100 to 599 and a positive delay, which their record
-- admits only, an execution sleeps once between two
-- requests that it sends, and in all at most the maximum delay for each attempt but the last.
pub execute-slept :
    (p : ProviderRetryPolicy) (request : ProviderEndpointRequest) (reply : ℕ → Reply)
    (now : Datetime) (ledger free : List Bucket)
    → ((n : ℕ) → IsValidOutcome (reply n).outcome)
    → 1 ≤ p.maximum_attempts
    → request.repeats_header ≡ false
    → require_available request.source_id request.capability now.instant ledger ≡ ok free
    → let e = execute p request reply now ledger in
      (length e.slept + 1 ≡ e.sent)
      × (sum_of (λ d. d) e.slept ≤ (p.maximum_attempts - 1) * p.maximum_delay)
execute-slept p request reply now ledger free valid some_attempt distinct available =
    let runs = execute_lem p request reply now ledger free valid some_attempt distinct available in
    let sent = runs.0 in
    let count = length-waits p reply (p.maximum_attempts - 1) 1 in
    let slept = ap length (runs.3) in
    (
      omega arith,
      subst (λ ds. sum_of (λ d. d) ds ≤ (p.maximum_attempts - 1) * p.maximum_delay) (sym (runs.3))
          (waits-le p reply (p.maximum_attempts - 1) 1),
    )
