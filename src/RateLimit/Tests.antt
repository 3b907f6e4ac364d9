-- ===== src/RateLimit/Tests.antt =====
-- A limiter of two requests in ten seconds for two clients, with a clock of ten ticks a second.
use ai_powered_premier_leagu.Prelude.{ℕ, ◌≡◌, refl, true, false, some, List, [], ◌∷◌, map, arith}
use ai_powered_premier_leagu.RateLimit.{
  Limits, Client, Request, RateLimitDecision, evaluate, serve, expire, make_room, allow, refuse,
  seconds_left,
}
use ai_powered_premier_leagu.RateLimit.Bounds.{IsUsable, IsBounded, evaluate-IsBounded}
use ai_powered_premier_leagu.RateLimit.Retry.{evaluate-after_retry, evaluate-before_retry}
use ai_powered_premier_leagu.RateLimit.History.{IsTimely, within_limit}
use ai_powered_premier_leagu.RateLimit.Capacity.{clients_seen}
use ai_powered_premier_leagu.RateLimit.Refinement.{serve_lem}

abbrev limits : Limits
limits = record { limit = 2; window_seconds = 10; max_clients = 2; unit = 10 }

abbrev ask : ℕ → ℕ → Request
ask time who = record { at = time; client = who }

abbrev requests : List Request
requests = ask 100 1 ∷ ask 103 2 ∷ ask 150 1 ∷ ask 170 1 ∷ ask 171 2 ∷ ask 200 1 ∷ []

third_is_refused :
    map (λ (d : RateLimitDecision). d.allowed) (serve limits requests []).0
    ≡ true ∷ true ∷ true ∷ false ∷ true ∷ true ∷ []
unfolding serve evaluate expire make_room allow refuse
third_is_refused = refl

serve_lem_example :
    map (λ (d : RateLimitDecision). d.allowed) (serve limits requests []).0
    ≡ within_limit limits [] requests
unfolding IsTimely clients_seen
serve_lem_example =
    serve_lem limits requests
      (omega arith, (omega arith, (omega arith, (omega arith, (omega arith, (omega arith, tt))))))
      (omega arith)

-- The client has both of its requests within the window.
abbrev full : List Client
full = record { key = 2; stamps = 90 ∷ [] } ∷ record { key = 1; stamps = 100 ∷ 150 ∷ [] } ∷ []

usable : IsUsable limits
unfolding IsUsable
usable = (omega arith, omega arith, omega arith, omega arith)

full-IsBounded : IsBounded limits full
unfolding IsBounded
full-IsBounded = (omega arith, (omega arith, (omega arith, tt)))

evaluate-IsBounded_example : IsBounded limits (evaluate limits 170 7 full).1
evaluate-IsBounded_example = evaluate-IsBounded limits 170 7 full usable full-IsBounded

asked_to_wait : (evaluate limits 171 1 full).0.retry_after_seconds ≡ some 3
unfolding evaluate expire make_room refuse seconds_left
asked_to_wait = refl

evaluate-after_retry_example :
    (evaluate limits 201 1 (evaluate limits 171 1 full).1).0.allowed ≡ true
evaluate-after_retry_example =
    evaluate-after_retry limits 171 1 full 201 usable full-IsBounded asked_to_wait (omega arith)

evaluate-before_retry_example :
    (evaluate limits 191 1 (evaluate limits 171 1 full).1).0.allowed ≡ false
evaluate-before_retry_example =
    evaluate-before_retry limits 171 1 full 191 usable asked_to_wait (omega arith) (omega arith)
