-- ===== src/RateLimit/Refinement.antt =====
-- SlidingWindowRateLimiter: a run of requests against the window over the history.
use ai_powered_premier_leagu.Prelude.{
  ℕ, ◌+◌, ◌==◌, ◌≡◌, ◌≤◌, ltb, leb, Bool, true, false, some, List, [], ◌∷◌, ◌++◌, length, refl, ap,
  sym, inl, inr, ◌∙◌, arith, if◌then◌else◌, leb→le, leb→lt, ==→eq, Bool-cases, subst, to_set, map,
  ap₂, ltb→lt, ltb→le,
}
use ai_powered_premier_leagu.RateLimit.{
  Limits, Client, Request, RateLimitDecision, serve, window, expire, stamps_of, known_stamps,
  evaluate, refuse, allow, room_for, or_empty,
}
use ai_powered_premier_leagu.RateLimit.Window.{
  expire-expire, expire-append, expire-append_old, stamps_of-append, current, entry,
  evaluate-refused, evaluate-allowed,
}
use ai_powered_premier_leagu.RateLimit.History.{
  recent, within_limit, IsTimely, Past, StandsFor, Past-later, Past-snoc, recent-snoc_fresh,
  recent-snoc_old, recent-Past,
}
use ai_powered_premier_leagu.RateLimit.Capacity.{
  Keeps, Room, room_for-Keeps, placed-Keeps, clients_seen, length-seen,
}

module _ (l : Limits) (now key : ℕ) (clients : List Client) (history : List Request)
    (seen : List ℕ) where
  placed-StandsFor :
      (others : List Client) (ts : List ℕ) (after : List Request)
      → Room l key clients seen others
      → StandsFor l now clients history
      → ((later : ℕ) → now ≤ later → expire l later ts ≡ recent l later key after)
      → ((j later : ℕ) → (j == key) ≡ false → recent l later j history ≡ recent l later j after)
      → StandsFor l now (others ++ entry key ts ∷ []) after
  unfolding StandsFor Room
  placed-StandsFor others ts after room stands own rest j later order =
      let placed = stamps_of-append j key ts others (room.0) in
      elim (Bool-cases (j == key)) [
        | inl same ↦
            let mine = ==→eq j key same in
            let taken : stamps_of j (others ++ entry key ts ∷ []) ≡ some ts = ground arith in
            ap (λ o. expire l later (or_empty o)) taken
            ∙ own later order
            ∙ ap (λ k. recent l later k after) (sym mine)
        | inr other ↦
            let kept = room.1 j other in
            let taken : stamps_of j (others ++ entry key ts ∷ []) ≡ stamps_of j clients =
              ground arith in
            ap (λ o. expire l later (or_empty o)) taken ∙ stands j later order ∙ rest j later other
      ]

StandsFor-later :
    (l : Limits) (last now : ℕ) (clients : List Client) (history : List Request)
    → last ≤ now
    → StandsFor l last clients history
    → StandsFor l now clients history
unfolding StandsFor
StandsFor-later l last now clients history order stands key later forward =
    stands key later (omega arith)

StandsFor-now :
    (l : Limits) (now : ℕ) (clients : List Client) (history : List Request)
    → StandsFor l now clients history
    → (key : ℕ) → current l now key clients ≡ recent l now key history
unfolding StandsFor
StandsFor-now l now clients history stands key = stands key now (omega arith)

module _ (l : Limits) (last now key : ℕ) (clients : List Client) (history : List Request)
    (past : Past last history) (order : last ≤ now)
    (stands : StandsFor l last clients history) where
  asked : Request
  asked = record { at = now; client = key }

  refused-stamps_lem :
      (later : ℕ)
      → now ≤ later
      → expire l later (current l now key clients) ≡ recent l later key history
  unfolding StandsFor
  refused-stamps_lem later forward =
      expire-expire l now later (known_stamps key clients) forward ∙ stands key later (omega arith)

  allowed-stamps_lem :
      (later : ℕ)
      → now ≤ later
      → expire l later (current l now key clients ++ now ∷ [])
        ≡ recent l later key (history ++ asked ∷ [])
  unfolding asked
  allowed-stamps_lem later forward = elim (Bool-cases (ltb later (now + window l))) [
    | inl fresh ↦
        let young = ltb→lt later (now + window l) fresh in
        expire-append l later now (current l now key clients) young
        ∙ ap (λ ts. ts ++ now ∷ []) (refused-stamps_lem later forward)
        ∙ ground (arith, recent-snoc_fresh l later key history asked young)
    | inr stale ↦
        let old = ltb→le later (now + window l) stale in
        let gone = recent-Past l last later key history past (omega arith) in
        expire-append_old l later now (current l now key clients) old
          (refused-stamps_lem later forward ∙ gone)
        ∙ sym (recent-snoc_old l later key history asked old ∙ gone)
  ]

  others-stamps_lem :
      (j later : ℕ)
      → (j == key) ≡ false
      → recent l later j history ≡ recent l later j (history ++ asked ∷ [])
  unfolding asked
  others-stamps_lem j later other = elim (Bool-cases (ltb later (now + window l))) [
    | inl fresh ↦
        ground
          (arith, recent-snoc_fresh l later j history asked (ltb→lt later (now + window l) fresh))
    | inr stale ↦
        sym (recent-snoc_old l later j history asked (ltb→le later (now + window l) stale))
  ]

-- What a call has to do: answer as the history says, and stand for the history after it.
Refines :
    Limits
    → Request
    → List Client
    → List Request
    → List ℕ
    → RateLimitDecision × List Client
    → Type 0
Refines l r clients history seen answer =
    let free = ltb (length (recent l r.at r.client history)) l.limit in
    let after = if free then history ++ r ∷ [] else history in
    (answer.0.allowed ≡ free)
    × StandsFor l r.at (answer.1) after
    × Keeps (answer.1) (r.client ∷ seen)

evaluate-Refines :
    (l : Limits) (r : Request) (last : ℕ) (clients : List Client) (history : List Request)
    (seen : List ℕ)
    → Past last history
    → last ≤ r.at
    → StandsFor l last clients history
    → Keeps clients seen
    → length (to_set (r.client ∷ seen)) ≤ l.max_clients
    → Refines l r clients history seen (evaluate l r.at r.client clients)
unfolding Refines asked allow refuse
evaluate-Refines l r last clients history seen past order stands keeps fits =
    let now = r.at in
    let key = r.client in
    let stamps = current l now key clients in
    let others = room_for l key clients (stamps_of key clients) in
    let room = room_for-Keeps l key clients seen (stamps_of key clients) refl keeps fits in
    let before = StandsFor-later l last now clients history order stands in
    let seen_now = StandsFor-now l now clients history before key in
    elim (Bool-cases (leb l.limit (length stamps))) [
      | inl full ↦
          let over = leb→le l.limit (length stamps) full in
          let free : ltb (length (recent l now key history)) l.limit ≡ false =
            ground (arith, ap length seen_now) in
          subst (Refines l r clients history seen) (sym (evaluate-refused l now key clients over)) (
            sym free,
            subst
                (λ b.
                  StandsFor l now (others ++ entry key stamps ∷ [])
                    (if b then history ++ r ∷ [] else history))
                (sym free)
                (placed-StandsFor l now key clients history seen others stamps history room before
                  (refused-stamps_lem l last now key clients history past order stands)
                  (λ j later other. refl)),
            placed-Keeps l key clients seen others stamps room keeps,
          )
      | inr under ↦
          let below = leb→lt l.limit (length stamps) under in
          let free : ltb (length (recent l now key history)) l.limit ≡ true =
            ground (arith, ap length seen_now) in
          subst (Refines l r clients history seen) (sym (evaluate-allowed l now key clients below))
            (
              sym free,
              subst
                  (λ b.
                    StandsFor l now (others ++ entry key (stamps ++ now ∷ []) ∷ [])
                      (if b then history ++ r ∷ [] else history))
                  (sym free)
                  (placed-StandsFor l now key clients history seen others (stamps ++ now ∷ [])
                    (history ++ r ∷ []) room before
                    (allowed-stamps_lem l last now key clients history past order stands)
                    (others-stamps_lem l last now key clients history past order stands)),
              placed-Keeps l key clients seen others (stamps ++ now ∷ []) room keeps,
            )
    ]

history-after :
    (l : Limits) (r : Request) (history : List Request) (b : Bool) (last : ℕ)
    → Past last history
    → last ≤ r.at
    → Past r.at (if b then history ++ r ∷ [] else history)
history-after l r history true last past order =
    Past-snoc r.at history r (Past-later last r.at history order past) (omega arith)
history-after l r history false last past order = Past-later last r.at history order past

serve-refines :
    (l : Limits) (rs : List Request) (last : ℕ) (clients : List Client) (history : List Request)
    (seen : List ℕ)
    → Past last history
    → StandsFor l last clients history
    → Keeps clients seen
    → IsTimely last rs
    → length (to_set (clients_seen seen rs)) ≤ l.max_clients
    → map (λ (d : RateLimitDecision). d.allowed) (serve l rs clients).0 ≡ within_limit l history rs
unfolding serve within_limit IsTimely clients_seen Refines
serve-refines l [] last clients history seen past stands keeps timely fits = refl
serve-refines l (r ∷ rs) last clients history seen past stands keeps timely fits =
    let free = ltb (length (recent l r.at r.client history)) l.limit in
    let grows = length-seen (r.client ∷ seen) rs in
    let step =
      evaluate-Refines l r last clients history seen past (timely.0) stands keeps (omega arith) in
    let after = if free then history ++ r ∷ [] else history in
    let rest =
      serve-refines l rs r.at (evaluate l r.at r.client clients).1 after (r.client ∷ seen)
        (history-after l r history free last past (timely.0)) (step.1) (step.2) (timely.1) fits in
    ap₂ ◌∷◌ (step.0) rest

-- Starting empty, the limiter lets through exactly the requests for which its client had fewer
-- than `limit` requests let through less than a window earlier, when the clock does not go back and
-- the run has at most `max_clients` distinct clients.
pub serve_lem :
    (l : Limits) (rs : List Request)
    → IsTimely 0 rs
    → length (to_set (clients_seen [] rs)) ≤ l.max_clients
    → map (λ (d : RateLimitDecision). d.allowed) (serve l rs []).0 ≡ within_limit l [] rs
unfolding Past StandsFor Keeps recent expire
serve_lem l rs timely fits =
    serve-refines l rs 0 [] [] [] tt (λ key later order. refl) (omega arith, λ key gone. refl)
      timely fits
