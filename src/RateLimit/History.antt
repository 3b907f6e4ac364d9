-- ===== src/RateLimit/History.antt =====
-- SlidingWindowRateLimiter: what the limiter promises, written over the whole history of the requests
-- that it let through.
use ai_powered_premier_leagu.Prelude.{
  ℕ, ◌+◌, ◌==◌, ◌≡◌, ◌≤◌, ◌<◌, ltb, Bool, List, [], ◌∷◌, ◌++◌, ◌&&◌, length, refl, arith,
  if◌then◌else◌,
}
use ai_powered_premier_leagu.RateLimit.{Limits, Client, Request, window, expire, known_stamps}

-- The times at which the history let a client through less than a window before `now`.
unfoldable pub recent : Limits → ℕ → ℕ → List Request → List ℕ
recent l now key [] = []
recent l now key (r ∷ rs) =
    let rest = recent l now key rs in
    if key == r.client && ltb now (r.at + window l) then r.at ∷ rest else rest

-- Whether each request of a run is let through: fewer than `limit` of its client were, less than a
-- window before it.
unfoldable pub within_limit : Limits → List Request → List Request → List Bool
within_limit l history [] = []
within_limit l history (r ∷ rs) =
    let free = ltb (length (recent l r.at r.client history)) l.limit in
    free ∷ within_limit l (if free then history ++ r ∷ [] else history) rs

-- The clock does not go back.
unfoldable pub IsTimely : ℕ → List Request → Type 0
IsTimely now [] = Unit
IsTimely now (r ∷ rs) = (now ≤ r.at) × IsTimely r.at rs

module _ (l : Limits) where
  pub recent-snoc_fresh :
      (now key : ℕ) (history : List Request) (r : Request)
      → now < r.at + window l
      → recent l now key (history ++ r ∷ []) ≡ (
          if key == r.client
          then recent l now key history ++ r.at ∷ []
          else recent l now key history)
  unfolding recent
  recent-snoc_fresh now key [] r fresh = ground arith
  recent-snoc_fresh now key (h ∷ hs) r fresh = ground (arith, recent-snoc_fresh now key hs r fresh)

  pub recent-snoc_old :
      (now key : ℕ) (history : List Request) (r : Request)
      → r.at + window l ≤ now
      → recent l now key (history ++ r ∷ []) ≡ recent l now key history
  unfolding recent
  recent-snoc_old now key [] r old = ground arith
  recent-snoc_old now key (h ∷ hs) r old = ground (arith, recent-snoc_old now key hs r old)

-- No request of the history is later than `now`.
unfoldable pub Past : ℕ → List Request → Type 0
Past now [] = Unit
Past now (h ∷ hs) = (h.at ≤ now) × Past now hs

module _ (l : Limits) where
  pub recent-Past :
      (last now key : ℕ) (history : List Request)
      → Past last history
      → last + window l ≤ now
      → recent l now key history ≡ []
  unfolding recent Past
  recent-Past last now key [] past late = refl
  recent-Past last now key (h ∷ hs) past late =
      let earlier = past.0 in ground (arith, recent-Past last now key hs (past.1) late)

pub Past-later :
    (now later : ℕ) (history : List Request) → now ≤ later → Past now history → Past later history
unfolding Past
Past-later now later [] order past = tt
Past-later now later (h ∷ hs) order past =
    (let earlier = past.0 in omega arith, Past-later now later hs order (past.1))

pub Past-snoc :
    (now : ℕ) (history : List Request) (r : Request)
    → Past now history
    → r.at ≤ now
    → Past now (history ++ r ∷ [])
unfolding Past
Past-snoc now [] r past order = (order, tt)
Past-snoc now (h ∷ hs) r past order = (past.0, Past-snoc now hs r (past.1) order)

-- The state stands for the history: from `now` on, what is left of the stamps of each client is
-- what the history has within the window.
unfoldable pub StandsFor : Limits → ℕ → List Client → List Request → Type 0
StandsFor l now clients history =
    (key later : ℕ)
    → now ≤ later
    → expire l later (known_stamps key clients) ≡ recent l later key history
