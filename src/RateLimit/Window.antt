-- ===== src/RateLimit/Window.antt =====
-- SlidingWindowRateLimiter: what the pieces of `evaluate` do to the stamps of a client.
use ai_powered_premier_leagu.Prelude.{
  ℕ, ◌+◌, ◌==◌, ◌≡◌, ◌≤◌, ◌<◌, false, none, some, List, [], ◌∷◌, ◌++◌, length, refl, arith,
  if◌then◌else◌,
}
use ai_powered_premier_leagu.RateLimit.{
  Limits, Client, window, expire, stamps_of, without, known_stamps, evaluate, refuse, allow,
  make_room, room_for,
}

module _ (l : Limits) where
  pub expire-append :
      (now t : ℕ) (ts : List ℕ)
      → now < t + window l
      → expire l now (ts ++ t ∷ []) ≡ expire l now ts ++ t ∷ []
  unfolding expire
  expire-append now t [] fresh = ground arith
  expire-append now t (s ∷ ts) fresh = ground (arith, expire-append now t ts fresh)

  pub expire-append_old :
      (now t : ℕ) (ts : List ℕ)
      → t + window l ≤ now
      → expire l now ts ≡ []
      → expire l now (ts ++ t ∷ []) ≡ []
  unfolding expire
  expire-append_old now t [] old none_left = ground arith
  expire-append_old now t (s ∷ ts) old none_left = ground (arith, expire-append_old now t ts old)

  pub expire-expire :
      (now later : ℕ) (ts : List ℕ)
      → now ≤ later
      → expire l later (expire l now ts) ≡ expire l later ts
  unfolding expire
  expire-expire now later [] order = refl
  expire-expire now later (t ∷ ts) order = ground (arith, expire-expire now later ts order)

  pub length-expire : (now : ℕ) (ts : List ℕ) → length (expire l now ts) ≤ length ts
  unfolding expire
  length-expire now [] = omega arith
  length-expire now (t ∷ ts) = ground (arith, length-expire now ts)

pub stamps_of-append :
    (j key : ℕ) (ts : List ℕ) (clients : List Client)
    → stamps_of key clients ≡ none
    → stamps_of j (clients ++ record { key = key; stamps = ts } ∷ [])
      ≡ (if j == key then some ts else stamps_of j clients)
stamps_of-append j key ts [] new = ground arith
stamps_of-append j key ts (c ∷ cs) new = ground (arith, stamps_of-append j key ts cs)

pub stamps_of-without :
    (key : ℕ) (clients : List Client) → stamps_of key (without key clients) ≡ none
stamps_of-without key [] = refl
stamps_of-without key (c ∷ cs) = ground (arith, stamps_of-without key cs)

pub stamps_of-without_other :
    (j key : ℕ) (clients : List Client)
    → (j == key) ≡ false
    → stamps_of j (without key clients) ≡ stamps_of j clients
stamps_of-without_other j key [] other = refl
stamps_of-without_other j key (c ∷ cs) other =
    ground (arith, stamps_of-without_other j key cs other)

pub length-without : (key : ℕ) (cs : List Client) → length (without key cs) ≤ length cs
length-without key [] = omega arith
length-without key (c ∷ cs) = ground (arith, length-without key cs)

pub length-without_found :
    (key : ℕ) (cs : List Client) (ts : List ℕ)
    → stamps_of key cs ≡ some ts
    → length (without key cs) < length cs
length-without_found key [] ts found = cc
length-without_found key (c ∷ cs) ts found =
    ground (arith, length-without key cs, length-without_found key cs ts)

-- The stamps of a client that are within the window.
abbrev pub current : Limits → ℕ → ℕ → List Client → List ℕ
current l now key clients = expire l now (known_stamps key clients)

abbrev pub entry : ℕ → List ℕ → Client
entry key stamps = record { key = key; stamps = stamps }

module _ (l : Limits) (now key : ℕ) (clients : List Client) where
  pub evaluate-refused :
      l.limit ≤ length (current l now key clients)
      → evaluate l now key clients ≡ (
        refuse l now (current l now key clients),
        room_for l key clients (stamps_of key clients)
            ++ entry key (current l now key clients) ∷ [],
      )
  unfolding evaluate make_room
  evaluate-refused full = ground arith

  pub evaluate-allowed :
      length (current l now key clients) < l.limit
      → evaluate l now key clients ≡ (
        allow l now (current l now key clients ++ now ∷ []),
        room_for l key clients (stamps_of key clients)
            ++ entry key (current l now key clients ++ now ∷ []) ∷ [],
      )
  unfolding evaluate make_room
  evaluate-allowed free = ground arith
