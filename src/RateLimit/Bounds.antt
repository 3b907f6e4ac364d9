-- ===== src/RateLimit/Bounds.antt =====
-- SlidingWindowRateLimiter: how much the limiter keeps.
use ai_powered_premier_leagu.Prelude.{
  ℕ, ◌==◌, ◌≡◌, ◌≤◌, ◌<◌, leb, true, false, Option, none, some, List, [], ◌∷◌, ◌++◌, length,
  length-append, All, refl, sym, inl, inr, arith, if◌then◌else◌, leb→le, leb→lt, Bool-cases, subst,
}
use ai_powered_premier_leagu.RateLimit.{
  Limits, Client, stamps_of, without, known_stamps, room_for, evaluate, pop_oldest,
}
use ai_powered_premier_leagu.RateLimit.Window.{
  length-expire, current, entry, evaluate-refused, evaluate-allowed, length-without_found,
}

-- What the settings promise: every number is at least one.
unfoldable pub IsUsable : Limits → Type 0
IsUsable l = (1 ≤ l.limit) × (1 ≤ l.window_seconds) × (1 ≤ l.max_clients) × (1 ≤ l.unit)

abbrev Within : Limits → Client → Type 0
Within l c = length c.stamps ≤ l.limit

-- At most `max_clients` clients are kept, each with at most `limit` stamps.
unfoldable pub IsBounded : Limits → List Client → Type 0
IsBounded l clients = (length clients ≤ l.max_clients) × All (Within l) clients

module _ (l : Limits) where
  All-without : (key : ℕ) (cs : List Client) → All (Within l) cs → All (Within l) (without key cs)
  All-without key [] h = tt
  All-without key (c ∷ cs) h = elim (Bool-cases (key == c.key)) [
    | inl same ↦
        subst (λ b. All (Within l) (if b then without key cs else c ∷ without key cs)) (sym same)
          (All-without key cs (h.1))
    | inr other ↦
        subst (λ b. All (Within l) (if b then without key cs else c ∷ without key cs)) (sym other)
          (h.0, All-without key cs (h.1))
  ]

  All-snoc :
      (cs : List Client) (c : Client)
      → All (Within l) cs
      → Within l c
      → All (Within l) (cs ++ c ∷ [])
  All-snoc [] c h k = (k, tt)
  All-snoc (x ∷ xs) c h k = (h.0, All-snoc xs c (h.1) k)

  All-pop_oldest : (cs : List Client) → All (Within l) cs → All (Within l) (pop_oldest cs)
  All-pop_oldest [] h = tt
  All-pop_oldest (c ∷ cs) h = h.1

  known-Within :
      (key : ℕ) (cs : List Client) → All (Within l) cs → length (known_stamps key cs) ≤ l.limit
  known-Within key [] h = omega arith
  known-Within key (c ∷ cs) h =
      let rest = known-Within key cs (h.1) in let first = h.0 in ground arith

  length-room_for :
      (key : ℕ) (cs : List Client) (found : Option (List ℕ))
      → stamps_of key cs ≡ found
      → 1 ≤ l.max_clients
      → length cs ≤ l.max_clients
      → length (room_for l key cs found) < l.max_clients
  length-room_for key [] none is some_room within = ground arith
  length-room_for key (c ∷ cs) none is some_room within = ground arith
  length-room_for key cs (some ts) is some_room within =
      let smaller = length-without_found key cs ts is in omega arith

  All-room_for :
      (key : ℕ) (cs : List Client) (found : Option (List ℕ))
      → All (Within l) cs
      → All (Within l) (room_for l key cs found)
  All-room_for key cs none h =
      elim (leb l.max_clients (length cs))
        as (λ b. All (Within l) (if b then pop_oldest cs else cs)) [
          | true ↦ All-pop_oldest cs h
          | false ↦ h
        ]
  All-room_for key cs (some ts) h = All-without key cs h

  placed-IsBounded :
      (key : ℕ) (clients : List Client) (ts : List ℕ)
      → IsUsable l
      → IsBounded l clients
      → length ts ≤ l.limit
      → IsBounded l (room_for l key clients (stamps_of key clients) ++ entry key ts ∷ [])
  unfolding IsBounded IsUsable
  placed-IsBounded key clients ts usable bounded few =
      let others = room_for l key clients (stamps_of key clients) in
      let small = length-room_for key clients (stamps_of key clients) refl (usable.2) (bounded.0) in
      (
        subst (λ n. n ≤ l.max_clients) (sym (length-append others (entry key ts ∷ [])))
            (omega arith),
        All-snoc others (entry key ts)
            (All-room_for key clients (stamps_of key clients) (bounded.1)) few,
      )

  pub length-current :
      (now key : ℕ) (clients : List Client)
      → IsBounded l clients
      → length (current l now key clients) ≤ l.limit
  unfolding IsBounded
  length-current now key clients bounded =
      let few = length-expire l now (known_stamps key clients) in
      let known = known-Within key clients (bounded.1) in omega arith

  -- With usable limits, every call keeps the limiter within its bounds: at most `max_clients`
  -- clients, each with at most `limit` stamps.
  pub evaluate-IsBounded :
      (now key : ℕ) (clients : List Client)
      → IsUsable l
      → IsBounded l clients
      → IsBounded l (evaluate l now key clients).1
  evaluate-IsBounded now key clients usable bounded =
      let stamps = current l now key clients in
      elim (Bool-cases (leb l.limit (length stamps))) [
        | inl full ↦
            subst (λ r. IsBounded l (r.1))
              (sym (evaluate-refused l now key clients (leb→le l.limit (length stamps) full)))
              (placed-IsBounded key clients stamps usable bounded
                (length-current now key clients bounded))
        | inr free ↦
            subst (λ r. IsBounded l (r.1))
              (sym (evaluate-allowed l now key clients (leb→lt l.limit (length stamps) free)))
              (placed-IsBounded key clients (stamps ++ now ∷ []) usable bounded (
                let few = leb→lt l.limit (length stamps) free in
                omega (arith, length-append stamps (now ∷ []))))
      ]
