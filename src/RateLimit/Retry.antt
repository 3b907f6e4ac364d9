-- ===== src/RateLimit/Retry.antt =====
-- SlidingWindowRateLimiter: the retry interval of a refusal.
use ai_powered_premier_leagu.Prelude.{
  ℕ, ◌+◌, ◌-◌, ◌*◌, ◌/◌, ◌≡◌, ◌≤◌, ◌<◌, zero, leb, max, true, false, Option, none, some, List, [],
  ◌∷◌, length, refl, ap, sym, inl, inr, ◌∙◌, arith, leb→le, leb→lt, Bool-cases, suc, List-cases,
  subst,
}
use native.Mathlib.Nat.{lt-div-mul-add, div-mul-le_self, le-div_iff_mul-le}
use ai_powered_premier_leagu.RateLimit.{
  Limits, Client, window, expire, stamps_of, known_stamps, evaluate, refuse, allow, room_for,
  seconds_left,
}
use ai_powered_premier_leagu.RateLimit.Window.{
  length-expire, stamps_of-append, stamps_of-without, current, evaluate-refused, evaluate-allowed,
}
use ai_powered_premier_leagu.RateLimit.Bounds.{IsUsable, IsBounded, length-current}

-- The quotient of a rounded-up division, taken as one where it is zero.
max-positive : (n : ℕ) → 1 ≤ n → max 1 n ≡ n
max-positive n positive = omega arith

ceil-enough : (x u : ℕ) → 1 ≤ u → x ≤ max 1 ((x + (u - 1)) / u) * u
ceil-enough zero u some_unit = omega arith
ceil-enough (suc x) u some_unit =
    let below = lt-div-mul-add {a = suc x + (u - 1)} {b = u} some_unit in
    let positive =
      (le-div_iff_mul-le {k = u} {x = 1} {y = suc x + (u - 1)} some_unit).1 (omega arith) in
    subst (λ q. suc x ≤ q * u) (sym (max-positive ((suc x + (u - 1)) / u) positive)) (omega arith)

ceil-exact : (x u : ℕ) → 1 ≤ u → 1 ≤ x → max 1 ((x + (u - 1)) / u) * u < x + u
ceil-exact x u some_unit some_time =
    let above = div-mul-le_self (x + (u - 1)) u in
    let positive =
      (le-div_iff_mul-le {k = u} {x = 1} {y = x + (u - 1)} some_unit).1 (omega arith) in
    subst (λ q. q * u < x + u) (sym (max-positive ((x + (u - 1)) / u) positive)) (omega arith)

module _ (l : Limits) where
  room_for-none :
      (key : ℕ) (cs : List Client) (found : Option (List ℕ))
      → stamps_of key cs ≡ found
      → stamps_of key (room_for l key cs found) ≡ none
  room_for-none key [] none is = ground arith
  room_for-none key (c ∷ cs) none is = ground arith
  room_for-none key cs (some ts) is = stamps_of-without key cs

  current-refused :
      (now later key : ℕ) (clients : List Client)
      → l.limit ≤ length (current l now key clients)
      → now ≤ later
      → current l later key (evaluate l now key clients).1
        ≡ expire l later (current l now key clients)
  current-refused now later key clients full order =
      let others = room_for l key clients (stamps_of key clients) in
      let placed =
        stamps_of-append key key (current l now key clients) others
          (room_for-none key clients (stamps_of key clients) refl) in
      ap (λ r. current l later key (r.1)) (evaluate-refused l now key clients full)
      ∙ ap (expire l later) (ground (arith, placed))

  expire-fresh : (now t : ℕ) (known ts : List ℕ) → expire l now known ≡ t ∷ ts → now < t + window l
  unfolding expire
  expire-fresh now t [] ts is = cc
  expire-fresh now t (s ∷ known) ts is = ground (arith, expire-fresh now t known ts)

  expire-head_fresh :
      (later t : ℕ) (ts : List ℕ) → later < t + window l → expire l later (t ∷ ts) ≡ t ∷ ts
  unfolding expire
  expire-head_fresh later t ts fresh = ground arith

  expire-head_old :
      (later t : ℕ) (ts : List ℕ)
      → t + window l ≤ later
      → length (expire l later (t ∷ ts)) ≤ length ts
  unfolding expire
  expire-head_old later t ts old = ground (arith, length-expire l later ts)

  seconds_left-enough :
      (now t : ℕ) → 1 ≤ l.unit → t + window l ≤ now + seconds_left l now t * l.unit
  unfolding seconds_left
  seconds_left-enough now t some_unit =
      let enough = ceil-enough (t + window l - now) l.unit some_unit in omega arith

  seconds_left-exact :
      (now t later : ℕ)
      → 1 ≤ l.unit
      → now < t + window l
      → now ≤ later
      → later + l.unit ≤ now + seconds_left l now t * l.unit
      → later < t + window l
  unfolding seconds_left
  seconds_left-exact now t later some_unit fresh order early =
      let exact = ceil-exact (t + window l - now) l.unit some_unit (omega arith) in omega arith

module _ (l : Limits) (now key : ℕ) (clients : List Client) where
  refused-full :
      {seconds : ℕ}
      → (evaluate l now key clients).0.retry_after_seconds ≡ some seconds
      → l.limit ≤ length (current l now key clients)
  unfolding allow
  refused-full {seconds} answered =
      elim (Bool-cases (leb l.limit (length (current l now key clients)))) [
        | inl full ↦ leb→le l.limit (length (current l now key clients)) full
        | inr free ↦
            let allowed =
              evaluate-allowed l now key clients
                (leb→lt l.limit (length (current l now key clients)) free) in
            let impossible : none ≡ some seconds =
              ap (λ r. r.0.retry_after_seconds) (sym allowed) ∙ answered in
            cc
      ]

  refused-seconds :
      {seconds : ℕ} (t : ℕ) (ts : List ℕ)
      → (evaluate l now key clients).0.retry_after_seconds ≡ some seconds
      → current l now key clients ≡ t ∷ ts
      → seconds_left l now t ≡ seconds
  unfolding refuse
  refused-seconds {seconds} t ts answered stamps =
      let refusal = evaluate-refused l now key clients (refused-full answered) in
      let same = ap (λ r. r.0.retry_after_seconds) (sym refusal) ∙ answered in cc

  refused-stamps :
      {seconds : ℕ}
      → 1 ≤ l.limit
      → (evaluate l now key clients).0.retry_after_seconds ≡ some seconds
      → (t : ℕ) × (ts : List ℕ) × (current l now key clients ≡ t ∷ ts)
  refused-stamps {seconds} some_limit answered =
      let full = refused-full answered in
      elim (List-cases (current l now key clients)) [
        | inl nothing ↦ ground arith
        | inr stamps ↦ stamps
      ]

module _ (l : Limits) (now key : ℕ) (clients : List Client) {seconds : ℕ} where
  -- With usable limits and a limiter within its bounds, a client that was refused and asks again
  -- when the answered number of seconds has passed is let through.
  pub evaluate-after_retry :
      (later : ℕ)
      → IsUsable l
      → IsBounded l clients
      → (evaluate l now key clients).0.retry_after_seconds ≡ some seconds
      → now + seconds * l.unit ≤ later
      → (evaluate l later key (evaluate l now key clients).1).0.allowed ≡ true
  unfolding IsUsable allow
  evaluate-after_retry later usable bounded answered waited =
      let full = refused-full l now key clients answered in
      let stamps = refused-stamps l now key clients (usable.0) answered in
      let again = current-refused l now later key clients full (omega arith) in
      let t = stamps.0 in
      let ts = stamps.1 in
      let same = refused-seconds l now key clients t ts answered (stamps.2) in
      let enough = seconds_left-enough l now t (usable.3) in
      let past = subst (λ s. t + window l ≤ now + s * l.unit) same enough in
      let old = expire-head_old l later t ts (omega arith) in
      let few = length-current l now key clients bounded in
      ap (λ r. r.0.allowed)
        (evaluate-allowed l later key (evaluate l now key clients).1 (
          subst (λ n. length n < l.limit) (sym (again ∙ ap (expire l later) (stamps.2)))
            (let most = ap length (stamps.2) in omega arith)))

  -- With usable limits, a client that was refused and asks again at least one second before the
  -- answered number of seconds has passed is refused again.
  pub evaluate-before_retry :
      (later : ℕ)
      → IsUsable l
      → (evaluate l now key clients).0.retry_after_seconds ≡ some seconds
      → now ≤ later
      → later + l.unit ≤ now + seconds * l.unit
      → (evaluate l later key (evaluate l now key clients).1).0.allowed ≡ false
  unfolding IsUsable refuse
  evaluate-before_retry later usable answered order early =
      let full = refused-full l now key clients answered in
      let stamps = refused-stamps l now key clients (usable.0) answered in
      let again = current-refused l now later key clients full order in
      let t = stamps.0 in
      let ts = stamps.1 in
      let same = refused-seconds l now key clients t ts answered (stamps.2) in
      let fresh = expire-fresh l now t (known_stamps key clients) ts (stamps.2) in
      let still =
        seconds_left-exact l now t later (usable.3) fresh order
          (subst (λ s. later + l.unit ≤ now + s * l.unit) (sym same) early) in
      let kept = expire-head_fresh l later t ts still in
      ap (λ r. r.0.allowed)
        (evaluate-refused l later key (evaluate l now key clients).1 (
          subst (λ n. l.limit ≤ length n)
            (sym (again ∙ ap (expire l later) (stamps.2) ∙ kept ∙ sym (stamps.2))) full))
