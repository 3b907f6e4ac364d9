-- ===== src/RateLimit.antt =====
-- src/pl_platform/api/controls.py, SlidingWindowRateLimiter. A time is a number of clock ticks and
-- `unit` ticks make a second, in place of the float that `monotonic` returns. A client key is only
-- compared, so it is a number. The lock makes each call of `evaluate` one step.
pub mod Window
pub mod Bounds
pub mod Retry
pub mod History
pub mod Capacity
pub mod Refinement
mod Tests
use ai_powered_premier_leagu.Prelude.{
  ℕ, suc, ◌+◌, ◌-◌, ◌*◌, ◌/◌, ◌==◌, ltb, leb, max, Bool, true, false, Option, none, some, List, [],
  ◌∷◌, ◌++◌, length, if◌then◌else◌,
}

pub record RateLimitDecision : Type 0 where
  pub allowed : Bool
  pub limit : ℕ
  pub remaining : ℕ
  pub reset_after_seconds : ℕ
  pub retry_after_seconds : Option ℕ

-- The arguments of the constructor. Settings keeps the limit and the number of clients positive; for
-- a zero the source raises IndexError in a refusal or KeyError in `popitem`, and the functions
-- below do not say so.
pub record Limits : Type 0 where
  pub limit : ℕ
  pub window_seconds : ℕ
  pub max_clients : ℕ
  pub unit : ℕ

pub record Client : Type 0 where
  pub key : ℕ
  pub stamps : List ℕ

-- The OrderedDict, which has one entry for each key: `get`, `move_to_end` without the entry's new
-- place, and `popitem(last=False)`.
abbrev pub stamps_of : ℕ → List Client → Option (List ℕ)
stamps_of key [] = none
stamps_of key (c ∷ cs) = if key == c.key then some c.stamps else stamps_of key cs

abbrev pub without : ℕ → List Client → List Client
without key [] = []
without key (c ∷ cs) = let rest = without key cs in if key == c.key then rest else c ∷ rest

abbrev pub pop_oldest : List Client → List Client
pop_oldest [] = []
pop_oldest (c ∷ cs) = cs

abbrev pub window : Limits → ℕ
window l = l.window_seconds * l.unit

-- `while timestamps and timestamps[0] <= now - window: timestamps.popleft()`
unfoldable pub expire : Limits → ℕ → List ℕ → List ℕ
expire l now [] = []
expire l now (t ∷ ts) =
    let rest = expire l now ts in if leb (t + window l) now then rest else t ∷ ts

-- `max(1, ceil(window_seconds - (now - first)))`, for a first stamp that has not expired.
unfoldable pub seconds_left : Limits → ℕ → ℕ → ℕ
seconds_left l now first = max 1 ((first + window l - now + (l.unit - 1)) / l.unit)

abbrev pub oldest : ℕ → List ℕ → ℕ
oldest now [] = now
oldest now (t ∷ ts) = t

-- The dictionary without the client, as the entry of the client is set up at its end.
abbrev pub room_for : Limits → ℕ → List Client → Option (List ℕ) → List Client
room_for l key clients none =
    if leb l.max_clients (length clients) then pop_oldest clients else clients
room_for l key clients (some stamps) = without key clients

unfoldable pub make_room : Limits → ℕ → List Client → List Client
make_room l key clients = room_for l key clients (stamps_of key clients)

abbrev pub or_empty : Option (List ℕ) → List ℕ
or_empty none = []
or_empty (some stamps) = stamps

abbrev pub known_stamps : ℕ → List Client → List ℕ
known_stamps key clients = or_empty (stamps_of key clients)

unfoldable pub refuse : Limits → ℕ → List ℕ → RateLimitDecision
unfolding seconds_left
refuse l now stamps =
    let retry = seconds_left l now (oldest now stamps) in
    record {
      allowed = false;
      limit = l.limit;
      remaining = 0;
      reset_after_seconds = retry;
      retry_after_seconds = some retry;
    }

unfoldable pub allow : Limits → ℕ → List ℕ → RateLimitDecision
unfolding seconds_left
allow l now stamps = record {
  allowed = true;
  limit = l.limit;
  remaining = l.limit - length stamps;
  reset_after_seconds = seconds_left l now (oldest now stamps);
  retry_after_seconds = none;
}

-- `evaluate`
unfoldable pub evaluate : Limits → ℕ → ℕ → List Client → RateLimitDecision × List Client
evaluate l now key clients =
    let stamps = expire l now (known_stamps key clients) in
    let others = make_room l key clients in
    if leb l.limit (length stamps)
    then (refuse l now stamps, others ++ record { key = key; stamps = stamps } ∷ [])
    else (
      allow l now (stamps ++ now ∷ []),
      others ++ record { key = key; stamps = stamps ++ now ∷ [] } ∷ [],
    )

-- A call of `evaluate`, and the calls of a run in their order.
pub record Request : Type 0 where
  pub at : ℕ
  pub client : ℕ

unfoldable pub serve : Limits → List Request → List Client → List RateLimitDecision × List Client
serve l [] clients = ([], clients)
serve l (r ∷ rs) clients =
    let step = evaluate l r.at r.client clients in
    let rest = serve l rs (step.1) in ((step.0) ∷ rest.0, rest.1)
