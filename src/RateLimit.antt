-- ===== src/RateLimit.antt =====
-- pkg/llm/rate_limited.go: the sliding window of request times in front of a provider. The clock
-- is an argument, in nanoseconds; each round of the wait holds the mutex and is one step.
mod Paced
mod Wait
mod Tests
use mathlib.Core.Option
use uiauto_framework.Prelude.{
  ℕ, zero, suc, ◌+◌, ◌-◌, ◌*◌, Bool, true, false, List, [], ◌∷◌, ◌++◌, Option, none, some, ℤ,
  pos_part, neg_part, leb, ltb, if◌then◌else◌, length, keep_if, count_if,
}

-- `tokens` are the times of the requests that were let through. `max_allowed` is
-- `RequestsPerMinute + BurstSize`, and `locked` is a mutex that nobody unlocks any more. A negative
-- window, which never holds a token, is left out.
pub record RateLimitedProvider : Type 0 where
  pub max_allowed : ℕ
  pub window : ℕ
  pub tokens : List ℕ
  pub locked : Bool

-- `make` panics on a negative capacity.
sum_ℤ : ℤ → ℤ → Option ℕ
sum_ℤ a b =
    let plus = pos_part a + pos_part b in
    let minus = neg_part a + neg_part b in if leb minus plus then some (plus - minus) else none

-- `if cfg.Window == 0 { cfg.Window = time.Minute }`
window_or_minute : ℕ → ℕ
window_or_minute zero = 60_000_000_000
window_or_minute (suc w) = suc w

abbrev pub empty : ℕ → ℕ → RateLimitedProvider
empty w max = record { max_allowed = max; window = w; tokens = []; locked = false }

pub new_rate_limited_provider : ℤ → ℤ → ℕ → Option RateLimitedProvider
unfolding sum_ℤ window_or_minute
new_rate_limited_provider requests_per_minute burst_size w =
    Option.map (empty (window_or_minute w)) (sum_ℤ requests_per_minute burst_size)

-- `t.After(now.Add(-window))`
abbrev pub active : ℕ → ℕ → ℕ → Bool
active window now t = ltb now (t + window)

-- The outcome of a round of `waitForSlot`: the request goes through, or it waits, or an empty
-- window is asked for its first time, or the mutex is locked for good.
pub data Round : Type 0 where
  granted : Round
  wait_for : ℕ → Round
  index_panic : Round
  blocked : Round

-- `tokens[0].Add(window).Sub(now)`, which is positive since the token is active.
pub wait_after : ℕ → ℕ → List ℕ → Round
wait_after window now [] = index_panic
wait_after window now (t ∷ ts) = wait_for (t + window - now)

-- `tokens[0]` of an empty window panics before the mutex is unlocked, and no `defer` unlocks it.
pub left_locked : List ℕ → Bool
left_locked [] = true
left_locked (t ∷ ts) = false

-- On a mutex that is locked for good a caller waits for ever.
pub round : RateLimitedProvider → ℕ → RateLimitedProvider × Round
unfolding wait_after left_locked
round r now =
    let valid = keep_if (active r.window now) r.tokens in
    if r.locked
    then (r, blocked)
    else if leb r.max_allowed (length valid)
    then (record r { tokens = valid; locked = left_locked valid }, wait_after r.window now valid)
    else (record r { tokens = valid ++ now ∷ [] }, granted)

-- `Stats`, which has no answer on a mutex that is locked for good.
stats : RateLimitedProvider → ℕ → Option (ℕ × ℕ)
stats r now =
    if r.locked then none else some (count_if (active r.window now) r.tokens, r.max_allowed)

-- The rounds of any callers at the given times.
pub run : RateLimitedProvider → List ℕ → RateLimitedProvider
run r [] = r
run r (now ∷ nows) = run (round r now).0 nows

-- The times at which a request went through, in order.
pub grants : RateLimitedProvider → List ℕ → List ℕ
grants r [] = []
grants r (now ∷ nows) =
    let rest = grants (round r now).0 nows in
    elim (round r now).1 [
      | granted ↦ now ∷ rest
      | wait_for d ↦ rest
      | index_panic ↦ rest
      | blocked ↦ rest
    ]
