-- ===== src/DomBreaker.antt =====
-- pkg/domheal/circuit_breaker.go: the breaker that the model router puts in front of the light
-- executor. The clock is an argument, in nanoseconds; the mutex makes each method one step.
mod Machine
mod Tests
use uiauto_framework.Prelude.{
  ℕ, zero, suc, ◌+◌, ◌*◌, Bool, true, false, List, [], ◌∷◌, ℤ, pos, negsuc, pos_part, neg_part, leb,
  leb_ℤ, if◌then◌else◌,
}

-- The strings "closed", "open" and "half-open".
pub data BreakerState : Type 0 where
  closed open_state half_open : BreakerState

pub record CircuitBreaker : Type 0 where
  pub failures : ℕ
  pub threshold : ℤ
  pub cooldown : ℤ
  pub state : BreakerState
  pub last_failure_at : ℕ

-- `time.Duration(s) * time.Second`
seconds : ℤ → ℤ
seconds (pos n) = pos (n * 1_000_000_000)
seconds (negsuc n) = negsuc (n * 1_000_000_000 + 999_999_999)

unfoldable pub new_circuit_breaker : ℤ → ℤ → CircuitBreaker
unfolding seconds
new_circuit_breaker threshold cooldown_sec = record {
  failures = 0;
  threshold = threshold;
  cooldown = seconds cooldown_sec;
  state = closed;
  last_failure_at = 0;
}

-- `now.Sub(lastFailureAt) >= cooldown`, with the subtraction moved to the other side.
abbrev cooled_down : CircuitBreaker → ℕ → Bool
cooled_down cb now = leb (cb.last_failure_at + pos_part cb.cooldown) (now + neg_part cb.cooldown)

allow_in : BreakerState → CircuitBreaker → ℕ → CircuitBreaker × Bool
allow_in closed cb now = (cb, true)
allow_in half_open cb now = (cb, true)
allow_in open_state cb now =
    if cooled_down cb now then (record cb { state = half_open }, true) else (cb, false)

unfoldable pub allow : CircuitBreaker → ℕ → CircuitBreaker × Bool
unfolding allow_in
allow cb now = allow_in cb.state cb now

unfoldable pub record_success : CircuitBreaker → CircuitBreaker
record_success cb = record cb { failures = 0; state = closed }

unfoldable pub record_failure : CircuitBreaker → ℕ → CircuitBreaker
record_failure cb now =
    let failures = cb.failures + 1 in
    record cb {
      failures = failures;
      last_failure_at = now;
      state = if leb_ℤ cb.threshold (pos failures) then open_state else cb.state;
    }

-- The calls that change a breaker.
pub data Call : Type 0 where
  allows : ℕ → Call
  succeeds : Call
  fails : ℕ → Call

step : CircuitBreaker → Call → CircuitBreaker
step cb (allows now) = (allow cb now).0
step cb succeeds = record_success cb
step cb (fails now) = record_failure cb now

pub run : CircuitBreaker → List Call → CircuitBreaker
run cb [] = cb
run cb (c ∷ cs) = run (step cb c) cs
