-- ===== src/Breaker.antt =====
-- pkg/uiauto/circuit_breaker.go: the circuit breaker in front of the smart and the vision model.
-- A method takes the time of the call, in nanoseconds, and returns the new breaker. The mutex makes
-- each method one step. The Prometheus gauges and counters are not modelled.
mod Window
mod Machine
mod Runs
mod Ring
mod Tests
use uiauto_framework.Prelude.{
  ℕ, zero, suc, ◌+◌, ◌-◌, ◌*◌, ◌%◌, Bool, true, false, not, ◌&&◌, List, [], ◌∷◌, String, ℤ,
  pos_part, positive_or, ltb, leb, ◌==◌, if◌then◌else◌, length, set, take, replicate, count_if,
}

pub data CircuitState : Type 0 where
  closed open_circuit half_open : CircuitState

state_string : CircuitState → String
state_string closed = "closed"
state_string open_circuit = "open"
state_string half_open = "half_open"

-- `CircuitBreakerConfig` as the caller gives it: any `int` may be 0 or negative.
pub record RawConfig : Type 0 where
  pub failure_threshold : ℤ
  pub success_threshold : ℤ
  pub open_duration : ℤ
  pub half_open_max : ℤ
  pub window_size : ℤ

-- The settings after the defaults of `NewCircuitBreaker`.
pub record Config : Type 0 where
  pub failure_threshold : ℕ
  pub success_threshold : ℕ
  pub open_duration : ℕ
  pub half_open_max : ℕ

-- 30 * time.Second
abbrev default_open_duration : ℕ
default_open_duration = 30_000_000_000

normalize : RawConfig → Config
normalize c = record {
  failure_threshold = positive_or 3 c.failure_threshold;
  success_threshold = positive_or 2 c.success_threshold;
  open_duration = positive_or default_open_duration c.open_duration;
  half_open_max = positive_or 1 c.half_open_max;
}

pub record CircuitBreaker : Type 0 where
  pub name : String
  pub config : Config
  pub state : CircuitState
  pub consecutive_failures : ℕ
  pub consecutive_successes : ℕ
  pub last_failure : ℕ
  pub total_trips : ℕ
  pub total_successes : ℕ
  pub total_failures : ℕ
  pub recent_outcomes : List Bool
  pub outcome_idx : ℕ
  pub outcomes_pushed : ℕ
  pub last_state_change : ℕ

-- `make([]bool, cfg.WindowSize)` under `if cfg.WindowSize > 0`.
pub new_circuit_breaker : String → RawConfig → ℕ → CircuitBreaker
unfolding normalize
new_circuit_breaker name c now = record {
  name = name;
  config = normalize c;
  state = closed;
  consecutive_failures = 0;
  consecutive_successes = 0;
  last_failure = 0;
  total_trips = 0;
  total_successes = 0;
  total_failures = 0;
  recent_outcomes = replicate (pos_part c.window_size) false;
  outcome_idx = 0;
  outcomes_pushed = 0;
  last_state_change = now;
}

record_transition : CircuitBreaker → CircuitState → ℕ → CircuitBreaker
record_transition cb to now = record cb { state = to; last_state_change = now }

-- A rate is kept as a fraction, since each float comparison below has the value of the
-- comparison of products.
pub record Rate : Type 0 where
  pub num : ℕ
  pub den : ℕ

-- `n = min(outcomesPushed, len)`, and the loop over `recentOutcomes[:n]`.
window_size_used : List Bool → ℕ → ℕ
window_size_used window pushed = if ltb (length window) pushed then length window else pushed

pub window_failures : List Bool → ℕ → ℕ
unfolding window_size_used
window_failures window pushed = count_if not (take (window_size_used window pushed) window)

window_failure_rate : CircuitBreaker → Rate
unfolding window_failures window_size_used
window_failure_rate cb =
    if length cb.recent_outcomes == 0
    then record { num = 0; den = 1 }
    else if cb.outcomes_pushed == 0
    then record { num = 0; den = 1 }
    else record {
      num = window_failures cb.recent_outcomes cb.outcomes_pushed;
      den = window_size_used cb.recent_outcomes cb.outcomes_pushed;
    }

-- rate > 0.5 lowers the base by one but not below 1, and rate < 0.1 raises a base under 5.
adjust_threshold : ℕ → Rate → ℕ
adjust_threshold base rate =
    if ltb rate.den (2 * rate.num)
    then (if ltb 1 base then base - 1 else 1)
    else if ltb (10 * rate.num) rate.den && ltb base 5
    then base + 1
    else base

effective_failure_threshold : CircuitBreaker → ℕ
unfolding window_failure_rate adjust_threshold
effective_failure_threshold cb =
    if length cb.recent_outcomes == 0
    then cb.config.failure_threshold
    else adjust_threshold cb.config.failure_threshold (window_failure_rate cb)

push_outcome : CircuitBreaker → Bool → CircuitBreaker
push_outcome cb success =
    let n = length cb.recent_outcomes in
    if n == 0 then cb else record cb {
      recent_outcomes = set cb.recent_outcomes cb.outcome_idx success;
      outcome_idx = (cb.outcome_idx + 1) % n;
      outcomes_pushed =
          if ltb cb.outcomes_pushed n then cb.outcomes_pushed + 1 else cb.outcomes_pushed;
    }

-- `time.Since(t) >= d`
cooled_down : CircuitBreaker → ℕ → Bool
cooled_down cb now = leb (cb.last_failure + cb.config.open_duration) now

allow_in : CircuitState → CircuitBreaker → ℕ → CircuitBreaker × Bool
unfolding cooled_down record_transition
allow_in closed cb now = (cb, true)
allow_in open_circuit cb now =
    if cooled_down cb now
    then (record_transition (record cb { consecutive_successes = 0 }) half_open now, true)
    else (cb, false)
allow_in half_open cb now = (cb, true)

pub allow : CircuitBreaker → ℕ → CircuitBreaker × Bool
unfolding allow_in
allow cb now = allow_in cb.state cb now

-- The tail of `RecordSuccess`, after the counters.
settle_success : CircuitState → CircuitBreaker → ℕ → CircuitBreaker
unfolding record_transition
settle_success half_open cb now =
    if leb cb.config.success_threshold cb.consecutive_successes
    then record_transition cb closed now
    else cb
settle_success closed cb now = cb
settle_success open_circuit cb now = cb

count_success : CircuitBreaker → CircuitBreaker
count_success cb = record cb {
  total_successes = cb.total_successes + 1;
  consecutive_failures = 0;
  consecutive_successes = cb.consecutive_successes + 1;
}

pub record_success : CircuitBreaker → ℕ → CircuitBreaker
unfolding settle_success count_success push_outcome
record_success cb now = settle_success cb.state (push_outcome (count_success cb) true) now

-- The tail of `RecordFailure`, under the threshold read before the failure is pushed.
settle_failure : CircuitState → ℕ → CircuitBreaker → ℕ → CircuitBreaker
unfolding record_transition
settle_failure closed eff cb now =
    if leb eff cb.consecutive_failures
    then record_transition (record cb { total_trips = cb.total_trips + 1 }) open_circuit now
    else cb
settle_failure half_open eff cb now =
    record_transition (record cb { total_trips = cb.total_trips + 1 }) open_circuit now
settle_failure open_circuit eff cb now = cb

count_failure : CircuitBreaker → ℕ → CircuitBreaker
count_failure cb now = record cb {
  total_failures = cb.total_failures + 1;
  consecutive_failures = cb.consecutive_failures + 1;
  consecutive_successes = 0;
  last_failure = now;
}

pub record_failure : CircuitBreaker → ℕ → CircuitBreaker
unfolding settle_failure count_failure push_outcome
record_failure cb now =
    settle_failure cb.state (effective_failure_threshold cb)
      (push_outcome (count_failure cb now) false) now

observed_state : CircuitState → CircuitBreaker → ℕ → CircuitState
unfolding cooled_down
observed_state open_circuit cb now = if cooled_down cb now then half_open else open_circuit
observed_state closed cb now = closed
observed_state half_open cb now = half_open

-- The method `State`.
pub state_at : CircuitBreaker → ℕ → CircuitState
unfolding observed_state
state_at cb now = observed_state cb.state cb now

clear_counts : CircuitBreaker → CircuitBreaker
clear_counts cb = record cb { consecutive_failures = 0; consecutive_successes = 0 }

reset_from : CircuitState → CircuitBreaker → ℕ → CircuitBreaker
unfolding clear_counts record_transition
reset_from closed cb now = clear_counts cb
reset_from open_circuit cb now = clear_counts (record_transition cb closed now)
reset_from half_open cb now = clear_counts (record_transition cb closed now)

pub reset : CircuitBreaker → ℕ → CircuitBreaker
unfolding reset_from
reset cb now = reset_from cb.state cb now

pub record Stats : Type 0 where
  pub state : CircuitState
  pub state_str : String
  pub failure_count : ℕ
  pub success_count : ℕ
  pub total_requests : ℕ
  pub failure_rate : Rate
  pub consecutive_failures : ℕ
  pub consecutive_successes : ℕ
  pub total_trips : ℕ
  pub last_state_change : ℕ
  pub last_failure : ℕ

stats : CircuitBreaker → Stats
unfolding state_string
stats cb =
    let total = cb.total_successes + cb.total_failures in
    record {
      state = cb.state;
      state_str = state_string cb.state;
      failure_count = cb.total_failures;
      success_count = cb.total_successes;
      total_requests = total;
      failure_rate =
          if ltb 0 total
          then record { num = cb.total_failures; den = total }
          else record { num = 0; den = 1 };
      consecutive_failures = cb.consecutive_failures;
      consecutive_successes = cb.consecutive_successes;
      total_trips = cb.total_trips;
      last_state_change = cb.last_state_change;
      last_failure = cb.last_failure;
    }

-- The calls that change a breaker, each with its time.
pub data Call : Type 0 where
  allows succeeds fails resets : ℕ → Call

pub step : CircuitBreaker → Call → CircuitBreaker
step cb (allows now) = (allow cb now).0
step cb (succeeds now) = record_success cb now
step cb (fails now) = record_failure cb now
step cb (resets now) = reset cb now

pub run : CircuitBreaker → List Call → CircuitBreaker
run cb [] = cb
run cb (c ∷ cs) = run (step cb c) cs
