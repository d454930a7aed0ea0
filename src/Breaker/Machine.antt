-- ===== src/Breaker/Machine.antt =====
-- One call of pkg/uiauto/circuit_breaker.go: its invariant, its transitions and what it refuses.
use uiauto_framework.Prelude.{
  ℕ, ◌+◌, ◌≤◌, ◌<◌, ◌≡◌, ◌≢◌, ◌⊎◌, Bool, true, false, String, arith, positive_or_pos,
}
use uiauto_framework.Breaker.{
  Call, allows, succeeds, fails, resets, step, CircuitState, closed, open_circuit, half_open,
  RawConfig, CircuitBreaker, Rate, new_circuit_breaker, normalize, adjust_threshold,
  effective_failure_threshold, allow, record_success, record_failure, state_at, reset,
}

pub record Inv (cb : CircuitBreaker) : Type 0 where
  pub threshold_pos : 0 < cb.config.failure_threshold
  pub success_pos : 0 < cb.config.success_threshold
  pub failures_counted : cb.consecutive_failures ≤ cb.total_failures
  pub successes_counted : cb.consecutive_successes ≤ cb.total_successes
  pub trips_counted : cb.total_trips ≤ cb.total_failures
  pub one_streak : (cb.consecutive_failures ≡ 0) ⊎ (cb.consecutive_successes ≡ 0)
  pub closed_below : cb.state ≡ closed → cb.consecutive_failures ≤ cb.config.failure_threshold
  pub half_open_below :
      cb.state ≡ half_open → cb.consecutive_successes < cb.config.success_threshold
  pub tripped : cb.state ≢ closed → 0 < cb.total_trips

abbrev is_passing : CircuitState → Bool
is_passing closed = true
is_passing half_open = true
is_passing open_circuit = false

adjust_threshold-le : (base : ℕ) (r : Rate) → 0 < base → adjust_threshold base r ≤ base + 1
unfolding adjust_threshold
adjust_threshold-le base r h = ground arith

effective-le :
    (cb : CircuitBreaker)
    → 0 < cb.config.failure_threshold
    → effective_failure_threshold cb ≤ cb.config.failure_threshold + 1
unfolding effective_failure_threshold
effective-le cb h = ground arith

pub new-Inv : (name : String) (c : RawConfig) (now : ℕ) → Inv (new_circuit_breaker name c now)
unfolding new_circuit_breaker normalize
new-Inv name c now =
    ground (arith, positive_or_pos 3 c.failure_threshold, positive_or_pos 2 c.success_threshold)

allow-Inv : (cb : CircuitBreaker) (now : ℕ) → Inv cb → Inv (allow cb now).0
unfolding allow
allow-Inv cb now v = ground arith

record_success-Inv : (cb : CircuitBreaker) (now : ℕ) → Inv cb → Inv (record_success cb now)
unfolding record_success
record_success-Inv cb now v = ground arith

record_failure-Inv : (cb : CircuitBreaker) (now : ℕ) → Inv cb → Inv (record_failure cb now)
unfolding record_failure
record_failure-Inv cb now v = ground (arith, effective-le cb v.threshold_pos)

reset-Inv : (cb : CircuitBreaker) (now : ℕ) → Inv cb → Inv (reset cb now)
unfolding reset
reset-Inv cb now v = ground arith

-- Every call keeps the invariant.
pub step-Inv : (cb : CircuitBreaker) (c : Call) → Inv cb → Inv (step cb c)
unfolding step
step-Inv cb (allows now) v = allow-Inv cb now v
step-Inv cb (succeeds now) v = record_success-Inv cb now v
step-Inv cb (fails now) v = record_failure-Inv cb now v
step-Inv cb (resets now) v = reset-Inv cb now v

-- The edges of the state diagram.
pub data Edge : CircuitState → Call → CircuitState → Type 0 where
  stay : {s : CircuitState} {c : Call} → Edge s c s
  trip : (now : ℕ) → Edge closed (fails now) open_circuit
  probe : (now : ℕ) → Edge open_circuit (allows now) half_open
  recover : (now : ℕ) → Edge half_open (succeeds now) closed
  relapse : (now : ℕ) → Edge half_open (fails now) open_circuit
  forced : {s : CircuitState} (now : ℕ) → Edge s (resets now) closed

ruleset edges = (stay, trip, probe, recover, relapse, forced)

pub step-Edge : (cb : CircuitBreaker) (c : Call) → Edge cb.state c (step cb c).state
unfolding step allow record_success record_failure reset
step-Edge cb (allows now) = grind (arith, edges)
step-Edge cb (succeeds now) = grind (arith, edges)
step-Edge cb (fails now) = grind (arith, edges)
step-Edge cb (resets now) = grind (arith, edges)

-- A call is admitted exactly when `State` does not report an open circuit, and what `allow`
-- leaves behind is the state that `State` reports.
pub allow-state_at :
    (cb : CircuitBreaker) (now : ℕ)
    → ((allow cb now).1 ≡ is_passing (state_at cb now)) × ((allow cb now).0.state ≡ state_at cb now)
unfolding allow state_at
allow-state_at cb now = ground arith

-- While an open circuit cools down every request is refused and nothing changes; from the end of
-- the cooldown on a request is let through as a probe.
pub allow_open :
    (cb : CircuitBreaker) (now : ℕ)
    → cb.state ≡ open_circuit
    → (now < cb.last_failure + cb.config.open_duration → allow cb now ≡ (cb, false))
      × (cb.last_failure + cb.config.open_duration ≤ now
          → ((allow cb now).1 ≡ true)
            × ((allow cb now).0.state ≡ half_open)
            × ((allow cb now).0.consecutive_successes ≡ 0))
unfolding allow
allow_open cb now h = ground arith
