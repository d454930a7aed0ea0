-- ===== src/Breaker/Runs.antt =====
-- Histories of calls of pkg/uiauto/circuit_breaker.go, from a new breaker or from a given one.
use uiauto_framework.Prelude.{
  ℕ, ◌+◌, ◌≡◌, refl, ap, ◌∙◌, Bool, true, List, [], ◌∷◌, ◌++◌, map, String, arith, length, leb,
  if◌then◌else◌,
}
use uiauto_framework.Breaker.{
  Call, allows, succeeds, fails, step, run, closed, open_circuit, half_open, RawConfig,
  CircuitBreaker, new_circuit_breaker, effective_failure_threshold, allow, record_success,
  record_failure,
}
use uiauto_framework.Breaker.Machine.{Inv, new-Inv, step-Inv}

run-Inv : (cb : CircuitBreaker) (cs : List Call) → Inv cb → Inv (run cb cs)
unfolding run
run-Inv cb [] v = v
run-Inv cb (c ∷ cs) v = run-Inv (step cb c) cs (step-Inv cb c v)

-- Whatever the configuration and whatever the calls after `NewCircuitBreaker`: the thresholds are
-- positive, the streaks and the trips stay within the totals, at most one streak is running, a closed
-- circuit has no more failures in a row than its threshold, a half-open one fewer successes than
-- close it, and a circuit that is not closed has tripped.
pub run-new-Inv :
    (name : String) (c : RawConfig) (start : ℕ) (cs : List Call)
    → Inv (run (new_circuit_breaker name c start) cs)
run-new-Inv name c start cs = run-Inv _ cs (new-Inv name c start)

-- Failures one after the other, at the given times.
pub fail_all : CircuitBreaker → List ℕ → CircuitBreaker
fail_all cb ts = run cb (map fails ts)

record_failure_closed :
    (cb : CircuitBreaker) (now : ℕ)
    → cb.state ≡ closed
    → cb.recent_outcomes ≡ []
    → let cb' = record_failure cb now in
      (cb'.config ≡ cb.config)
      × (cb'.recent_outcomes ≡ [])
      × (cb'.consecutive_failures ≡ cb.consecutive_failures + 1)
      × (cb'.total_trips ≡ (
          if leb cb.config.failure_threshold (cb.consecutive_failures + 1)
          then cb.total_trips + 1
          else cb.total_trips))
      × (cb'.state ≡ (
          if leb cb.config.failure_threshold (cb.consecutive_failures + 1)
          then open_circuit
          else closed))
unfolding record_failure effective_failure_threshold
record_failure_closed cb now h e = ground (arith, ap length e)

-- A closed breaker without a window stays closed while the failures in a row stay under the
-- threshold, and trips once, and opens, at the failure that reaches it.
pub fail_all-trips :
    (cb : CircuitBreaker) (ts : List ℕ) (t : ℕ)
    → cb.state ≡ closed
    → cb.recent_outcomes ≡ []
    → cb.consecutive_failures + length ts + 1 ≡ cb.config.failure_threshold
    → ((fail_all cb ts).state ≡ closed)
      × ((fail_all cb (ts ++ t ∷ [])).state ≡ open_circuit)
      × ((fail_all cb (ts ++ t ∷ [])).total_trips ≡ cb.total_trips + 1)
unfolding fail_all run step
fail_all-trips cb [] t h e n = ground (arith, record_failure_closed cb t h e)
fail_all-trips cb (s ∷ ts) t h e n =
    ground (arith, record_failure_closed cb s h e, fail_all-trips (record_failure cb s) ts t)

record_success_half_open :
    (cb : CircuitBreaker) (now : ℕ)
    → cb.state ≡ half_open
    → let cb' = record_success cb now in
      (cb'.config ≡ cb.config)
      × (cb'.consecutive_successes ≡ cb.consecutive_successes + 1)
      × (cb'.consecutive_failures ≡ 0)
      × (cb'.total_trips ≡ cb.total_trips)
      × (cb'.state ≡ (
          if leb cb.config.success_threshold (cb.consecutive_successes + 1)
          then closed
          else half_open))
unfolding record_success
record_success_half_open cb now h = ground arith

record_failure_half_open :
    (cb : CircuitBreaker) (now : ℕ)
    → cb.state ≡ half_open
    → ((record_failure cb now).state ≡ open_circuit)
      × ((record_failure cb now).total_trips ≡ cb.total_trips + 1)
unfolding record_failure
record_failure_half_open cb now h = ground arith

allow_half_open : (cb : CircuitBreaker) (now : ℕ) → cb.state ≡ half_open → allow cb now ≡ (cb, true)
unfolding allow
allow_half_open cb now h = ground arith

pub succeed_all : CircuitBreaker → List ℕ → CircuitBreaker
succeed_all cb ts = run cb (map succeeds ts)

-- A half-open breaker stays half-open while the successes in a row stay under the success
-- threshold, and closes, with no failures in a row, at the success that reaches it; a failure
-- in between opens it again and counts one more trip.
pub succeed_all-recovers :
    (cb : CircuitBreaker) (ts : List ℕ) (t : ℕ)
    → cb.state ≡ half_open
    → cb.consecutive_successes + length ts + 1 ≡ cb.config.success_threshold
    → ((succeed_all cb ts).state ≡ half_open)
      × ((succeed_all cb (ts ++ t ∷ [])).state ≡ closed)
      × ((succeed_all cb (ts ++ t ∷ [])).consecutive_failures ≡ 0)
      × ((record_failure (succeed_all cb ts) t).state ≡ open_circuit)
      × ((record_failure (succeed_all cb ts) t).total_trips ≡ cb.total_trips + 1)
unfolding succeed_all run step
succeed_all-recovers cb [] t h n =
    ground (arith, record_success_half_open cb t h, record_failure_half_open cb t h)
succeed_all-recovers cb (s ∷ ts) t h n =
    ground (arith, record_success_half_open cb s h, succeed_all-recovers (record_success cb s) ts t)

allows_half_open :
    (cb : CircuitBreaker) (ts : List ℕ) → cb.state ≡ half_open → run cb (map allows ts) ≡ cb
unfolding run step
allows_half_open cb [] h = refl
allows_half_open cb (s ∷ ts) h =
    ap (λ (r : CircuitBreaker × Bool). run r.0 (map allows ts)) (allow_half_open cb s h)
    ∙ allows_half_open cb ts h

-- A half-open breaker, whatever its `HalfOpenMax`, lets every one of any number of requests
-- through and is not changed by them.
pub half_open_unlimited :
    (cb : CircuitBreaker) (ts : List ℕ) (t : ℕ)
    → cb.state ≡ half_open
    → (run cb (map allows ts) ≡ cb) × ((allow (run cb (map allows ts)) t).1 ≡ true)
half_open_unlimited cb ts t h = (
  allows_half_open cb ts h,
  ap (λ (c : CircuitBreaker). (allow c t).1) (allows_half_open cb ts h)
      ∙ ap (λ (r : CircuitBreaker × Bool). r.1) (allow_half_open cb t h),
)
