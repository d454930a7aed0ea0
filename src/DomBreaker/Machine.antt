-- ===== src/DomBreaker/Machine.antt =====
-- Histories of the breaker of pkg/domheal/circuit_breaker.go.
use uiauto_framework.Prelude.{
  ℕ, ◌+◌, ◌≤◌, ◌<◌, ◌≡◌, refl, ap, ◌∙◌, ◌≢◌, ◌⊎◌, Bool, true, false, List, [], ◌∷◌, ℤ, pos,
  pos_part, neg_part, leb_ℤ, map, arith,
}
use uiauto_framework.DomBreaker.{
  closed, open_state, half_open, CircuitBreaker, new_circuit_breaker, allow, record_success,
  record_failure, Call, allows, succeeds, fails, step, run,
}

-- The failures after the last success of a history that starts at `n` of them.
pub streak : ℕ → List Call → ℕ
streak n [] = n
streak n (allows now ∷ cs) = streak n cs
streak n (succeeds ∷ cs) = streak 0 cs
streak n (fails now ∷ cs) = streak (n + 1) cs

-- The state agrees with the count of failures: it is closed exactly below the threshold.
abbrev pub Agrees : CircuitBreaker → Type 0
Agrees cb =
    (cb.state ≡ closed → (cb.failures ≡ 0) ⊎ (leb_ℤ cb.threshold (pos cb.failures) ≡ false))
    × (cb.state ≢ closed → (leb_ℤ cb.threshold (pos cb.failures) ≡ true) × (0 < cb.failures))

step-Agrees : (cb : CircuitBreaker) (c : Call) → Agrees cb → Agrees (step cb c)
unfolding step allow record_success record_failure
step-Agrees cb (allows now) v = ground arith
step-Agrees cb succeeds v = ground arith
step-Agrees cb (fails now) v = ground arith

step-streak :
    (cb : CircuitBreaker) (c : Call) (cs : List Call)
    → streak (step cb c).failures cs ≡ streak cb.failures (c ∷ cs)
unfolding step allow record_success record_failure streak
step-streak cb (allows now) cs = ground arith
step-streak cb succeeds cs = refl
step-streak cb (fails now) cs = refl

step_keeps :
    (cb : CircuitBreaker) (c : Call)
    → ((step cb c).threshold ≡ cb.threshold) × ((step cb c).cooldown ≡ cb.cooldown)
unfolding step allow record_success record_failure
step_keeps cb (allows now) = ground arith
step_keeps cb succeeds = (refl, refl)
step_keeps cb (fails now) = (refl, refl)

run-Agrees :
    (cb : CircuitBreaker) (cs : List Call)
    → Agrees cb
    → Agrees (run cb cs)
      × ((run cb cs).failures ≡ streak cb.failures cs)
      × ((run cb cs).threshold ≡ cb.threshold)
unfolding run streak
run-Agrees cb [] v = (v, refl, refl)
run-Agrees cb (c ∷ cs) v =
    let later = run-Agrees (step cb c) cs (step-Agrees cb c v) in
    (later.0, later.1 ∙ step-streak cb c cs, later.2 ∙ (step_keeps cb c).0)

-- After any history of a new breaker the circuit is closed exactly when the failures since the
-- last success are none or below the threshold; otherwise it is open or half-open, with the
-- threshold reached. A threshold of 0 or less acts as 1.
pub run-new-Agrees :
    (threshold cooldown : ℤ) (cs : List Call)
    → let cb = run (new_circuit_breaker threshold cooldown) cs in
      let n = streak 0 cs in
      (cb.failures ≡ n)
      × (cb.state ≡ closed → (n ≡ 0) ⊎ (leb_ℤ threshold (pos n) ≡ false))
      × (cb.state ≢ closed → (leb_ℤ threshold (pos n) ≡ true) × (0 < n))
unfolding new_circuit_breaker
run-new-Agrees threshold cooldown cs =
    let r =
      run-Agrees (new_circuit_breaker threshold cooldown) cs (ground arith, λ h. absurd (h refl)) in
    ground (arith, r.0, r.1, r.2)

-- An open breaker refuses until its cooldown has passed since the last failure, without a change;
-- then it lets the call through half-open. The next failure opens it at once, from the time of
-- that failure, and a success closes it.
pub open_cycle :
    (cb : CircuitBreaker) (now later : ℕ)
    → Agrees cb
    → cb.state ≡ open_state
    → (now + neg_part cb.cooldown < cb.last_failure_at + pos_part cb.cooldown
        → allow cb now ≡ (cb, false))
      × (cb.last_failure_at + pos_part cb.cooldown ≤ now + neg_part cb.cooldown
          → let probed = allow cb now in
            (probed.1 ≡ true)
            × (probed.0.state ≡ half_open)
            × ((record_failure probed.0 later).state ≡ open_state)
            × ((record_failure probed.0 later).last_failure_at ≡ later)
            × ((record_success probed.0).state ≡ closed))
unfolding allow record_failure record_success
open_cycle cb now later v h = ground (arith, v.1)

allow_half_open : (cb : CircuitBreaker) (t : ℕ) → cb.state ≡ half_open → allow cb t ≡ (cb, true)
unfolding allow
allow_half_open cb t h = ground arith

allows_half_open :
    (cb : CircuitBreaker) (ts : List ℕ) → cb.state ≡ half_open → run cb (map allows ts) ≡ cb
unfolding run step
allows_half_open cb [] h = refl
allows_half_open cb (s ∷ ts) h =
    ap (λ (r : CircuitBreaker × Bool). run r.0 (map allows ts)) (allow_half_open cb s h)
    ∙ allows_half_open cb ts h

-- A half-open breaker lets any number of calls through before the outcome of one is recorded.
pub dom_half_open_unlimited :
    (cb : CircuitBreaker) (ts : List ℕ) (t : ℕ)
    → cb.state ≡ half_open
    → allow (run cb (map allows ts)) t ≡ (cb, true)
dom_half_open_unlimited cb ts t h =
    ap (λ (c : CircuitBreaker). allow c t) (allows_half_open cb ts h) ∙ allow_half_open cb t h
