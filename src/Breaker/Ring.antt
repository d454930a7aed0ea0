-- ===== src/Breaker/Ring.antt =====
-- The ring buffer of pkg/uiauto/circuit_breaker.go over histories of calls.
use mathlib.Core.Path.{subst}
use mathlib.Core.List.{append-nil, append_assoc}
use uiauto_framework.Prelude.{
  ℕ, ◌≤◌, ◌<◌, ◌≡◌, refl, sym, ap, ◌∙◌, inl, inr, Bool, true, false, not, List, [], ◌∷◌, ◌++◌,
  String, pos_part, arith, length, count_if, ltb, ◌==◌, if◌then◌else◌, Bool-cases, length-append,
  length-set, length-replicate,
}
use uiauto_framework.Breaker.{
  Call, allows, succeeds, fails, resets, step, run, RawConfig, CircuitBreaker, new_circuit_breaker,
  window_failures, push_outcome, allow, record_success, record_failure, reset,
}
use uiauto_framework.Breaker.Window.{Holds, slide, write-Holds, fresh-Holds, window_failures_lem}

-- The outcomes that a history reports, in order.
pub outcomes : List Call → List Bool
outcomes [] = []
outcomes (succeeds now ∷ cs) = true ∷ outcomes cs
outcomes (fails now ∷ cs) = false ∷ outcomes cs
outcomes (allows now ∷ cs) = outcomes cs
outcomes (resets now ∷ cs) = outcomes cs

-- The last `n` elements.
pub latest : ℕ → List Bool → List Bool
latest n [] = []
latest n (b ∷ bs) = let rest = latest n bs in if ltb (length bs) n then b ∷ bs else rest

latest_short : (n : ℕ) (bs : List Bool) → length bs ≤ n → latest n bs ≡ bs
unfolding latest
latest_short n [] h = refl
latest_short n (b ∷ bs) h = ground arith

slide-latest :
    (n : ℕ) (bs : List Bool) (b : Bool) → 0 < n → slide n (latest n bs) b ≡ latest n (bs ++ b ∷ [])
unfolding latest
slide-latest n [] b h = ground arith
slide-latest n (x ∷ xs) b h =
    ground (arith, slide-latest n xs b h, length-append xs (b ∷ []), latest_short n (xs ++ b ∷ []))

abbrev ring : CircuitBreaker → List Bool × ℕ × ℕ
ring cb = (cb.recent_outcomes, cb.outcome_idx, cb.outcomes_pushed)

-- A window of `n` places holds `recent`.
abbrev RingHolds : ℕ → List Bool × ℕ × ℕ → List Bool → Type 0
RingHolds n r recent = Holds r.0 r.1 r.2 recent × (length r.0 ≡ n)

pushed : List Bool → Call → List Bool
pushed bs (succeeds now) = bs ++ true ∷ []
pushed bs (fails now) = bs ++ false ∷ []
pushed bs (allows now) = bs
pushed bs (resets now) = bs

push-RingHolds :
    (n : ℕ) (cb : CircuitBreaker) (bs : List Bool) (b : Bool)
    → 0 < n
    → RingHolds n (ring cb) (latest n bs)
    → RingHolds n (ring (push_outcome cb b)) (latest n (bs ++ b ∷ []))
unfolding push_outcome
push-RingHolds n cb bs b h w =
    let shifted = ap (λ (k : ℕ). slide k (latest n bs) b) w.1 ∙ slide-latest n bs b h in
    elim (Bool-cases (length cb.recent_outcomes == 0)) [
      | inl none_kept ↦ absurd (ground (arith, w.1))
      | inr kept ↦
          rw kept (
            subst (Holds _ _ _) shifted (write-Holds b w.0),
            length-set cb.recent_outcomes _ b ∙ w.1,
          )
    ]

ring-allow : (cb : CircuitBreaker) (now : ℕ) → ring (allow cb now).0 ≡ ring cb
unfolding allow
ring-allow cb now = ground arith

ring-reset : (cb : CircuitBreaker) (now : ℕ) → ring (reset cb now) ≡ ring cb
unfolding reset
ring-reset cb now = ground arith

ring-record_success :
    (cb : CircuitBreaker) (now : ℕ) → ring (record_success cb now) ≡ ring (push_outcome cb true)
unfolding record_success
ring-record_success cb now = ground arith

ring-record_failure :
    (cb : CircuitBreaker) (now : ℕ) → ring (record_failure cb now) ≡ ring (push_outcome cb false)
unfolding record_failure
ring-record_failure cb now = ground arith

moved :
    (n : ℕ) (recent : List Bool) {r r' : List Bool × ℕ × ℕ}
    → r' ≡ r
    → RingHolds n r recent
    → RingHolds n r' recent
moved n recent e w = subst (λ q. RingHolds n q recent) (sym e) w

step-RingHolds :
    (n : ℕ) (cb : CircuitBreaker) (bs : List Bool) (c : Call)
    → 0 < n
    → RingHolds n (ring cb) (latest n bs)
    → RingHolds n (ring (step cb c)) (latest n (pushed bs c))
unfolding step pushed
step-RingHolds n cb bs (allows now) h w = moved n _ (ring-allow cb now) w
step-RingHolds n cb bs (succeeds now) h w =
    moved n _ (ring-record_success cb now) (push-RingHolds n cb bs true h w)
step-RingHolds n cb bs (fails now) h w =
    moved n _ (ring-record_failure cb now) (push-RingHolds n cb bs false h w)
step-RingHolds n cb bs (resets now) h w = moved n _ (ring-reset cb now) w

pushed_all : List Bool → List Call → List Bool
pushed_all bs [] = bs
pushed_all bs (c ∷ cs) = pushed_all (pushed bs c) cs

run-RingHolds :
    (n : ℕ) (cb : CircuitBreaker) (bs : List Bool) (cs : List Call)
    → 0 < n
    → RingHolds n (ring cb) (latest n bs)
    → RingHolds n (ring (run cb cs)) (latest n (pushed_all bs cs))
unfolding run pushed_all
run-RingHolds n cb bs [] h w = w
run-RingHolds n cb bs (c ∷ cs) h w =
    run-RingHolds n (step cb c) (pushed bs c) cs h (step-RingHolds n cb bs c h w)

pushed_all_lem : (bs : List Bool) (cs : List Call) → pushed_all bs cs ≡ bs ++ outcomes cs
unfolding pushed_all pushed outcomes
pushed_all_lem bs [] = sym (append-nil bs)
pushed_all_lem bs (allows now ∷ cs) = pushed_all_lem bs cs
pushed_all_lem bs (succeeds now ∷ cs) =
    pushed_all_lem (bs ++ true ∷ []) cs ∙ append_assoc bs (true ∷ []) (outcomes cs)
pushed_all_lem bs (fails now ∷ cs) =
    pushed_all_lem (bs ++ false ∷ []) cs ∙ append_assoc bs (false ∷ []) (outcomes cs)
pushed_all_lem bs (resets now ∷ cs) = pushed_all_lem bs cs

-- A breaker made with a window of `n` > 0 outcomes counts, after any calls, the failures among
-- the last `n` outcomes reported to it (all of them, if there were fewer), in whatever order
-- successes, failures, requests and resets came.
pub window_failures-run :
    (name : String) (c : RawConfig) (n start : ℕ) (cs : List Call)
    → pos_part c.window_size ≡ n
    → 0 < n
    → let cb = run (new_circuit_breaker name c start) cs in
      window_failures cb.recent_outcomes cb.outcomes_pushed ≡ count_if not (latest n (outcomes cs))
unfolding latest new_circuit_breaker
window_failures-run name c n start cs size h =
    let fresh : RingHolds n (ring (new_circuit_breaker name c start)) (latest n []) =
      rw size (fresh-Holds n h, length-replicate n false) in
    window_failures_lem (run-RingHolds n _ [] cs h fresh).0
    ∙ ap (λ (bs : List Bool). count_if not (latest n bs)) (pushed_all_lem [] cs)
