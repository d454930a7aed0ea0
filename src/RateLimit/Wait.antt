-- ===== src/RateLimit/Wait.antt =====
-- That a caller of pkg/llm/rate_limited.go does not wait in vain.
use uiauto_framework.Prelude.{
  ℕ, ◌+◌, ◌-◌, ◌≤◌, ◌<◌, ◌≡◌, ◌≢◌, ◌⊎◌, zero, suc, refl, ap, sym, ◌∙◌, true, false, List, [], ◌∷◌,
  inl, inr, leb, arith, length, length-append, length-keep_if-le, keep_if, Bool-cases, All,
}
use uiauto_framework.RateLimit.{
  RateLimitedProvider, empty, active, Round, granted, wait_for, index_panic, blocked, wait_after,
  left_locked, round, run,
}
use uiauto_framework.RateLimit.Paced.{round_locked, round_full, round_free}

abbrev pub Bounded : RateLimitedProvider → Type 0
Bounded r = length r.tokens ≤ r.max_allowed

pub round-Bounded : (r : RateLimitedProvider) (now : ℕ) → Bounded r → Bounded (round r now).0
unfolding round
round-Bounded r now h =
    let valid = keep_if (active r.window now) r.tokens in
    ground
      (arith, h, length-keep_if-le (active r.window now) r.tokens, length-append valid (now ∷ []))

round_settings :
    (r : RateLimitedProvider) (now : ℕ)
    → ((round r now).0.max_allowed ≡ r.max_allowed) × ((round r now).0.window ≡ r.window)
unfolding round
round_settings r now = ground arith

keep_active-All :
    (w now : ℕ) (ts : List ℕ) → All (λ t. active w now t ≡ true) (keep_if (active w now) ts)
keep_active-All w now [] = tt
keep_active-All w now (t ∷ ts) = elim (Bool-cases (active w now t)) [
  | inl a ↦ rw a (a, keep_active-All w now ts)
  | inr n ↦ rw n (keep_active-All w now ts)
]

first_expires :
    (w now later d max : ℕ) (valid : List ℕ)
    → length valid ≤ max
    → All (λ t. active w now t ≡ true) valid
    → wait_after w now valid ≡ wait_for d
    → now + d ≤ later
    → (0 < d) × (length (keep_if (active w later) valid) < max)
unfolding wait_after
first_expires w now later d max [] h a e l = absurd (ground (arith, e))
first_expires w now later d max (t ∷ ts) h a e l =
    let d_is : t + w - now ≡ d = ground (arith, e) in
    (
      ground (arith, d_is, a.0),
      ground (arith, d_is, a.0, l, h, length-keep_if-le (active w later) ts),
    )

told_unlocks :
    (w now d : ℕ) (valid : List ℕ) → wait_after w now valid ≡ wait_for d → left_locked valid ≡ false
unfolding wait_after left_locked
told_unlocks w now d [] e = absurd (ground (arith, e))
told_unlocks w now d (t ∷ ts) e = refl

-- A caller that is told to wait waits for a positive time, and a round at the end of it or later,
-- if no other request went through in between, lets the caller through.
pub wait_then_granted :
    (r : RateLimitedProvider) (now later d : ℕ)
    → Bounded r
    → (round r now).1 ≡ wait_for d
    → now + d ≤ later
    → (0 < d) × ((round (round r now).0 later).1 ≡ granted)
wait_then_granted r now later d h e l =
    let valid = keep_if (active r.window now) r.tokens in
    let outcome : RateLimitedProvider × Round → Round = λ o. o.1 in
    elim (Bool-cases r.locked) [
      | inl stuck ↦ absurd (ground (arith, sym (ap outcome (round_locked r now stuck)) ∙ e))
      | inr free_lock ↦ elim (Bool-cases (leb r.max_allowed (length valid))) [
        | inl full ↦
            let k = round_full r now free_lock full in
            let told = sym (ap outcome k) ∙ e in
            let (positive, place) =
              first_expires r.window now later d r.max_allowed valid
                (omega (arith, h, length-keep_if-le (active r.window now) r.tokens))
                (keep_active-All r.window now r.tokens) told l in
            (
              positive,
              ap (λ (o : RateLimitedProvider × Round). (round o.0 later).1) k
                  ∙ ap outcome (
                      round_free (record r { tokens = valid; locked = left_locked valid }) later
                        (told_unlocks r.window now d valid told) (ground (arith, place))),
            )
        | inr free ↦ absurd (ground (arith, sym (ap outcome (round_free r now free_lock free)) ∙ e))
      ]
    ]

run-Bounded : (r : RateLimitedProvider) (nows : List ℕ) → Bounded r → Bounded (run r nows)
unfolding run
run-Bounded r [] h = h
run-Bounded r (now ∷ nows) h = run-Bounded (round r now).0 nows (round-Bounded r now h)

full_window :
    (w now : ℕ) (valid : List ℕ)
    → 0 < length valid
    → (left_locked valid ≡ false)
      × (wait_after w now valid ≢ index_panic)
      × (wait_after w now valid ≢ blocked)
unfolding wait_after left_locked
full_window w now [] h = absurd (omega (arith, h))
full_window w now (t ∷ ts) h = (refl, λ e. ground (arith, e), λ e. ground (arith, e))

-- A provider that lets requests through is never left locked, and does not read an empty window.
round_open :
    (r : RateLimitedProvider) (now : ℕ)
    → 0 < r.max_allowed
    → r.locked ≡ false
    → ((round r now).0.locked ≡ false)
      × ((round r now).1 ≢ index_panic)
      × ((round r now).1 ≢ blocked)
round_open r now pos l =
    let valid = keep_if (active r.window now) r.tokens in
    elim (Bool-cases (leb r.max_allowed (length valid))) [
      | inl full ↦
          rw (round_full r now l full) (full_window r.window now valid (ground (arith, full, pos)))
      | inr free ↦ rw (round_free r now l free) (l, λ e. ground (arith, e), λ e. ground (arith, e))
    ]

-- What a provider that lets no request through does from its first round on.
abbrev dead : ℕ → RateLimitedProvider
dead w = record { max_allowed = 0; window = w; tokens = []; locked = true }

run_open :
    (r : RateLimitedProvider) (nows : List ℕ)
    → 0 < r.max_allowed
    → r.locked ≡ false
    → (0 < (run r nows).max_allowed) × ((run r nows).locked ≡ false)
unfolding run
run_open r [] pos l = (pos, l)
run_open r (now ∷ nows) pos l =
    run_open (round r now).0 nows (omega (arith, pos, (round_settings r now).0))
      (round_open r now pos l).0

run-dead : (w : ℕ) (nows : List ℕ) → run (dead w) nows ≡ dead w
unfolding run round
run-dead w [] = refl
run-dead w (now ∷ nows) = run-dead w nows

-- The first round panics, the others wait for the mutex.
abbrev pub fatal : List ℕ → Round
fatal [] = index_panic
fatal (now ∷ nows) = blocked

run-fatal : (w now : ℕ) (nows : List ℕ) → (round (run (empty w 0) nows) now).1 ≡ fatal nows
unfolding run round wait_after left_locked
run-fatal w now [] = refl
run-fatal w now (first ∷ nows) = ap (λ (r : RateLimitedProvider). (round r now).1) (run-dead w nows)

-- A new provider never keeps more times than it allows. If it allows a request, no round panics or
-- finds the mutex locked for good; if it allows none, the first round panics, and every later one
-- finds the mutex locked for good.
pub run-new-Bounded :
    (max window now : ℕ) (nows : List ℕ)
    → Bounded (run (empty window max) nows)
      × (((0 < max)
            × ((round (run (empty window max) nows) now).1 ≢ index_panic)
            × ((round (run (empty window max) nows) now).1 ≢ blocked))
          ⊎ ((max ≡ 0) × ((round (run (empty window max) nows) now).1 ≡ fatal nows)))
run-new-Bounded zero window now nows =
    (run-Bounded (empty window 0) nows (omega arith), inr (refl, run-fatal window now nows))
run-new-Bounded (suc n) window now nows =
    let (pos, l) = run_open (empty window (suc n)) nows (omega arith) refl in
    let (unlocked, no_panic, no_block) = round_open (run (empty window (suc n)) nows) now pos l in
    (run-Bounded (empty window (suc n)) nows (omega arith), inl (omega arith, no_panic, no_block))
