-- ===== src/Store/Fallback/Circuit.antt =====
-- The circuit breaker of pkg/uiauto/store/fallback.go under any calls of the store.
use uiauto_framework.Prelude.{
  ℕ, ◌<◌, ◌≡◌, ◌⊎◌, inl, inr, Bool, true, false, List, [], ◌∷◌, String, Option, none, some, ltb,
  arith,
}
use uiauto_framework.Store.{Pattern, Patterns, PatternStore}
use uiauto_framework.Store.Fallback.{
  CircuitState, closed, opened, half_open, FallbackStore, new_fallback_store, should_use_primary,
  record_failure, record_success, on_primary, on_fallback, found, get_from, get, written, set_in,
  set, loaded, load_from, load, updated, update_in, decay_confidence, boost_confidence,
}

pub is_closed : CircuitState → Bool
is_closed closed = true
is_closed opened = false
is_closed half_open = false

-- A call, at its time.
pub data Call : Type 0 where
  getting : ℕ → String → Call
  setting : ℕ → Pattern → Call
  loading : ℕ → Call
  decaying : ℕ → ℕ → (ℕ → ℕ) → Call
  boosting : ℕ → String → ℕ → Call

-- The store is closed exactly while it counts fewer failures than the threshold.
pub record Sound {P F : Type 0} (s : FallbackStore P F) : Type 0 where
  pub positive : 0 < s.failure_threshold
  pub counted : is_closed s.state ≡ ltb s.failures s.failure_threshold

module _ {P F : Type 0} where
  choose-Sound : (now : ℕ) (s : FallbackStore P F) → Sound s → Sound (should_use_primary now s).0
  unfolding should_use_primary is_closed
  choose-Sound now s h = ground (arith, h)

  failure-Sound : (now : ℕ) (s : FallbackStore P F) → Sound s → Sound (record_failure now s)
  unfolding record_failure is_closed
  failure-Sound now s h = ground (arith, h)

  success-Sound : (s : FallbackStore P F) → Sound s → Sound (record_success s)
  unfolding record_success is_closed
  success-Sound s h = ground (arith, h)

  primary-Sound :
      {R : Type 0} (call : P → P × R) (s : FallbackStore P F)
      → Sound s
      → Sound (on_primary call s).0
  unfolding on_primary
  primary-Sound call s h = record { positive = h.positive; counted = h.counted }

  fallback-Sound :
      {R : Type 0} (call : F → F × R) (s : FallbackStore P F)
      → Sound s
      → Sound (on_fallback call s).0
  unfolding on_fallback
  fallback-Sound call s h = record { positive = h.positive; counted = h.counted }

  module _ (p : PatternStore P) (f : PatternStore F) where
    -- The store after a call, and after several.
    pub step : FallbackStore P F → Call → FallbackStore P F
    step s (getting now key) = (get p f now key s).0
    step s (setting now x) = (set p f now x s).0
    step s (loading now) = (load p f now s).0
    step s (decaying now age factor) = (decay_confidence p f now age factor s).0
    step s (boosting now key boost) = (boost_confidence p f now key boost s).0

    pub run : FallbackStore P F → List Call → FallbackStore P F
    run s [] = s
    run s (c ∷ cs) = run (step s c) cs

    found-Sound : (r : FallbackStore P F × Option Pattern) → Sound r.0 → Sound (found p f r).0
    unfolding found
    found-Sound (s, none) h = h
    found-Sound (s, some x) h = success-Sound s h

    get-Sound :
        (key : String) (r : FallbackStore P F × Bool) → Sound r.0 → Sound (get_from p f key r).0
    unfolding get_from
    get-Sound key (s, true) h =
        found-Sound (on_primary (p.get key) s) (primary-Sound (p.get key) s h)
    get-Sound key (s, false) h = fallback-Sound (f.get key) s h

    written-Sound :
        (now : ℕ) (x : Pattern) (r : FallbackStore P F × Option String)
        → Sound r.0
        → Sound (written p f now x r).0
    unfolding written
    written-Sound now x (s, none) h =
        fallback-Sound (f.set x) (record_success s) (success-Sound s h)
    written-Sound now x (s, some err) h =
        fallback-Sound (f.set x) (record_failure now s) (failure-Sound now s h)

    set-Sound :
        (now : ℕ) (x : Pattern) (r : FallbackStore P F × Bool)
        → Sound r.0
        → Sound (set_in p f now x r).0
    unfolding set_in
    set-Sound now x (s, true) h =
        written-Sound now x (on_primary (p.set x) s) (primary-Sound (p.set x) s h)
    set-Sound now x (s, false) h = fallback-Sound (f.set x) s h

    loaded-Sound :
        (now : ℕ) (r : FallbackStore P F × (String ⊎ Patterns))
        → Sound r.0
        → Sound (loaded p f now r).0
    unfolding loaded
    loaded-Sound now (s, inl err) h =
        fallback-Sound f.load (record_failure now s) (failure-Sound now s h)
    loaded-Sound now (s, inr ps) h = success-Sound s h

    load-Sound :
        (now : ℕ) (r : FallbackStore P F × Bool) → Sound r.0 → Sound (load_from p f now r).0
    unfolding load_from
    load-Sound now (s, true) h = loaded-Sound now (on_primary p.load s) (primary-Sound p.load s h)
    load-Sound now (s, false) h = fallback-Sound f.load s h

    updated-Sound :
        (now : ℕ) (again : F → F × Option String) (r : FallbackStore P F × Option String)
        → Sound r.0
        → Sound (updated p f now again r).0
    unfolding updated
    updated-Sound now again (s, none) h = success-Sound s h
    updated-Sound now again (s, some err) h =
        fallback-Sound again (record_failure now s) (failure-Sound now s h)

    update-Sound :
        (now : ℕ) (first : P → P × Option String) (again : F → F × Option String)
        (r : FallbackStore P F × Bool)
        → Sound r.0
        → Sound (update_in p f now first again r).0
    unfolding update_in
    update-Sound now first again (s, true) h =
        updated-Sound now again (on_primary first s) (primary-Sound first s h)
    update-Sound now first again (s, false) h = fallback-Sound again s h

    step-Sound : (s : FallbackStore P F) (c : Call) → Sound s → Sound (step s c)
    unfolding step get set load decay_confidence boost_confidence
    step-Sound s (getting now key) h =
        get-Sound key (should_use_primary now s) (choose-Sound now s h)
    step-Sound s (setting now x) h =
        set-Sound now x (should_use_primary now s) (choose-Sound now s h)
    step-Sound s (loading now) h = load-Sound now (should_use_primary now s) (choose-Sound now s h)
    step-Sound s (decaying now age factor) h =
        update-Sound now (p.decay_confidence now age factor) (f.decay_confidence now age factor)
          (should_use_primary now s) (choose-Sound now s h)
    step-Sound s (boosting now key boost) h =
        update-Sound now (p.boost_confidence key boost) (f.boost_confidence key boost)
          (should_use_primary now s) (choose-Sound now s h)

    run-Sound : (s : FallbackStore P F) (cs : List Call) → Sound s → Sound (run s cs)
    unfolding run
    run-Sound s [] h = h
    run-Sound s (c ∷ cs) h = run-Sound (step s c) cs (step-Sound s c h)

-- Whatever two stores and however their calls turn out, a new store with a positive threshold is
-- closed, after any calls, exactly when it counts fewer failures than the threshold.
pub fallback-run-Sound :
    {P F : Type 0} (p : PatternStore P) (f : PatternStore F) (x : P) (y : F) (threshold timeout : ℕ)
    → 0 < threshold
    → (cs : List Call) → Sound (run p f (new_fallback_store x y threshold timeout) cs)
unfolding new_fallback_store is_closed
fallback-run-Sound p f x y threshold timeout pos cs =
    run-Sound p f _ cs (record { positive = pos; counted = ground (arith, pos) })
