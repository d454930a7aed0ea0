-- ===== src/Store/Fallback.antt =====
-- pkg/uiauto/store/fallback.go: a primary and a fallback store behind a circuit breaker. The two
-- stores are arguments, and so is the clock, in nanoseconds.
pub mod Circuit
pub mod Mirror
use uiauto_framework.Prelude.{
  ℕ, suc, ◌+◌, ◌-◌, ◌⊎◌, inl, inr, Bool, true, false, List, String, Option, none, some, ltb, leb,
  if◌then◌else◌,
}
use uiauto_framework.Store.{Pattern, Patterns, PatternStore}

pub data CircuitState : Type 0 where
  closed opened half_open : CircuitState

pub record FallbackStore (P F : Type 0) : Type 0 where
  pub primary : P
  pub fallback : F
  pub failure_threshold : ℕ
  pub half_open_timeout : ℕ
  pub state : CircuitState
  pub failures : ℕ
  pub last_failure_time : ℕ

module _ {P F : Type 0} where
  pub new_fallback_store : P → F → ℕ → ℕ → FallbackStore P F
  new_fallback_store primary fallback threshold timeout = record {
    primary = primary;
    fallback = fallback;
    failure_threshold = threshold;
    half_open_timeout = timeout;
    state = closed;
    failures = 0;
    last_failure_time = 0;
  }

  pub should_use_primary : ℕ → FallbackStore P F → FallbackStore P F × Bool
  should_use_primary now s = elim s.state [
    | closed ↦ (s, true)
    | opened ↦
        if ltb s.half_open_timeout (now - s.last_failure_time)
        then (record s { state = half_open }, true)
        else (s, false)
    | half_open ↦ (s, true)
  ]

  pub record_failure : ℕ → FallbackStore P F → FallbackStore P F
  record_failure now s =
      if leb s.failure_threshold (s.failures + 1)
      then record s { failures = s.failures + 1; last_failure_time = now; state = opened }
      else record s { failures = s.failures + 1; last_failure_time = now }

  pub record_success : FallbackStore P F → FallbackStore P F
  record_success s = record s { state = closed; failures = 0 }

  -- A call of one of the two stores, and the new state of that store.
  pub on_primary : {R : Type 0} → (P → P × R) → FallbackStore P F → FallbackStore P F × R
  on_primary call s = (record s { primary = (call s.primary).0 }, (call s.primary).1)

  pub on_fallback : {R : Type 0} → (F → F × R) → FallbackStore P F → FallbackStore P F × R
  on_fallback call s = (record s { fallback = (call s.fallback).0 }, (call s.fallback).1)

  module _ (p : PatternStore P) (f : PatternStore F) where
    pub found : FallbackStore P F × Option Pattern → FallbackStore P F × Option Pattern
    found (s, none) = (s, none)
    found (s, some x) = (record_success s, some x)

    pub get_from : String → FallbackStore P F × Bool → FallbackStore P F × Option Pattern
    get_from key (s, true) = found (on_primary (p.get key) s)
    get_from key (s, false) = on_fallback (f.get key) s

    pub get : ℕ → String → FallbackStore P F → FallbackStore P F × Option Pattern
    get now key s = get_from key (should_use_primary now s)

    -- A write that the primary store took is written through; the fallback's error is dropped.
    pub written :
        ℕ → Pattern → FallbackStore P F × Option String → FallbackStore P F × Option String
    written now x (s, some err) = on_fallback (f.set x) (record_failure now s)
    written now x (s, none) = ((on_fallback (f.set x) (record_success s)).0, none)

    pub set_in : ℕ → Pattern → FallbackStore P F × Bool → FallbackStore P F × Option String
    set_in now x (s, true) = written now x (on_primary (p.set x) s)
    set_in now x (s, false) = on_fallback (f.set x) s

    pub set : ℕ → Pattern → FallbackStore P F → FallbackStore P F × Option String
    set now x s = set_in now x (should_use_primary now s)

    pub loaded :
        ℕ → FallbackStore P F × (String ⊎ Patterns) → FallbackStore P F × (String ⊎ Patterns)
    loaded now (s, inl err) = on_fallback f.load (record_failure now s)
    loaded now (s, inr ps) = (record_success s, inr ps)

    pub load_from : ℕ → FallbackStore P F × Bool → FallbackStore P F × (String ⊎ Patterns)
    load_from now (s, true) = loaded now (on_primary p.load s)
    load_from now (s, false) = on_fallback f.load s

    pub load : ℕ → FallbackStore P F → FallbackStore P F × (String ⊎ Patterns)
    load now s = load_from now (should_use_primary now s)

    -- The two updates of a confidence: the fallback is tried only when the primary store fails.
    pub updated :
        ℕ
        → (F → F × Option String)
        → FallbackStore P F × Option String
        → FallbackStore P F × Option String
    updated now again (s, some err) = on_fallback again (record_failure now s)
    updated now again (s, none) = (record_success s, none)

    pub update_in :
        ℕ
        → (P → P × Option String)
        → (F → F × Option String)
        → FallbackStore P F × Bool
        → FallbackStore P F × Option String
    update_in now first again (s, true) = updated now again (on_primary first s)
    update_in now first again (s, false) = on_fallback again s

    pub decay_confidence : ℕ → ℕ → (ℕ → ℕ) → FallbackStore P F → FallbackStore P F × Option String
    decay_confidence now older_than factor s =
        update_in now (p.decay_confidence now older_than factor)
          (f.decay_confidence now older_than factor) (should_use_primary now s)

    pub boost_confidence : ℕ → String → ℕ → FallbackStore P F → FallbackStore P F × Option String
    boost_confidence now key boost s =
        update_in now (p.boost_confidence key boost) (f.boost_confidence key boost)
          (should_use_primary now s)
