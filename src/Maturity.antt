-- ===== src/Maturity.antt =====
-- pkg/uiauto/pattern_maturity_tracker.go: how far each pattern is trusted. The clock is an argument;
-- the events are what the listeners are given, oldest first. The mutex makes each method one step.
mod Levels
mod Events
mod Tests
use uiauto_framework.Prelude.{
  ℕ, ◌+◌, Bool, true, false, not, ◌&&◌, List, [], ◌∷◌, ◌++◌, String, Option, none, some, ℤ, pos,
  leb_ℤ, lookup, insert, if◌then◌else◌,
}
use uiauto_framework.Tiers.{ModelTier, light, smart, vlm}

pub data MaturityLevel : Type 0 where
  new testing stable trusted degraded : MaturityLevel

level_string : MaturityLevel → String
level_string new = "new"
level_string testing = "testing"
level_string stable = "stable"
level_string trusted = "trusted"
level_string degraded = "degraded"

abbrev pub level_eq : MaturityLevel → MaturityLevel → Bool
level_eq new new = true
level_eq testing testing = true
level_eq stable stable = true
level_eq trusted trusted = true
level_eq degraded degraded = true
level_eq _ _ = false

-- Without the recovery window, which nothing reads.
pub record MaturityConfig : Type 0 where
  pub testing_successes : ℤ
  pub stable_successes : ℤ
  pub trusted_successes : ℤ
  pub degraded_failures : ℤ

pub record PatternMaturity : Type 0 where
  pub pattern_id : String
  pub level : MaturityLevel
  pub total_successes : ℕ
  pub total_failures : ℕ
  pub consecutive_failures : ℕ
  pub consecutive_successes : ℕ
  pub last_used : ℕ
  pub created_at : ℕ

pub record MaturityChangeEvent : Type 0 where
  pub pattern_id : String
  pub from : MaturityLevel
  pub to : MaturityLevel
  pub reason : String
  pub timestamp : ℕ

pub record PatternMaturityTracker : Type 0 where
  pub patterns : List (String × PatternMaturity)
  pub config : MaturityConfig
  pub events : List MaturityChangeEvent

pub new_pattern_maturity_tracker : MaturityConfig → PatternMaturityTracker
new_pattern_maturity_tracker c = record { patterns = []; config = c; events = [] }

fresh_pattern : String → ℕ → PatternMaturity
fresh_pattern id now = record {
  pattern_id = id;
  level = new;
  total_successes = 0;
  total_failures = 0;
  consecutive_failures = 0;
  consecutive_successes = 0;
  last_used = 0;
  created_at = now;
}

abbrev found_or_fresh : String → ℕ → Option PatternMaturity → PatternMaturity
found_or_fresh id now none = fresh_pattern id now
found_or_fresh id now (some pm) = pm

get_or_create : PatternMaturityTracker → String → ℕ → PatternMaturity
get_or_create t id now = found_or_fresh id now (lookup id t.patterns)

promoted_level : MaturityConfig → PatternMaturity → MaturityLevel → MaturityLevel
promoted_level c pm new =
    if leb_ℤ c.testing_successes (pos pm.total_successes) then testing else new
promoted_level c pm testing =
    if leb_ℤ c.stable_successes (pos pm.total_successes) then stable else testing
promoted_level c pm stable =
    if leb_ℤ c.trusted_successes (pos pm.total_successes) then trusted else stable
promoted_level c pm degraded =
    if leb_ℤ c.testing_successes (pos pm.consecutive_successes) then testing else degraded
promoted_level c pm trusted = trusted

maybe_promote : MaturityConfig → PatternMaturity → PatternMaturity
unfolding promoted_level
maybe_promote c pm = record pm { level = promoted_level c pm pm.level }

-- The counting of `RecordSuccess`, and then its promotion.
pub succeed : MaturityConfig → ℕ → PatternMaturity → PatternMaturity
unfolding maybe_promote
succeed c now pm = maybe_promote c (record pm {
  total_successes = pm.total_successes + 1;
  consecutive_successes = pm.consecutive_successes + 1;
  consecutive_failures = 0;
  last_used = now;
})

pub fail : MaturityConfig → ℕ → PatternMaturity → PatternMaturity
fail c now pm =
    let failures = pm.consecutive_failures + 1 in
    record pm {
      total_failures = pm.total_failures + 1;
      consecutive_failures = failures;
      consecutive_successes = 0;
      last_used = now;
      level =
          if leb_ℤ c.degraded_failures (pos failures) && not (level_eq pm.level degraded)
          then degraded
          else pm.level;
    }

-- The event of a change of level, if the level has changed.
change : String → MaturityLevel → MaturityLevel → String → ℕ → List MaturityChangeEvent
change id from to reason now =
    if level_eq to from
    then []
    else record { pattern_id = id; from = from; to = to; reason = reason; timestamp = now } ∷ []

-- The pattern goes from `pm` to `used`, and the listeners are told.
settle :
    PatternMaturityTracker
    → String
    → PatternMaturity
    → PatternMaturity
    → String
    → ℕ
    → PatternMaturityTracker
settle t id pm used reason now = record t {
  patterns = insert id used t.patterns;
  events = t.events ++ change id pm.level used.level reason now;
}

pub record_success : PatternMaturityTracker → String → ℕ → PatternMaturityTracker
unfolding settle get_or_create
record_success t id now =
    let pm = get_or_create t id now in
    settle t id pm (succeed t.config now pm) "promotion_on_success" now

pub record_failure : PatternMaturityTracker → String → ℕ → PatternMaturityTracker
unfolding settle get_or_create
record_failure t id now =
    let pm = get_or_create t id now in
    settle t id pm (fail t.config now pm) "degradation_on_failures" now

pub get_maturity : PatternMaturityTracker → String → Option PatternMaturity
get_maturity t id = lookup id t.patterns

tier_for : MaturityLevel → ModelTier
tier_for trusted = light
tier_for stable = light
tier_for testing = smart
tier_for degraded = vlm
tier_for new = smart

suggest_tier : PatternMaturityTracker → String → ModelTier
unfolding tier_for
suggest_tier t id = elim (lookup id t.patterns) [ none ↦ smart | some pm ↦ tier_for pm.level ]

-- A use of a pattern, and its time.
pub data Use : Type 0 where
  succeeded failed : String → ℕ → Use

pub step : PatternMaturityTracker → Use → PatternMaturityTracker
step t (succeeded id now) = record_success t id now
step t (failed id now) = record_failure t id now

pub run : PatternMaturityTracker → List Use → PatternMaturityTracker
run t [] = t
run t (u ∷ us) = run (step t u) us
