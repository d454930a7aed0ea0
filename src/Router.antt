-- ===== src/Router.antt =====
-- pkg/uiauto/model_router.go: an action goes to the light executor, and on failure to smart
-- discovery and to the vision model. The components that the router calls answer through an
-- `Answers` record, one answer for each call that a single action can make; all clock readings of
-- an action have one time.
mod State
mod Outcome
mod Invariant
mod Counting
mod Tests
use uiauto_framework.Prelude.{
  ℕ, ◌+◌, ◌-◌, ◌*◌, Bool, true, false, ◌&&◌, List, [], ◌∷◌, ◌++◌, String, str_eq, Option, none,
  some, ℤ, pos, positive_or, ltb, leb, ◌==◌, if◌then◌else◌, not,
}
use uiauto_framework.DomBreaker
use uiauto_framework.Phase.{PhaseTracker}
use uiauto_framework.Phase
use uiauto_framework.Tiers.{ModelTier, light, smart, vlm, tier_index, tier_above, tier_below}
unfoldable pub use State.*

no_metrics : RouterMetrics
no_metrics = record {
  light_attempts = 0;
  light_successes = 0;
  smart_attempts = 0;
  smart_successes = 0;
  vlm_attempts = 0;
  vlm_successes = 0;
  promotions = 0;
  demotions = 0;
  total_latency_ms = 0;
  action_count = 0;
}

-- `NewModelRouter` and its options: the vision bridge, the convergence threshold, the phase
-- tracker and the bandit.
pub new_model_router : Bool → Option ℤ → Option PhaseTracker → Bool → ModelRouter
unfolding no_metrics new_convergence_state
new_model_router has_vlm threshold tracker has_bandit = record {
  breaker = DomBreaker.new_circuit_breaker (pos 3) (pos 60);
  convergence = elim threshold [
    | none ↦ new_convergence_state (pos 5)
    | some n ↦ new_convergence_state n
  ];
  phase_tracker = tracker;
  bandit = if has_bandit then some [] else none;
  has_vlm = has_vlm;
  metrics = no_metrics;
  current_tier = light;
}

-- `if r.phaseTracker != nil { … }`
phase_success : ModelTier → ℕ → ModelRouter → ModelRouter
phase_success t now r = record r {
  phase_tracker = elim r.phase_tracker [
    | none ↦ none
    | some p ↦ some (Phase.record_success p t now)
  ];
}

phase_failure : ModelTier → ℕ → ModelRouter → ModelRouter
phase_failure t now r = record r {
  phase_tracker = elim r.phase_tracker [
    | none ↦ none
    | some p ↦ some (Phase.record_failure p t now)
  ];
}

-- `LightSuccessRate() >= 0.9` and `LightSuccessRate() < 0.5`, whose rate is 0 with no attempt.
rate_at_least_promotion : RouterMetrics → Bool
rate_at_least_promotion m =
    if m.light_attempts == 0 then false else leb (9 * m.light_attempts) (10 * m.light_successes)

rate_below_demotion : RouterMetrics → Bool
rate_below_demotion m =
    if m.light_attempts == 0 then true else ltb (2 * m.light_successes) m.light_attempts

check_promotion : ModelRouter → ModelRouter
unfolding rate_at_least_promotion
check_promotion r =
    if rate_at_least_promotion r.metrics && ltb (tier_index light) (tier_index r.current_tier)
    then record r {
      current_tier = tier_below r.current_tier;
      metrics = record (r.metrics) { demotions = r.metrics.demotions + 1 };
    }
    else r

check_demotion : ModelRouter → ModelRouter
unfolding rate_below_demotion
check_demotion r =
    if rate_below_demotion r.metrics
      && ltb 5 r.metrics.light_attempts
      && ltb (tier_index r.current_tier) (tier_index vlm)
    then record r {
      current_tier = tier_above r.current_tier;
      metrics = record (r.metrics) { promotions = r.metrics.promotions + 1 };
    }
    else r

vlm_path : Answers → ℕ → ModelRouter → ModelRouter × Option ActionError
vlm_path a now r =
    let asked = record r {
      metrics = record (r.metrics) { vlm_attempts = r.metrics.vlm_attempts + 1 };
    } in
    if not a.screenshot
    then (asked, some screenshot_failed)
    else if not a.analyzed
    then (phase_failure vlm now asked, some vlm_failed)
    else (
      phase_success vlm now (record asked {
        metrics = record (asked.metrics) { vlm_successes = asked.metrics.vlm_successes + 1 };
      }),
      none,
    )

-- The vision model where there is one, else the error.
vlm_or : ActionError → Answers → ℕ → ModelRouter → ModelRouter × Option ActionError
vlm_or e a now r = if r.has_vlm then vlm_path a now r else (r, some e)

-- `action.Type == "evaluate"` asks for a script, any other type for a selector.
pub discovered : Action → Answers → Bool
discovered action a = if str_eq action.type "evaluate" then a.script_found else a.selector_found

smart_success : ℕ → ModelRouter → ModelRouter
smart_success now r = check_promotion (
    phase_success smart now (record r {
      metrics = record (r.metrics) { smart_successes = r.metrics.smart_successes + 1 };
    }))

smart_path : Action → Answers → ℕ → ModelRouter → ModelRouter × Option ActionError
smart_path action a now r =
    let asked = record r {
      metrics = record (r.metrics) { smart_attempts = r.metrics.smart_attempts + 1 };
    } in
    if not a.dom_captured
    then (asked, some dom_failed)
    else if not (discovered action a)
    then vlm_or discovery_failed a now (phase_failure smart now asked)
    else if not a.registered
    then (asked, some register_failed)
    else if not a.light_again
    then vlm_or action_failed a now (phase_failure light now asked)
    else (smart_success now asked, none)

-- What the cascade records of its light attempt.
light_success : ℕ → ModelRouter → ModelRouter
light_success now r = check_demotion (
    phase_success light now (record r {
      metrics = record (r.metrics) { light_successes = r.metrics.light_successes + 1 };
      breaker = DomBreaker.record_success r.breaker;
      convergence = record_hit r.convergence;
    }))

light_failure : ℕ → ModelRouter → ModelRouter
light_failure now r = phase_failure light now (record r {
  breaker = DomBreaker.record_failure r.breaker now;
  convergence = record_miss r.convergence;
})

try_light : Action → Answers → ℕ → ModelRouter → ModelRouter × Option ActionError
try_light action a now r =
    let tried = record r {
      metrics = record (r.metrics) { light_attempts = r.metrics.light_attempts + 1 };
    } in
    if a.light_first
    then (light_success now tried, none)
    else smart_path action a now (light_failure now tried)

pub cascade_execution : Action → Answers → ℕ → ModelRouter → ModelRouter × Option ActionError
cascade_execution action a now r =
    let (breaker, allowed) = DomBreaker.allow r.breaker now in
    let asked = record r { breaker = breaker } in
    if allowed then try_light action a now asked else smart_path action a now asked

-- `actionFeatures` asks the breaker too, and so may turn it half-open.
action_features : Action → ℕ → ModelRouter → ModelRouter × Features
action_features action now r =
    let (breaker, allowed) = DomBreaker.allow r.breaker now in
    (
      record r { breaker = breaker },
      record {
        selector_count = 1;
        has_data_test_id = not (str_eq action.target_id "");
        previous_failures = if allowed then 0 else 3;
      },
    )

-- The switch on the tier that the bandit selects.
run_arm : Arm → Action → Answers → ℕ → ModelRouter → ModelRouter × Option ActionError
run_arm arm_vlm action a now r = if r.has_vlm then vlm_path a now r else smart_path action a now r
run_arm arm_smart action a now r = smart_path action a now r
run_arm arm_light action a now r = cascade_execution action a now r

abbrev succeeded : Option ActionError → Bool
succeeded none = true
succeeded (some e) = false

abbrev reward : Features → Arm → Bool → ModelRouter → ModelRouter
reward f arm earned r = record r {
  bandit = elim r.bandit [
    | none ↦ none
    | some log ↦ some (record { features = f; arm = arm; earned = earned } ∷ log)
  ];
}

-- The tail of `banditGuidedExecution`: the update, and the outcome once more to the tracker.
settle_arm :
    Features → Arm → ℕ → ModelRouter × Option ActionError → ModelRouter × Option ActionError
settle_arm f arm now (r, e) =
    let rewarded = reward f arm (succeeded e) r in
    (
      elim e [
        | none ↦ phase_success (arm_to_tier arm) now rewarded
        | some x ↦ phase_failure (arm_to_tier arm) now rewarded
      ],
      e,
    )

bandit_guided_execution : Action → Answers → ℕ → ModelRouter → ModelRouter × Option ActionError
bandit_guided_execution action a now r =
    let (asked, f) = action_features action now r in
    settle_arm f a.arm now (run_arm a.arm action a now asked)

count_action : ℕ → ModelRouter → ModelRouter
count_action elapsed_ms r = record r {
  metrics = record (r.metrics) {
    total_latency_ms = r.metrics.total_latency_ms + elapsed_ms;
    action_count = r.metrics.action_count + 1;
  };
}

dispatch :
    Option (List Reward) → Action → Answers → ℕ → ModelRouter → ModelRouter × Option ActionError
dispatch (some log) action a now r = bandit_guided_execution action a now r
dispatch none action a now r = cascade_execution action a now r

-- One call of `ExecuteAction`: the answers to its calls, its time and how long it took.
pub execute_action : Action → Answers → ℕ → ℕ → ModelRouter → ModelRouter × Option ActionError
execute_action action a now elapsed_ms r =
    let (r', e) = dispatch r.bandit action a now r in (count_action elapsed_ms r', e)

-- What an action meets.
pub record Request : Type 0 where
  pub action : Action
  pub answers : Answers
  pub now : ℕ
  pub elapsed_ms : ℕ

-- `ExecuteBatch`.
pub execute_batch : ModelRouter → List Request → ModelRouter × List (Option ActionError)
execute_batch r [] = (r, [])
execute_batch r (q ∷ qs) =
    let (r', e) = execute_action q.action q.answers q.now q.elapsed_ms r in
    let (r'', es) = execute_batch r' qs in (r'', e ∷ es)
