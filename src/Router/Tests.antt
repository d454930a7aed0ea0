-- ===== src/Router/Tests.antt =====
-- The theorems about pkg/uiauto/model_router.go at a router with a tracker, a bridge and a bandit.
use uiauto_framework.Prelude.{◌≡◌, refl, true, false, [], ◌∷◌, pos, none, some, arith}
use uiauto_framework.DomBreaker
use uiauto_framework.Phase.{PhaseTracker, discovery}
use uiauto_framework.Phase
use uiauto_framework.Tiers.{smart, light}
use uiauto_framework.Router.{
  ModelRouter, Action, Answers, arm_smart, new_model_router, execute_batch, cascade_execution,
  discovered,
}
use uiauto_framework.Router.Invariant.{Inv, batch-new-Inv}
use uiauto_framework.Router.Outcome.{Effect, cascade-Effect}
use uiauto_framework.Router.Counting.{smart_arm_counts_twice}

abbrev click : Action
click = record { target_id = "buy"; type = "click" }

abbrev all_good : Answers
all_good = record {
  light_first = true;
  dom_captured = true;
  script_found = true;
  selector_found = true;
  registered = true;
  light_again = true;
  screenshot = true;
  analyzed = true;
  arm = arm_smart;
}

abbrev light_down : Answers
light_down = record all_good { light_first = false; selector_found = false }

abbrev tracker : PhaseTracker
tracker = record {
  current_phase = discovery;
  phase_history = [];
  phase_entered_at = λ p. none;
  discovery_threshold = 5;
  cruise_threshold = 5;
  escalation_trigger = 3;
  consecutive_smart = 0;
  consecutive_light_fail = 0;
  consecutive_light_ok = 0;
  last_light_failed = false;
  discovery_entries = 0;
  stable_entries = 0;
  escalation_count = 0;
}

abbrev guided : ModelRouter
guided = record {
  breaker = record {
    failures = 0;
    threshold = pos 3;
    cooldown = pos 60;
    state = DomBreaker.BreakerState.closed;
    last_failure_at = 0;
  };
  convergence = record { consecutive_hits = 5; converged = true; threshold = 5 };
  phase_tracker = some tracker;
  bandit = some [];
  has_vlm = true;
  metrics = record {
    light_attempts = 5;
    light_successes = 5;
    smart_attempts = 0;
    smart_successes = 0;
    vlm_attempts = 0;
    vlm_successes = 0;
    promotions = 0;
    demotions = 0;
    total_latency_ms = 9;
    action_count = 5;
  };
  current_tier = light;
}

abbrev plain : ModelRouter
plain = record guided { bandit = none }

batch-new-Inv_example :
    Inv
      (execute_batch
        (new_model_router true none (some tracker) true)
        (record { action = click; answers = all_good; now = 1; elapsed_ms = 2 } ∷ [])).0
batch-new-Inv_example =
    batch-new-Inv true none (some tracker) true
      (record { action = click; answers = all_good; now = 1; elapsed_ms = 2 } ∷ [])

cascade-Effect_example : Effect plain (cascade_execution click light_down 7 plain) true 1 1 1
unfolding DomBreaker.allow discovered
cascade-Effect_example = cascade-Effect click light_down 7 plain

smart_arm_counts_twice_example :
    (Phase.record_success (Phase.record_success tracker smart 7) smart 7).consecutive_smart ≡ 2
unfolding discovered
smart_arm_counts_twice_example =
    (smart_arm_counts_twice click all_good 7 3 guided [] tracker refl refl refl refl refl refl
        refl).1
      refl (omega arith)
