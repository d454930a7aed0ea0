-- ===== src/Router/Counting.antt =====
-- What a bandit-guided action of pkg/uiauto/model_router.go reports to the bandit and to the phase
-- tracker.
use uiauto_framework.Prelude.{
  ℕ, ◌+◌, ◌<◌, ◌≡◌, refl, ap, ◌∙◌, true, List, ◌∷◌, Option, none, some, arith, if◌then◌else◌, not,
  str_eq,
}
use uiauto_framework.DomBreaker
use uiauto_framework.Phase.{PhaseTracker, PatternPhase, discovery, cruise}
use uiauto_framework.Phase
use uiauto_framework.Phase.Machine.{smart_in_discovery}
use uiauto_framework.Tiers.{light, smart}
use uiauto_framework.Router.{
  ModelRouter, Action, Answers, ActionError, Arm, arm_light, arm_smart, arm_vlm, Reward, Features,
  phase_success, phase_failure, check_promotion, check_demotion, vlm_path, vlm_or, discovered,
  smart_success, succeeded, smart_path, light_success, light_failure, try_light, cascade_execution,
  action_features, run_arm, settle_arm, bandit_guided_execution, count_action, dispatch,
  execute_action, arm_to_tier, discovery_failed, action_failed,
}

vlm_path-bandit : (a : Answers) (now : ℕ) (r : ModelRouter) → (vlm_path a now r).0.bandit ≡ r.bandit
unfolding vlm_path phase_success phase_failure
vlm_path-bandit a now r = ground arith

vlm_or-bandit :
    (e : ActionError) (a : Answers) (now : ℕ) (r : ModelRouter)
    → (vlm_or e a now r).0.bandit ≡ r.bandit
unfolding vlm_or
vlm_or-bandit e a now r = ground (arith, vlm_path-bandit a now r)

smart_path-bandit :
    (action : Action) (a : Answers) (now : ℕ) (r : ModelRouter)
    → (smart_path action a now r).0.bandit ≡ r.bandit
unfolding smart_path smart_success check_promotion phase_success phase_failure
smart_path-bandit action a now r =
    let asked = record r {
      metrics = record (r.metrics) { smart_attempts = r.metrics.smart_attempts + 1 };
    } in
    ground (
      arith,
      vlm_or-bandit discovery_failed a now (phase_failure smart now asked),
      vlm_or-bandit action_failed a now (phase_failure light now asked),
    )

light_success-bandit : (now : ℕ) (r : ModelRouter) → (light_success now r).bandit ≡ r.bandit
unfolding light_success check_demotion phase_success
light_success-bandit now r = ground arith

light_failure-bandit : (now : ℕ) (r : ModelRouter) → (light_failure now r).bandit ≡ r.bandit
unfolding light_failure phase_failure
light_failure-bandit now r = refl

cascade-bandit :
    (action : Action) (a : Answers) (now : ℕ) (r : ModelRouter)
    → (cascade_execution action a now r).0.bandit ≡ r.bandit
unfolding cascade_execution try_light
cascade-bandit action a now r =
    let asked = record r { breaker = (DomBreaker.allow r.breaker now).0 } in
    let tried = record asked {
      metrics = record (asked.metrics) { light_attempts = asked.metrics.light_attempts + 1 };
    } in
    ground (
      arith,
      light_success-bandit now tried,
      light_failure-bandit now tried,
      smart_path-bandit action a now (light_failure now tried),
      smart_path-bandit action a now asked,
    )

run_arm-bandit :
    (m : Arm) (action : Action) (a : Answers) (now : ℕ) (r : ModelRouter)
    → (run_arm m action a now r).0.bandit ≡ r.bandit
unfolding run_arm
run_arm-bandit arm_light action a now r = cascade-bandit action a now r
run_arm-bandit arm_smart action a now r = smart_path-bandit action a now r
run_arm-bandit arm_vlm action a now r =
    ground (arith, vlm_path-bandit a now r, smart_path-bandit action a now r)

settle_arm_log :
    (f : Features) (m : Arm) (now : ℕ) (r : ModelRouter) (e : Option ActionError)
    (log : List Reward)
    → r.bandit ≡ some log
    → ((settle_arm f m now (r, e)).0.bandit
        ≡ some (record { features = f; arm = m; earned = succeeded e } ∷ log))
      × ((settle_arm f m now (r, e)).1 ≡ e)
unfolding settle_arm phase_success phase_failure
settle_arm_log f m now r e log h = ground arith

-- An action of a router with a bandit updates the bandit once: with the arm that the bandit
-- selected, with a reward exactly when the action succeeds, and with features that tell whether
-- the breaker would have let the light executor run.
pub bandit_update :
    (action : Action) (a : Answers) (now ms : ℕ) (r : ModelRouter) (log : List Reward)
    → r.bandit ≡ some log
    → let out = execute_action action a now ms r in
      out.0.bandit
      ≡ some (
          record {
            features = record {
              selector_count = 1;
              has_data_test_id = not (str_eq action.target_id "");
              previous_failures = if (DomBreaker.allow r.breaker now).1 then 0 else 3;
            };
            arm = a.arm;
            earned = succeeded out.1;
          }
          ∷ log)
unfolding execute_action dispatch count_action bandit_guided_execution action_features
bandit_update action a now ms r log h =
    let asked = record r { breaker = (DomBreaker.allow r.breaker now).0 } in
    let f : Features = record {
      selector_count = 1;
      has_data_test_id = not (str_eq action.target_id "");
      previous_failures = if (DomBreaker.allow r.breaker now).1 then 0 else 3;
    } in
    let out = run_arm a.arm action a now asked in
    ground (
      arith,
      settle_arm_log f a.arm now out.0 out.1 log (run_arm-bandit a.arm action a now asked ∙ h),
    )

check_promotion-tracker : (r : ModelRouter) → (check_promotion r).phase_tracker ≡ r.phase_tracker
unfolding check_promotion
check_promotion-tracker r = ground arith

smart_path_served :
    (action : Action) (a : Answers) (now : ℕ) (r : ModelRouter) {p : PhaseTracker}
    → r.phase_tracker ≡ some p
    → a.dom_captured ≡ true
    → discovered action a ≡ true
    → a.registered ≡ true
    → a.light_again ≡ true
    → ((smart_path action a now r).0.phase_tracker ≡ some (Phase.record_success p smart now))
      × ((smart_path action a now r).1 ≡ none)
unfolding smart_path smart_success phase_success
smart_path_served action a now r h d g s l =
    let asked = record r {
      metrics = record (r.metrics) {
        smart_attempts = r.metrics.smart_attempts + 1;
        smart_successes = r.metrics.smart_successes + 1;
      };
    } in
    ground (arith, check_promotion-tracker (phase_success smart now asked))

settle_smart :
    (f : Features) (now : ℕ) (r : ModelRouter) (e : Option ActionError) {p : PhaseTracker}
    → r.phase_tracker ≡ some p
    → e ≡ none
    → (settle_arm f arm_smart now (r, e)).0.phase_tracker ≡ some (Phase.record_success p smart now)
unfolding settle_arm phase_success arm_to_tier
settle_smart f now r e h n = ground arith

twice_in_discovery :
    (p : PhaseTracker) (now : ℕ)
    → p.current_phase ≡ discovery
    → p.consecutive_smart + 2 < p.discovery_threshold
    → (Phase.record_success (Phase.record_success p smart now) smart now).consecutive_smart
      ≡ p.consecutive_smart + 2
twice_in_discovery p now h k =
    ground
      (arith, smart_in_discovery p now h, smart_in_discovery (Phase.record_success p smart now) now)

-- Where the bandit selects the smart arm and discovery serves the action, the phase tracker is
-- told of the one success twice, by the smart path and by the bandit's own branch; so in
-- discovery the count of smart successes in a row grows by two when that stays below the
-- threshold.
pub smart_arm_counts_twice :
    (action : Action) (a : Answers) (now ms : ℕ) (r : ModelRouter) (log : List Reward)
    (p : PhaseTracker)
    → r.bandit ≡ some log
    → r.phase_tracker ≡ some p
    → a.arm ≡ arm_smart
    → a.dom_captured ≡ true
    → discovered action a ≡ true
    → a.registered ≡ true
    → a.light_again ≡ true
    → let twice = Phase.record_success (Phase.record_success p smart now) smart now in
      ((execute_action action a now ms r).0.phase_tracker ≡ some twice)
      × (p.current_phase ≡ discovery
          → p.consecutive_smart + 2 < p.discovery_threshold
          → twice.consecutive_smart ≡ p.consecutive_smart + 2)
unfolding execute_action dispatch count_action bandit_guided_execution action_features run_arm
smart_arm_counts_twice action a now ms r log p hb hp arm d g s l =
    let asked = record r { breaker = (DomBreaker.allow r.breaker now).0 } in
    let served = smart_path_served action a now asked hp d g s l in
    let out = smart_path action a now asked in
    let f = (action_features action now r).1 in
    (
      ap (λ (b : Option (List Reward)). (dispatch b action a now r).0.phase_tracker) hb
          ∙ ap (λ (m : Arm). (settle_arm f m now (run_arm m action a now asked)).0.phase_tracker)
              arm
          ∙ settle_smart f now out.0 out.1 served.0 served.1,
      twice_in_discovery p now,
    )
