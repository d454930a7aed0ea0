-- ===== src/Router/Invariant.antt =====
-- What holds of the router of pkg/uiauto/model_router.go between two actions.
use uiauto_framework.Prelude.{
  ℕ, ◌+◌, ◌≤◌, ◌<◌, ◌≡◌, Bool, true, false, List, [], ◌∷◌, ℤ, positive_or_pos, Option, none, some,
  leb, arith,
}
use uiauto_framework.DomBreaker
use uiauto_framework.DomBreaker.{BreakerState, closed}
use uiauto_framework.Phase.{PhaseTracker}
use uiauto_framework.Tiers.{ModelTier, light, smart, tier_index}
use uiauto_framework.Router.{
  ModelRouter, Action, Answers, ActionError, Request, Arm, arm_light, arm_smart, arm_vlm, Reward,
  Features, discovery_failed, action_failed, reward, new_model_router, record_hit, record_miss,
  phase_success, phase_failure, check_promotion, check_demotion, vlm_path, vlm_or, smart_success,
  smart_path, light_success, light_failure, try_light, cascade_execution, action_features, run_arm,
  settle_arm, bandit_guided_execution, count_action, dispatch, execute_action, execute_batch,
}

pub record Inv (r : ModelRouter) : Type 0 where
  pub light_counted : r.metrics.light_successes ≤ r.metrics.light_attempts
  pub smart_counted : r.metrics.smart_successes ≤ r.metrics.smart_attempts
  pub vlm_counted : r.metrics.vlm_successes ≤ r.metrics.vlm_attempts
  pub tier_standard : tier_index r.current_tier ≤ 2
  pub tier_counted : tier_index r.current_tier + r.metrics.demotions ≡ r.metrics.promotions
  pub threshold_pos : 0 < r.convergence.threshold
  pub converged_exact :
      r.convergence.converged ≡ leb r.convergence.threshold r.convergence.consecutive_hits
  pub hits_closed :
      0 < r.convergence.consecutive_hits → (r.breaker.state ≡ closed) × (r.breaker.failures ≡ 0)

new-Inv :
    (v : Bool) (t : Option ℤ) (p : Option PhaseTracker) (b : Bool) → Inv (new_model_router v t p b)
unfolding new_model_router DomBreaker.new_circuit_breaker
new-Inv v none p b = ground arith
new-Inv v (some t) p b = ground (arith, positive_or_pos 5 t)

phase_success-Inv :
    (t : ModelTier) (now : ℕ) (r : ModelRouter) → Inv r → Inv (phase_success t now r)
unfolding phase_success
phase_success-Inv t now r v = ground arith

phase_failure-Inv :
    (t : ModelTier) (now : ℕ) (r : ModelRouter) → Inv r → Inv (phase_failure t now r)
unfolding phase_failure
phase_failure-Inv t now r v = ground arith

check_promotion-Inv : (r : ModelRouter) → Inv r → Inv (check_promotion r)
unfolding check_promotion
check_promotion-Inv r v = ground arith

check_demotion-Inv : (r : ModelRouter) → Inv r → Inv (check_demotion r)
unfolding check_demotion
check_demotion-Inv r v = ground arith

vlm_path-Inv : (a : Answers) (now : ℕ) (r : ModelRouter) → Inv r → Inv (vlm_path a now r).0
unfolding vlm_path phase_success phase_failure
vlm_path-Inv a now r v = ground arith

vlm_or-Inv :
    (e : ActionError) (a : Answers) (now : ℕ) (r : ModelRouter) → Inv r → Inv (vlm_or e a now r).0
unfolding vlm_or
vlm_or-Inv e a now r v = ground (arith, vlm_path-Inv a now r v)

smart_success-Inv :
    (now : ℕ) (r : ModelRouter)
    → Inv r
    → r.metrics.smart_successes < r.metrics.smart_attempts
    → Inv (smart_success now r)
unfolding smart_success
smart_success-Inv now r v h = check_promotion-Inv _ (phase_success-Inv smart now _ (ground arith))

smart_path-Inv :
    (action : Action) (a : Answers) (now : ℕ) (r : ModelRouter)
    → Inv r
    → Inv (smart_path action a now r).0
unfolding smart_path
smart_path-Inv action a now r v =
    let asked = record r {
      metrics = record (r.metrics) { smart_attempts = r.metrics.smart_attempts + 1 };
    } in
    let w : Inv asked = ground arith in
    ground (
      arith,
      w,
      vlm_or-Inv discovery_failed a now _ (phase_failure-Inv smart now asked w),
      vlm_or-Inv action_failed a now _ (phase_failure-Inv light now asked w),
      smart_success-Inv now asked w (omega arith),
    )

light_success-Inv :
    (now : ℕ) (r : ModelRouter)
    → Inv r
    → r.metrics.light_successes < r.metrics.light_attempts
    → Inv (light_success now r)
unfolding light_success DomBreaker.record_success record_hit
light_success-Inv now r v h = check_demotion-Inv _ (phase_success-Inv light now _ (ground arith))

light_failure-Inv : (now : ℕ) (r : ModelRouter) → Inv r → Inv (light_failure now r)
unfolding light_failure record_miss
light_failure-Inv now r v = phase_failure-Inv light now _ (ground arith)

try_light-Inv :
    (action : Action) (a : Answers) (now : ℕ) (r : ModelRouter)
    → Inv r
    → Inv (try_light action a now r).0
unfolding try_light
try_light-Inv action a now r v =
    let tried = record r {
      metrics = record (r.metrics) { light_attempts = r.metrics.light_attempts + 1 };
    } in
    let w : Inv tried = ground arith in
    ground (
      arith,
      light_success-Inv now tried w (omega arith),
      smart_path-Inv action a now _ (light_failure-Inv now tried w),
    )

allow-Inv :
    (now : ℕ) (r : ModelRouter)
    → Inv r
    → Inv (record r { breaker = (DomBreaker.allow r.breaker now).0 })
unfolding DomBreaker.allow
allow-Inv now r v = ground arith

cascade-Inv :
    (action : Action) (a : Answers) (now : ℕ) (r : ModelRouter)
    → Inv r
    → Inv (cascade_execution action a now r).0
unfolding cascade_execution
cascade-Inv action a now r v =
    let w = allow-Inv now r v in
    ground (arith, try_light-Inv action a now _ w, smart_path-Inv action a now _ w)

run_arm-Inv :
    (m : Arm) (action : Action) (a : Answers) (now : ℕ) (r : ModelRouter)
    → Inv r
    → Inv (run_arm m action a now r).0
unfolding run_arm
run_arm-Inv arm_light action a now r v = cascade-Inv action a now r v
run_arm-Inv arm_smart action a now r v = smart_path-Inv action a now r v
run_arm-Inv arm_vlm action a now r v =
    ground (arith, vlm_path-Inv a now r v, smart_path-Inv action a now r v)

reward-Inv : (f : Features) (m : Arm) (b : Bool) (r : ModelRouter) → Inv r → Inv (reward f m b r)
reward-Inv f m b r v = ground arith

settle_arm-Inv :
    (f : Features) (m : Arm) (now : ℕ) (r : ModelRouter) (e : Option ActionError)
    → Inv r
    → Inv (settle_arm f m now (r, e)).0
unfolding settle_arm
settle_arm-Inv f m now r none v = phase_success-Inv _ now _ (reward-Inv f m true r v)
settle_arm-Inv f m now r (some x) v = phase_failure-Inv _ now _ (reward-Inv f m false r v)

bandit-Inv :
    (action : Action) (a : Answers) (now : ℕ) (r : ModelRouter)
    → Inv r
    → Inv (bandit_guided_execution action a now r).0
unfolding bandit_guided_execution action_features
bandit-Inv action a now r v =
    settle_arm-Inv _ a.arm now _ _ (run_arm-Inv a.arm action a now _ (allow-Inv now r v))

dispatch-Inv :
    (b : Option (List Reward)) (action : Action) (a : Answers) (now : ℕ) (r : ModelRouter)
    → Inv r
    → Inv (dispatch b action a now r).0
unfolding dispatch
dispatch-Inv none action a now r v = cascade-Inv action a now r v
dispatch-Inv (some log) action a now r v = bandit-Inv action a now r v

count_action-Inv : (ms : ℕ) (r : ModelRouter) → Inv r → Inv (count_action ms r)
unfolding count_action
count_action-Inv ms r v = ground arith

execute_action-Inv :
    (action : Action) (a : Answers) (now ms : ℕ) (r : ModelRouter)
    → Inv r
    → Inv (execute_action action a now ms r).0
unfolding execute_action
execute_action-Inv action a now ms r v =
    count_action-Inv ms _ (dispatch-Inv r.bandit action a now r v)

batch-Inv : (r : ModelRouter) (qs : List Request) → Inv r → Inv (execute_batch r qs).0
unfolding execute_batch
batch-Inv r [] v = v
batch-Inv r (q ∷ qs) v =
    batch-Inv (execute_action q.action q.answers q.now q.elapsed_ms r).0 qs
      (execute_action-Inv q.action q.answers q.now q.elapsed_ms r v)

-- Whatever the options, the actions and the answers that a batch meets: each tier has at most as
-- many successes as attempts, the current tier stays among light, smart and vlm and is the number
-- of promotions less that of demotions, patterns have converged exactly when the light successes
-- in a row have reached a positive threshold, and while there are any the breaker is closed with
-- no failure.
pub batch-new-Inv :
    (v : Bool) (t : Option ℤ) (p : Option PhaseTracker) (b : Bool) (qs : List Request)
    → Inv (execute_batch (new_model_router v t p b) qs).0
batch-new-Inv v t p b qs = batch-Inv _ qs (new-Inv v t p b)
