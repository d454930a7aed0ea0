-- ===== src/Router/State.antt =====
-- The state of the router of pkg/uiauto/model_router.go, and what its actions exchange with the
-- components around it.
use uiauto_framework.Prelude.{
  ℕ, ◌+◌, Bool, true, false, List, String, Option, ℤ, positive_or, leb, if◌then◌else◌,
}
use uiauto_framework.DomBreaker.{CircuitBreaker}
use uiauto_framework.Phase.{PhaseTracker}
use uiauto_framework.Tiers.{ModelTier, light, smart, vlm}

pub record RouterMetrics : Type 0 where
  pub light_attempts : ℕ
  pub light_successes : ℕ
  pub smart_attempts : ℕ
  pub smart_successes : ℕ
  pub vlm_attempts : ℕ
  pub vlm_successes : ℕ
  pub promotions : ℕ
  pub demotions : ℕ
  pub total_latency_ms : ℕ
  pub action_count : ℕ

pub record ConvergenceState : Type 0 where
  pub consecutive_hits : ℕ
  pub converged : Bool
  pub threshold : ℕ

unfoldable pub new_convergence_state : ℤ → ConvergenceState
new_convergence_state threshold = record {
  consecutive_hits = 0;
  converged = false;
  threshold = positive_or 5 threshold;
}

unfoldable pub record_hit : ConvergenceState → ConvergenceState
record_hit c =
    let hits = c.consecutive_hits + 1 in
    record c {
      consecutive_hits = hits;
      converged = if leb c.threshold hits then true else c.converged;
    }

unfoldable pub record_miss : ConvergenceState → ConvergenceState
record_miss c = record c { consecutive_hits = 0; converged = false }

-- `bandits.Arm` and `bandits.Features`, as far as the router reads and writes them.
pub data Arm : Type 0 where
  arm_light arm_smart arm_vlm : Arm

unfoldable pub arm_to_tier : Arm → ModelTier
arm_to_tier arm_smart = smart
arm_to_tier arm_vlm = vlm
arm_to_tier arm_light = light

unfoldable pub tier_to_arm : ModelTier → Arm
tier_to_arm smart = arm_smart
tier_to_arm vlm = arm_vlm
tier_to_arm _ = arm_light

pub record Features : Type 0 where
  pub selector_count : ℕ
  pub has_data_test_id : Bool
  pub previous_failures : ℕ

-- A call of `bandit.Update`: the features, the arm, and whether the reward was 1.
pub record Reward : Type 0 where
  pub features : Features
  pub arm : Arm
  pub earned : Bool

-- `has_vlm` is `vlmBridge != nil`, and `bandit` is `none` where the router has no bandit, else
-- the updates that the bandit was given, newest first.
pub record ModelRouter : Type 0 where
  pub breaker : CircuitBreaker
  pub convergence : ConvergenceState
  pub phase_tracker : Option PhaseTracker
  pub bandit : Option (List Reward)
  pub has_vlm : Bool
  pub metrics : RouterMetrics
  pub current_tier : ModelTier

pub record Action : Type 0 where
  pub target_id : String
  pub type : String

-- Whether each call succeeds: `lightExecutor.Execute` in the cascade, `CaptureDOM`,
-- `DiscoverScript` or `DiscoverSelector`, `RegisterPattern`, `Execute` after discovery,
-- `CaptureScreenshot` and `AnalyzeScreenshot`; and the arm that `SelectArm` returns.
pub record Answers : Type 0 where
  pub light_first : Bool
  pub dom_captured : Bool
  pub script_found : Bool
  pub selector_found : Bool
  pub registered : Bool
  pub light_again : Bool
  pub screenshot : Bool
  pub analyzed : Bool
  pub arm : Arm

pub data ActionError : Type 0 where
  dom_failed discovery_failed register_failed action_failed screenshot_failed vlm_failed :
      ActionError
