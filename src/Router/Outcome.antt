-- ===== src/Router/Outcome.antt =====
-- What an action of pkg/uiauto/model_router.go returns, and which models it asks.
use uiauto_framework.Prelude.{
  ℕ, ◌+◌, ◌≡◌, refl, Bool, true, false, ◌&&◌, ◌||◌, Option, none, arith, not,
}
use uiauto_framework.DomBreaker
use uiauto_framework.DomBreaker.{BreakerState, closed}
use uiauto_framework.Tiers.{light, smart}
use uiauto_framework.Router.{
  ModelRouter, Action, Answers, ActionError, discovery_failed, action_failed, phase_success,
  phase_failure, check_promotion, check_demotion, vlm_path, vlm_or, discovered, smart_success,
  succeeded, smart_path, light_success, light_failure, try_light, cascade_execution, count_action,
  dispatch, execute_action,
}
use uiauto_framework.Router.Invariant.{Inv}

-- The vision model reads a screenshot.
abbrev vision_works : Answers → Bool
vision_works a = a.screenshot && a.analyzed

-- Discovery finds a target, the target is stored, and the action then succeeds.
abbrev discovery_works : Action → Answers → Bool
discovery_works action a = discovered action a && a.registered && a.light_again

-- Where discovery does not work, the vision model is asked unless it was the store that failed.
abbrev smart_works : Bool → Action → Answers → Bool
smart_works has_vlm action a =
    a.dom_captured
    && (discovery_works action a
        || (has_vlm && vision_works a && (not (discovered action a) || a.registered)))

-- What a path changes: its result, the attempts of the three models, and the vision bridge kept.
pub record Effect (r : ModelRouter) (out : ModelRouter × Option ActionError) (ok : Bool)
    (lights smarts vlms : ℕ) : Type 0 where
  result : succeeded out.1 ≡ ok
  lights_made : out.0.metrics.light_attempts ≡ r.metrics.light_attempts + lights
  smarts_made : out.0.metrics.smart_attempts ≡ r.metrics.smart_attempts + smarts
  vlms_made : out.0.metrics.vlm_attempts ≡ r.metrics.vlm_attempts + vlms
  vlm_kept : out.0.has_vlm ≡ r.has_vlm

abbrev pub one_if : Bool → ℕ
one_if true = 1
one_if false = 0

vlm_path-Effect :
    (a : Answers) (now : ℕ) (r : ModelRouter) → Effect r (vlm_path a now r) (vision_works a) 0 0 1
unfolding vlm_path phase_success phase_failure
vlm_path-Effect a now r = ground arith

vlm_or-Effect :
    (e : ActionError) (a : Answers) (now : ℕ) (r : ModelRouter)
    → Effect r (vlm_or e a now r) (r.has_vlm && vision_works a) 0 0 (one_if r.has_vlm)
unfolding vlm_or
vlm_or-Effect e a now r = ground (arith, vlm_path-Effect a now r)

-- The vision model is asked when the page was captured and either nothing was found, or the
-- target found was stored and still failed.
abbrev asks_vision : Bool → Action → Answers → Bool
asks_vision has_vlm action a =
    has_vlm && a.dom_captured && (not (discovered action a) || (a.registered && not a.light_again))

smart_path-Effect :
    (action : Action) (a : Answers) (now : ℕ) (r : ModelRouter)
    → Effect r
        (smart_path action a now r)
        (smart_works r.has_vlm action a)
        0
        1
        (one_if (asks_vision r.has_vlm action a))
unfolding smart_path smart_success check_promotion phase_success phase_failure
smart_path-Effect action a now r =
    let asked = record r {
      metrics = record (r.metrics) { smart_attempts = r.metrics.smart_attempts + 1 };
    } in
    ground (
      arith,
      vlm_or-Effect discovery_failed a now (phase_failure smart now asked),
      vlm_or-Effect action_failed a now (phase_failure light now asked),
    )

light_failure_keeps :
    (now : ℕ) (r : ModelRouter)
    → ((light_failure now r).metrics ≡ r.metrics) × ((light_failure now r).has_vlm ≡ r.has_vlm)
unfolding light_failure phase_failure
light_failure_keeps now r = (refl, refl)

light_success_keeps :
    (now : ℕ) (r : ModelRouter)
    → ((light_success now r).metrics.light_attempts ≡ r.metrics.light_attempts)
      × ((light_success now r).metrics.smart_attempts ≡ r.metrics.smart_attempts)
      × ((light_success now r).metrics.vlm_attempts ≡ r.metrics.vlm_attempts)
      × ((light_success now r).has_vlm ≡ r.has_vlm)
unfolding light_success check_demotion phase_success
light_success_keeps now r = ground arith

try_light-Effect :
    (action : Action) (a : Answers) (now : ℕ) (r : ModelRouter)
    → Effect r
        (try_light action a now r)
        (a.light_first || smart_works r.has_vlm action a)
        1
        (one_if (not a.light_first))
        (one_if (not a.light_first && asks_vision r.has_vlm action a))
unfolding try_light
try_light-Effect action a now r =
    let tried = record r {
      metrics = record (r.metrics) { light_attempts = r.metrics.light_attempts + 1 };
    } in
    ground (
      arith,
      light_success_keeps now tried,
      light_failure_keeps now tried,
      smart_path-Effect action a now (light_failure now tried),
    )

-- The cascade without a bandit, with any answers: it asks the light executor exactly when the
-- breaker lets it, the smart path exactly when the light attempt was not made or failed, and the
-- vision model exactly when there is one and discovery found nothing or its target failed. It
-- succeeds exactly when the light attempt does, or discovery and its retry do, or else the vision
-- model, where it is asked, reads the screenshot. The router keeps its vision bridge, or stays
-- without one.
pub cascade-Effect :
    (action : Action) (a : Answers) (now : ℕ) (r : ModelRouter)
    → let lit = (DomBreaker.allow r.breaker now).1 in
      let served = lit && a.light_first in
      Effect r
        (cascade_execution action a now r)
        (served || smart_works r.has_vlm action a)
        (one_if lit)
        (one_if (not served))
        (one_if (not served && asks_vision r.has_vlm action a))
unfolding cascade_execution
cascade-Effect action a now r =
    let asked = record r { breaker = (DomBreaker.allow r.breaker now).0 } in
    ground (arith, try_light-Effect action a now asked, smart_path-Effect action a now asked)

converged_tries_light :
    (r : ModelRouter) (now : ℕ)
    → Inv r
    → r.convergence.converged ≡ true
    → DomBreaker.allow r.breaker now ≡ (r.breaker, true)
unfolding DomBreaker.allow
converged_tries_light r now v h = ground (arith, v.converged_exact, v.threshold_pos, v.hits_closed)

-- A router that has converged always tries the light executor next, and with no bandit, if that
-- attempt succeeds, the action succeeds with no smart and no vision call.
pub converged_light :
    (action : Action) (a : Answers) (now ms : ℕ) (r : ModelRouter)
    → Inv r
    → r.convergence.converged ≡ true
    → r.bandit ≡ none
    → let out = execute_action action a now ms r in
      (out.0.metrics.light_attempts ≡ r.metrics.light_attempts + 1)
      × (a.light_first ≡ true
          → (succeeded out.1 ≡ true)
            × (out.0.metrics.smart_attempts ≡ r.metrics.smart_attempts)
            × (out.0.metrics.vlm_attempts ≡ r.metrics.vlm_attempts))
unfolding execute_action dispatch count_action
converged_light action a now ms r v c b =
    ground (arith, converged_tries_light r now v c, cascade-Effect action a now r)
