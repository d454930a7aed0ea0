-- ===== src/Phase/Machine.antt =====
-- One outcome, and outcomes in a row, in the phase machine of pkg/uiauto/model_router.go.
use uiauto_framework.Prelude.{
  ℕ, ◌+◌, ◌<◌, ◌≡◌, true, List, [], ◌∷◌, ◌++◌, ℤ, positive_or_pos, map, arith, length, leb,
  if◌then◌else◌,
}
use uiauto_framework.Tiers.{ModelTier, light, smart, vlm}
use uiauto_framework.Phase.{
  PatternPhase, discovery, cruise, escalation, PhaseTracker, new_phase_tracker, transition,
  record_success, record_failure, Outcome, succeeded, failed, step, run,
}

-- The smart and the vision tier.
pub data IsHeavy : ModelTier → Type 0 where
  smart_heavy : IsHeavy smart
  vlm_heavy : IsHeavy vlm

-- The edges of the phase diagram.
pub data Edge : PatternPhase → Outcome → PatternPhase → Type 0 where
  stay : {p : PatternPhase} {o : Outcome} → Edge p o p
  learned : (now : ℕ) → Edge discovery (succeeded smart now) cruise
  relearn_again : {t : ModelTier} (now : ℕ) → IsHeavy t → Edge cruise (succeeded t now) discovery
  escalated : (now : ℕ) → Edge cruise (failed light now) escalation
  recovered : {t : ModelTier} (now : ℕ) → IsHeavy t → Edge escalation (succeeded t now) discovery

ruleset edges = (stay, learned, relearn_again, escalated, recovered, smart_heavy, vlm_heavy)

-- Every outcome keeps the phase or follows an edge: cruise is reached by a smart success only,
-- escalation by a light failure in cruise only, and escalation is left for discovery only.
pub phase_step-Edge :
    (pt : PhaseTracker) (o : Outcome) → Edge pt.current_phase o (step pt o).current_phase
unfolding step record_success record_failure transition
phase_step-Edge pt (succeeded light now) = grind (arith, edges)
phase_step-Edge pt (succeeded smart now) = grind (arith, edges)
phase_step-Edge pt (succeeded vlm now) = grind (arith, edges)
phase_step-Edge pt (succeeded _ now) = stay
phase_step-Edge pt (failed light now) = grind (arith, edges)
phase_step-Edge pt (failed smart now) = stay
phase_step-Edge pt (failed vlm now) = stay
phase_step-Edge pt (failed _ now) = stay

pub record Inv (pt : PhaseTracker) : Type 0 where
  discovery_pos : 0 < pt.discovery_threshold
  trigger_pos : 0 < pt.escalation_trigger
  learning : pt.current_phase ≡ discovery → pt.consecutive_smart < pt.discovery_threshold
  failing : 0 < pt.consecutive_light_fail → pt.last_light_failed ≡ true

new-Inv : (d c e : ℤ) → Inv (new_phase_tracker d c e)
unfolding new_phase_tracker
new-Inv d c e = ground (arith, positive_or_pos 3 d, positive_or_pos 3 e)

step-Inv : (pt : PhaseTracker) (o : Outcome) → Inv pt → Inv (step pt o)
unfolding step record_success record_failure transition
step-Inv pt (succeeded light now) v = ground arith
step-Inv pt (succeeded smart now) v = ground arith
step-Inv pt (succeeded vlm now) v = ground arith
step-Inv pt (succeeded _ now) v = v
step-Inv pt (failed light now) v = ground arith
step-Inv pt (failed smart now) v = ground arith
step-Inv pt (failed vlm now) v = ground arith
step-Inv pt (failed _ now) v = v

run-Inv : (pt : PhaseTracker) (os : List Outcome) → Inv pt → Inv (run pt os)
unfolding run
run-Inv pt [] v = v
run-Inv pt (o ∷ os) v = run-Inv (step pt o) os (step-Inv pt o v)

-- From any tracker that `NewPhaseTracker` makes, after any outcomes: the thresholds are positive,
-- in discovery the smart successes in a row are below the discovery threshold, and a running
-- streak of failures is remembered as a failed light attempt.
pub phase_run-new-Inv : (d c e : ℤ) (os : List Outcome) → Inv (run (new_phase_tracker d c e) os)
phase_run-new-Inv d c e os = run-Inv _ os (new-Inv d c e)

pub smart_in_discovery :
    (pt : PhaseTracker) (now : ℕ)
    → pt.current_phase ≡ discovery
    → let pt' = record_success pt smart now in
      (pt'.consecutive_smart ≡ pt.consecutive_smart + 1)
      × (pt'.discovery_threshold ≡ pt.discovery_threshold)
      × (pt'.current_phase
          ≡ (if leb pt.discovery_threshold (pt.consecutive_smart + 1) then cruise else discovery))
unfolding record_success transition
smart_in_discovery pt now h = ground arith

-- In discovery, smart successes in a row keep the phase until their number reaches the discovery
-- threshold, and the success that reaches it starts the cruise.
pub discovery_ends :
    (pt : PhaseTracker) (ts : List ℕ) (t : ℕ)
    → pt.current_phase ≡ discovery
    → pt.consecutive_smart + length ts + 1 ≡ pt.discovery_threshold
    → ((run pt (map (succeeded smart) ts)).current_phase ≡ discovery)
      × ((run pt (map (succeeded smart) (ts ++ t ∷ []))).current_phase ≡ cruise)
unfolding run step
discovery_ends pt [] t h n = ground (arith, smart_in_discovery pt t h)
discovery_ends pt (s ∷ ts) t h n =
    ground (arith, smart_in_discovery pt s h, discovery_ends (record_success pt smart s) ts t)

light_failure_in_cruise :
    (pt : PhaseTracker) (now : ℕ)
    → pt.current_phase ≡ cruise
    → let pt' = record_failure pt light now in
      (pt'.consecutive_light_fail ≡ pt.consecutive_light_fail + 1)
      × (pt'.escalation_trigger ≡ pt.escalation_trigger)
      × (pt'.current_phase ≡ (
          if leb pt.escalation_trigger (pt.consecutive_light_fail + 1) then escalation else cruise))
unfolding record_failure transition
light_failure_in_cruise pt now h = ground arith

-- In cruise, light failures in a row keep the phase until their number reaches the escalation
-- trigger, and the failure that reaches it escalates.
pub cruise_ends :
    (pt : PhaseTracker) (ts : List ℕ) (t : ℕ)
    → pt.current_phase ≡ cruise
    → pt.consecutive_light_fail + length ts + 1 ≡ pt.escalation_trigger
    → ((run pt (map (failed light) ts)).current_phase ≡ cruise)
      × ((run pt (map (failed light) (ts ++ t ∷ []))).current_phase ≡ escalation)
unfolding run step
cruise_ends pt [] t h n = ground (arith, light_failure_in_cruise pt t h)
cruise_ends pt (s ∷ ts) t h n =
    ground (arith, light_failure_in_cruise pt s h, cruise_ends (record_failure pt light s) ts t)
