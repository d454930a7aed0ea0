-- ===== src/Phase.antt =====
-- The pattern-learning phases of pkg/uiauto/model_router.go (`PhaseTracker`). The clock is an
-- argument; the mutex makes each method one step.
pub mod Machine
mod History
mod Tests
use uiauto_framework.Prelude.{
  ℕ, ◌+◌, Bool, true, false, ◌&&◌, List, [], ◌∷◌, ◌++◌, String, Option, none, some, ℤ, positive_or,
  leb, if◌then◌else◌, length,
}
use uiauto_framework.Tiers.{ModelTier, light, smart, vlm}

pub data PatternPhase : Type 0 where
  discovery cruise escalation : PatternPhase

phase_string : PatternPhase → String
phase_string discovery = "discovery"
phase_string cruise = "cruise"
phase_string escalation = "escalation"

pub record PhaseTransition : Type 0 where
  pub from : PatternPhase
  pub to : PatternPhase
  pub reason : String
  pub timestamp : ℕ

pub record PhaseTracker : Type 0 where
  pub current_phase : PatternPhase
  pub phase_history : List PhaseTransition
  pub phase_entered_at : PatternPhase → Option ℕ
  pub discovery_threshold : ℕ
  pub cruise_threshold : ℕ
  pub escalation_trigger : ℕ
  pub consecutive_smart : ℕ
  pub consecutive_light_fail : ℕ
  pub consecutive_light_ok : ℕ
  pub last_light_failed : Bool
  pub discovery_entries : ℕ
  pub stable_entries : ℕ
  pub escalation_count : ℕ

unfoldable pub new_phase_tracker : ℤ → ℤ → ℤ → PhaseTracker
new_phase_tracker discover cruising escalate = record {
  current_phase = discovery;
  phase_history = [];
  phase_entered_at = λ p. none;
  discovery_threshold = positive_or 3 discover;
  cruise_threshold = positive_or 5 cruising;
  escalation_trigger = positive_or 3 escalate;
  consecutive_smart = 0;
  consecutive_light_fail = 0;
  consecutive_light_ok = 0;
  last_light_failed = false;
  discovery_entries = 0;
  stable_entries = 0;
  escalation_count = 0;
}

abbrev phase_eq : PatternPhase → PatternPhase → Bool
phase_eq discovery discovery = true
phase_eq cruise cruise = true
phase_eq escalation escalation = true
phase_eq _ _ = false

-- A write into the map of entry times.
pub enter : (PatternPhase → Option ℕ) → PatternPhase → ℕ → PatternPhase → Option ℕ
enter m to now p = if phase_eq p to then some now else m p

-- The `switch to` of `transition`.
count_entry : PatternPhase → PhaseTracker → PhaseTracker
count_entry discovery pt = record pt { discovery_entries = pt.discovery_entries + 1 }
count_entry cruise pt = record pt { stable_entries = pt.stable_entries + 1 }
count_entry escalation pt = record pt { escalation_count = pt.escalation_count + 1 }

-- Newest last, as in the source.
pub transition : PhaseTracker → PatternPhase → String → ℕ → PhaseTracker
unfolding count_entry
transition pt to reason now =
    let entry : PhaseTransition = record {
      from = pt.current_phase;
      to = to;
      reason = reason;
      timestamp = now;
    } in
    count_entry to (record pt {
      phase_history = pt.phase_history ++ entry ∷ [];
      current_phase = to;
      phase_entered_at = enter pt.phase_entered_at to now;
    })

-- The last case of the inner switch: `case tier == TierSmart`.
count_smart : PhaseTracker → ℕ → PhaseTracker
count_smart pt now =
    let counted = record pt {
      consecutive_smart = pt.consecutive_smart + 1;
      last_light_failed = false;
    } in
    if phase_eq counted.current_phase discovery
      && leb counted.discovery_threshold counted.consecutive_smart
    then transition counted cruise "discovery_threshold_smart_successes" now
    else counted

relearn : PhaseTracker → String → ℕ → PhaseTracker
relearn pt reason now = record (transition pt discovery reason now) { consecutive_smart = 0 }

-- The inner switch of `RecordSuccess`; `counted` is what its last case gives.
succeed_heavy : PatternPhase → PhaseTracker → PhaseTracker → ℕ → PhaseTracker
unfolding relearn
succeed_heavy escalation pt counted now = relearn pt "smart_or_vlm_success_after_escalation" now
succeed_heavy cruise pt counted now =
    if pt.last_light_failed
    then relearn pt "smart_success_after_light_failure_relearning" now
    else counted
succeed_heavy discovery pt counted now = counted

clear_light : PhaseTracker → PhaseTracker
clear_light pt = record pt { consecutive_light_fail = 0; consecutive_light_ok = 0 }

unfoldable pub record_success : PhaseTracker → ModelTier → ℕ → PhaseTracker
unfolding succeed_heavy count_smart clear_light
record_success pt light now = record pt {
  consecutive_light_fail = 0;
  consecutive_light_ok = pt.consecutive_light_ok + 1;
  last_light_failed = false;
}
record_success pt smart now =
    let base = clear_light pt in succeed_heavy base.current_phase base (count_smart base now) now
record_success pt vlm now =
    let base = clear_light pt in succeed_heavy base.current_phase base base now
record_success pt _ now = pt

unfoldable pub record_failure : PhaseTracker → ModelTier → ℕ → PhaseTracker
record_failure pt light now =
    let counted = record pt {
      consecutive_light_fail = pt.consecutive_light_fail + 1;
      consecutive_light_ok = 0;
      consecutive_smart = 0;
      last_light_failed = true;
    } in
    if phase_eq counted.current_phase cruise
      && leb counted.escalation_trigger counted.consecutive_light_fail
    then transition counted escalation "cruise_light_failures_escalation" now
    else counted
record_failure pt smart now = record pt {
  consecutive_smart = 0;
  consecutive_light_fail = pt.consecutive_light_fail + 1;
  last_light_failed = true;
}
record_failure pt vlm now = record pt {
  consecutive_smart = 0;
  consecutive_light_fail = pt.consecutive_light_fail + 1;
  last_light_failed = true;
}
record_failure pt _ now = pt

pub record PhaseStats : Type 0 where
  pub transition_count : ℕ
  pub discovery_entries : ℕ
  pub stable_entries : ℕ
  pub escalation_count : ℕ

-- `Stats` without the durations.
pub phase_stats : PhaseTracker → PhaseStats
phase_stats pt = record {
  transition_count = length pt.phase_history;
  discovery_entries = pt.discovery_entries;
  stable_entries = pt.stable_entries;
  escalation_count = pt.escalation_count;
}

-- An outcome of a tier, and its time.
pub data Outcome : Type 0 where
  succeeded failed : ModelTier → ℕ → Outcome

pub step : PhaseTracker → Outcome → PhaseTracker
step pt (succeeded t now) = record_success pt t now
step pt (failed t now) = record_failure pt t now

pub run : PhaseTracker → List Outcome → PhaseTracker
run pt [] = pt
run pt (o ∷ os) = run (step pt o) os
