-- ===== src/Phase/Tests.antt =====
-- The theorems about the phase tracker of pkg/uiauto/model_router.go at thresholds of two.
use uiauto_framework.Prelude.{List, [], ◌∷◌, pos, negsuc, none, false}
use uiauto_framework.Tiers.{light, smart, vlm}
use uiauto_framework.Phase.{
  discovery, PhaseTracker, new_phase_tracker, Outcome, succeeded, failed, run,
}
use uiauto_framework.Phase.History.{Faithful, phase_run-new-Faithful}

abbrev history : List Outcome
history =
    succeeded smart 1 ∷ succeeded smart 2 ∷ failed light 3 ∷ failed light 4 ∷ succeeded vlm 5 ∷ []

abbrev fresh : PhaseTracker
fresh = record {
  current_phase = discovery;
  phase_history = [];
  phase_entered_at = λ p. none;
  discovery_threshold = 2;
  cruise_threshold = 5;
  escalation_trigger = 2;
  consecutive_smart = 0;
  consecutive_light_fail = 0;
  consecutive_light_ok = 0;
  last_light_failed = false;
  discovery_entries = 0;
  stable_entries = 0;
  escalation_count = 0;
}

phase_run-new-Faithful_example :
    Faithful (run (new_phase_tracker (pos 2) (negsuc 0) (pos 2)) history)
phase_run-new-Faithful_example = phase_run-new-Faithful (pos 2) (negsuc 0) (pos 2) history
