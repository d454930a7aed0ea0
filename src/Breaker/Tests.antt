-- ===== src/Breaker/Tests.antt =====
-- The theorems about pkg/uiauto/circuit_breaker.go at breakers with small settings.
use uiauto_framework.Prelude.{◌≡◌, refl, not, List, [], ◌∷◌, pos, negsuc, arith, count_if}
use uiauto_framework.Breaker.{
  RawConfig, Call, allows, succeeds, fails, new_circuit_breaker, run, window_failures,
}
use uiauto_framework.Breaker.Machine.{Inv}
use uiauto_framework.Breaker.Ring.{window_failures-run, latest, outcomes}
use uiauto_framework.Breaker.Runs.{run-new-Inv}

abbrev settings : RawConfig
settings = record {
  failure_threshold = pos 2;
  success_threshold = pos 2;
  open_duration = pos 10;
  half_open_max = negsuc 0;
  window_size = pos 0;
}

abbrev windowed : RawConfig
windowed = record settings { window_size = pos 3 }

abbrev history : List Call
history = fails 1 ∷ fails 2 ∷ allows 5 ∷ allows 12 ∷ succeeds 13 ∷ succeeds 14 ∷ fails 15 ∷ []

run-new-Inv_example : Inv (run (new_circuit_breaker "vlm" settings 0) history)
run-new-Inv_example = run-new-Inv "vlm" settings 0 history

window_failures-run_example :
    window_failures
      (run (new_circuit_breaker "vlm" windowed 0) history).recent_outcomes
      (run (new_circuit_breaker "vlm" windowed 0) history).outcomes_pushed
    ≡ count_if not (latest 3 (outcomes history))
window_failures-run_example = window_failures-run "vlm" windowed 3 0 history refl (omega arith)
