-- ===== src/Maturity/Tests.antt =====
-- The theorems about pkg/uiauto/pattern_maturity_tracker.go at a tracker of two patterns.
use uiauto_framework.Prelude.{◌≡◌, refl, List, [], ◌∷◌, some, pos}
use uiauto_framework.Maturity.{
  new, testing, degraded, MaturityConfig, PatternMaturity, PatternMaturityTracker,
  new_pattern_maturity_tracker, get_maturity, Use, succeeded, failed, step, run,
}
use uiauto_framework.Maturity.Levels.{Earned, run-new-Earned}
use uiauto_framework.Maturity.Events.{Told, run-new-Told}

abbrev settings : MaturityConfig
settings = record {
  testing_successes = pos 1;
  stable_successes = pos 2;
  trusted_successes = pos 3;
  degraded_failures = pos 2;
}

abbrev uses : List Use
uses = succeeded "login" 1 ∷ failed "cart" 2 ∷ failed "cart" 3 ∷ failed "login" 4 ∷ []

abbrev used : PatternMaturityTracker
used = run (new_pattern_maturity_tracker settings) uses

abbrev login : PatternMaturity
login = record {
  pattern_id = "login";
  level = testing;
  total_successes = 1;
  total_failures = 1;
  consecutive_failures = 1;
  consecutive_successes = 0;
  last_used = 4;
  created_at = 1;
}

login_seen : get_maturity used "login" ≡ some login
unfolding get_maturity run step uiauto_framework.Prelude.Text.lookup
    uiauto_framework.Maturity.record_failure uiauto_framework.Prelude.Text.insert
    uiauto_framework.Maturity.record_success new_pattern_maturity_tracker
    uiauto_framework.Maturity.fail uiauto_framework.Maturity.succeed
    uiauto_framework.Maturity.fresh_pattern
login_seen = refl

run-new-Earned_example : Earned settings login
run-new-Earned_example = run-new-Earned settings uses "login" login login_seen

run-new-Told_example : Told "cart" used
run-new-Told_example = run-new-Told settings uses "cart"
