-- ===== src/DomBreaker/Tests.antt =====
-- The theorems about pkg/domheal/circuit_breaker.go at a breaker of two failures and ten seconds.
use uiauto_framework.Prelude.{◌≡◌, List, [], ◌∷◌, pos}
use uiauto_framework.DomBreaker.{CircuitBreaker, new_circuit_breaker, Call, succeeds, fails, run}
use uiauto_framework.DomBreaker.Machine.{run-new-Agrees, streak}

abbrev history : List Call
history = fails 1 ∷ succeeds ∷ fails 2 ∷ fails 3 ∷ []

abbrev opened : CircuitBreaker
opened = run (new_circuit_breaker (pos 2) (pos 10)) history

run-new-Agrees_example : opened.failures ≡ streak 0 history
run-new-Agrees_example = (run-new-Agrees (pos 2) (pos 10) history).0
