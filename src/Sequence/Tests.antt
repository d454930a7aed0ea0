-- ===== src/Sequence/Tests.antt =====
-- The theorems about pkg/uiauto/action/sequence.go at a sequence of two steps that add to a number, the
-- second of which fails.
use uiauto_framework.Prelude.{ℕ, ◌+◌, ◌-◌, ◌≡◌, refl, [], ◌∷◌, String, Option, none, some, arith}
use uiauto_framework.Sequence.{Outcome, Step, setup, pending, Sequence, run, undo, with_timeout}
use uiauto_framework.Sequence.Rollback.{run_restores}

abbrev adds : ℕ → Option String → Step ℕ
adds n err = record {
  name = "add";
  phase = setup;
  action = λ t w. record { world = w + n; elapsed = 1; err = err };
  rollback = some (λ w. record { world = w - n; elapsed = 1; err = none });
  timeout = 5;
}

abbrev twice : Sequence ℕ
twice = record {
  name = "twice";
  steps = adds 2 none ∷ adds 3 (some "full") ∷ [];
  results = [];
  state = pending;
}

run_restores_example : (run twice 7).1 ≡ 7
unfolding run undo with_timeout uiauto_framework.Sequence.run_from
run_restores_example =
    run_restores twice 7 "full" ((λ w. omega arith), ((λ w. omega arith), tt)) refl
