-- ===== src/Pool/Tests.antt =====
-- The theorems about pkg/uiauto/parallel/pool.go at two tasks and two workers, the second of which ends
-- first.
use uiauto_framework.Prelude.{
  ◌+◌, ◌<◌, ◌≤◌, ◌≡◌, refl, ◌⊎◌, List, [], ◌∷◌, ◌++◌, some, length, arith,
}
use uiauto_framework.Pool.{
  Task, PoolState, start, result_of, Step, takes, ends, Reaches, here, step,
}
use uiauto_framework.Pool.Order.{
  bag, task_ids, result_ids, remaining, steps, Done, reaches_keeps, reaches_proceeds,
}

abbrev one : Task
one = record { id = "1"; name = "one" }

abbrev two : Task
two = record { id = "2"; name = "two" }

abbrev both : List Task
both = one ∷ two ∷ []

-- The second task has failed, and the first one still runs.
abbrev middle : PoolState
middle = record {
  slots = 2;
  queue = [];
  running = one ∷ [];
  results = result_of two (some "late") 7 ∷ [];
}

reached : Reaches (start 2 both) middle
unfolding start
reached =
    step
      (step (step (here (start 2 both)) (takes one (two ∷ []) refl (omega arith)))
        (takes two [] refl (omega arith)))
      (ends [] (one ∷ []) two (some "late") 7 refl)

reaches_keeps_example :
    (length middle.running ≤ 2)
    × (length middle.running ≤ length both)
    × (bag (result_ids middle.results ++ (task_ids middle.running ++ task_ids middle.queue))
        ≡ bag (task_ids both))
reaches_keeps_example = reaches_keeps 2 both middle (omega arith) reached

reaches_proceeds_example :
    (steps reached + remaining middle ≡ 4)
    × (((remaining middle ≡ 0) × Done both middle)
        ⊎ ((0 < remaining middle) × ((t : PoolState) × Step middle t)))
reaches_proceeds_example = reaches_proceeds 2 both middle (omega arith) reached
