-- ===== src/Sequence.antt =====
-- pkg/uiauto/action/sequence.go: steps that are run in order, and rolled back in reverse when one
-- fails. What an action, given its timeout, or a rollback does to the world `W` is an argument, and
-- the time that it takes is part of its outcome. The caller's context is part of the world.
mod Rollback
mod Tests
use uiauto_framework.Prelude.{
  ℕ, zero, suc, ◌+◌, ◌-◌, ◌≡◌, Bool, true, false, List, [], ◌∷◌, ◌++◌, String, Option, none, some,
  get_elem?,
}

pub data Phase : Type 0 where
  setup execute verify teardown : Phase

pub data State : Type 0 where
  pending running completed failed rolled_back : State

pub record Outcome (W : Type 0) : Type 0 where
  pub world : W
  pub elapsed : ℕ
  pub err : Option String

pub record Step (W : Type 0) : Type 0 where
  pub name : String
  pub phase : Phase
  pub action : Option ℕ → W → Outcome W
  pub rollback : Option (W → Outcome W)
  pub timeout : ℕ

pub record StepResult : Type 0 where
  pub name : String
  pub phase : Phase
  pub duration : ℕ
  pub err : Option String

pub record Sequence (W : Type 0) : Type 0 where
  pub name : String
  pub steps : List (Step W)
  pub results : List StepResult
  pub state : State

-- The deadline that a step's context gets, if it has a timeout.
pub with_timeout : ℕ → Option ℕ
with_timeout zero = none
with_timeout (suc t) = some (suc t)

module _ {W : Type 0} where
  -- One turn of the loop of `rollback`; an error of a rollback is only logged.
  pub undo : Option (Step W) → W → W
  undo none w = w
  undo (some step) w = elim step.rollback [ none ↦ w | some back ↦ (back w).world ]

  -- The loop of `rollback`, from the step before index `n` down to the first.
  pub rollback : List (Step W) → ℕ → W → W
  rollback steps zero w = w
  rollback steps (suc i) w = rollback steps i (undo (get_elem? steps i) w)

  pub result_of : Step W → Outcome W → StepResult
  result_of step o = record {
    name = step.name;
    phase = step.phase;
    duration = o.elapsed;
    err = o.err;
  }

  -- The loop of `Run` from index `i`, where `rest` are the steps from there on.
  pub run_from : Sequence W → ℕ → List (Step W) → W → Sequence W × W × Option String
  run_from s i [] w = (record s { state = completed }, w, none)
  run_from s i (step ∷ rest) w =
      let o = step.action (with_timeout step.timeout) w in
      let t = record s { results = s.results ++ (result_of step o ∷ []) } in
      let next = run_from t (suc i) rest o.world in
      elim o.err [
        | none ↦ next
        | some e ↦ (record t { state = rolled_back }, rollback s.steps (suc i) o.world, some e)
      ]

  -- `Run`
  pub run : Sequence W → W → Sequence W × W × Option String
  run s w = run_from (record s { state = running; results = [] }) 0 s.steps w

pub total_duration : List StepResult → ℕ
total_duration [] = 0
total_duration (r ∷ rs) = r.duration + total_duration rs

pub failed_steps : List StepResult → List StepResult
failed_steps [] = []
failed_steps (r ∷ rs) = let rest = failed_steps rs in elim r.err [ none ↦ rest | some e ↦ r ∷ rest ]
