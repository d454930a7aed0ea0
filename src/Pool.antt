-- ===== src/Pool.antt =====
-- pkg/uiauto/parallel/pool.go: workers that take tasks from a channel and send their results to
-- another. A state has the tasks in the channel, those that a worker runs, and the results in the
-- order they were sent; which worker moves next, and what a task's function answers, is open.
mod Order
mod Tests
use uiauto_framework.Prelude.{
  ℕ, zero, suc, ◌+◌, ◌*◌, ◌<◌, ◌≡◌, Bool, true, false, List, [], ◌∷◌, ◌++◌, String, Option, none,
  some, ltb, if◌then◌else◌, length,
}

pub record Task : Type 0 where
  pub id : String
  pub name : String

pub record TaskResult : Type 0 where
  pub task_id : String
  pub name : String
  pub success : Bool
  pub error : String
  pub duration : ℕ

-- `NewPool` has four workers; `WithWorkers` ignores a count that is not positive.
abbrev pub default_workers : ℕ
default_workers = 4

pub with_workers : ℕ → ℕ → ℕ
with_workers n workers = if ltb 0 n then n else workers

pub record PoolState : Type 0 where
  pub slots : ℕ
  pub queue : List Task
  pub running : List Task
  pub results : List TaskResult

-- The loop that starts the workers, and the closed channel.
pub start : ℕ → List Task → PoolState
start workers tasks = record {
  slots = if ltb workers (length tasks) then workers else length tasks;
  queue = tasks;
  running = [];
  results = [];
}

pub result_of : Task → Option String → ℕ → TaskResult
result_of t none elapsed = record {
  task_id = t.id;
  name = t.name;
  success = true;
  error = "";
  duration = elapsed;
}
result_of t (some err) elapsed = record {
  task_id = t.id;
  name = t.name;
  success = false;
  error = err;
  duration = elapsed;
}

-- A free worker takes the next task, or a worker's function returns and its result is sent.
pub data Step : PoolState → PoolState → Type 0 where
  takes :
      {s : PoolState} (t : Task) (rest : List Task)
      → s.queue ≡ t ∷ rest
      → length s.running < s.slots
      → Step s (record s { queue = rest; running = t ∷ s.running })
  ends :
      {s : PoolState} (before after : List Task) (t : Task) (answer : Option String) (elapsed : ℕ)
      → s.running ≡ before ++ (t ∷ after)
      → Step s (record s {
        running = before ++ after;
        results = s.results ++ (result_of t answer elapsed ∷ []);
      })

pub data Reaches : PoolState → PoolState → Type 0 where
  here : (s : PoolState) → Reaches s s
  step : {s t u : PoolState} → Reaches s t → Step t u → Reaches s u

-- The counts and the total time of `Summary`.
pub record Summary : Type 0 where
  pub passed : ℕ
  pub failed : ℕ
  pub total : ℕ

pub summarize : List TaskResult → Summary
summarize [] = record { passed = 0; failed = 0; total = 0 }
summarize (r ∷ rs) =
    let s = summarize rs in
    if r.success
    then record s { passed = s.passed + 1; total = r.duration + s.total }
    else record s { failed = s.failed + 1; total = r.duration + s.total }
