-- ===== src/Workflow/Metrics.antt =====
-- The run statistics of pkg/evolver/workflow_graph.go. An average is a fraction, and a latency and a
-- cost are whole numbers of small parts.
use mathlib.Core.Path.{subst}
use uiauto_framework.Workflow.{WorkflowGraph}
use uiauto_framework.Prelude.{
  ℕ, suc, ◌+◌, ◌-◌, ◌*◌, ◌<◌, ◌≡◌, refl, ap, ◌∙◌, Bool, List, [], ◌∷◌, Option, none, some, ◌==◌,
  if◌then◌else◌, length, count_if, arith,
}

pub record Fraction : Type 0 where
  pub num : ℕ
  pub den : ℕ

pub record WorkflowMetrics : Type 0 where
  pub total_runs : ℕ
  pub success_runs : ℕ
  pub failed_runs : ℕ
  pub avg_latency_ms : Fraction
  pub avg_cost : Fraction
  pub last_run_at : Option ℕ

abbrev pub no_runs : WorkflowMetrics
no_runs = record {
  total_runs = 0;
  success_runs = 0;
  failed_runs = 0;
  avg_latency_ms = record { num = 0; den = 1 };
  avg_cost = record { num = 0; den = 1 };
  last_run_at = none;
}

-- `(avg*(n-1) + x) / n`
pub average : ℕ → ℕ → Fraction → Fraction
average n x a = record { num = a.num * (n - 1) + x * a.den; den = a.den * n }

pub record Run : Type 0 where
  pub at : ℕ
  pub success : Bool
  pub latency : ℕ
  pub cost : ℕ

-- What `RecordRun` makes of the statistics.
pub record_run : Run → WorkflowMetrics → WorkflowMetrics
record_run r m =
    let n = m.total_runs + 1 in
    record {
      total_runs = n;
      success_runs = if r.success then m.success_runs + 1 else m.success_runs;
      failed_runs = if r.success then m.failed_runs else m.failed_runs + 1;
      avg_latency_ms = average n r.latency m.avg_latency_ms;
      avg_cost = average n r.cost m.avg_cost;
      last_run_at = some r.at;
    }

-- `RecordRun`
pub record_run_on : Run → WorkflowGraph × WorkflowMetrics → WorkflowGraph × WorkflowMetrics
record_run_on r (g, m) = (record g { updated_at = r.at }, record_run r m)

-- `SuccessRate`
pub success_rate : WorkflowMetrics → Fraction
success_rate m =
    if m.total_runs == 0
    then record { num = 0; den = 1 }
    else record { num = m.success_runs; den = m.total_runs }

pub record_all : List Run → WorkflowGraph × WorkflowMetrics → WorkflowGraph × WorkflowMetrics
record_all [] g = g
record_all (r ∷ rs) g = record_all rs (record_run_on r g)

unfoldable pub sum_of : (Run → ℕ) → List Run → ℕ
sum_of f [] = 0
sum_of f (r ∷ rs) = f r + sum_of f rs

-- The fraction is the sum of the runs divided by their number.
abbrev pub Mean : ℕ → ℕ → Fraction → Type 0
Mean n sum a = (0 < a.den) × (a.num * n ≡ sum * a.den)

average-Mean :
    (n sum x : ℕ) (a : Fraction) → Mean n sum a → Mean (suc n) (sum + x) (average (suc n) x a)
unfolding average
average-Mean n sum x a h =
    (grind (arith, h.0), ap (λ k. (a.num * k + x * a.den) * suc n) (omega arith) ∙ scaled)
  where
    scaled : (a.num * n + x * a.den) * suc n ≡ (sum + x) * (a.den * suc n)
    scaled = rw h.1 (grind arith)

-- What the statistics say of `n` runs, `s` of which succeeded.
pub record Tells (n s latencies costs : ℕ) (m : WorkflowMetrics) : Type 0 where
  pub total : m.total_runs ≡ n
  pub successes : m.success_runs ≡ s
  pub failures : m.success_runs + m.failed_runs ≡ n
  pub latency : Mean n latencies m.avg_latency_ms
  pub cost : Mean n costs m.avg_cost

record-Tells :
    (n s latencies costs : ℕ) (r : Run) (m : WorkflowMetrics)
    → Tells n s latencies costs m
    → Tells
        (suc n)
        (if r.success then suc s else s)
        (latencies + r.latency)
        (costs + r.cost)
        (record_run r m)
unfolding record_run
record-Tells n s latencies costs r m t = record {
  total = omega (arith, t.total);
  successes = ground (arith, t.successes);
  failures = ground (arith, t.failures);
  latency =
      rw t.total (rw⁻¹ plus_one (average-Mean n latencies r.latency m.avg_latency_ms t.latency));
  cost = rw t.total (rw⁻¹ plus_one (average-Mean n costs r.cost m.avg_cost t.cost));
}
  where
    plus_one : suc n ≡ n + 1
    plus_one = omega arith

retold-Tells :
    (n n' s s' l l' c c' : ℕ) (m : WorkflowMetrics)
    → n ≡ n'
    → s ≡ s'
    → l ≡ l'
    → c ≡ c'
    → Tells n s l c m
    → Tells n' s' l' c' m
retold-Tells n n' s s' l l' c c' m a b d e t =
    subst (λ k. Tells k s' l' c' m) a
      (subst (λ k. Tells n k l' c' m) b
        (subst (λ k. Tells n s k c' m) d (subst (λ k. Tells n s l k m) e t)))

all-Tells :
    (rs : List Run) (n s latencies costs : ℕ) (g : WorkflowGraph) (m : WorkflowMetrics)
    → Tells n s latencies costs m
    → Tells
        (n + length rs)
        (s + count_if (λ r. r.success) rs)
        (latencies + sum_of (λ r. r.latency) rs)
        (costs + sum_of (λ r. r.cost) rs)
        (record_all rs (g, m)).1
unfolding record_all record_run_on sum_of
all-Tells [] n s latencies costs g m t =
    retold-Tells _ _ _ _ _ _ _ _ m (omega arith) (omega arith) (omega arith) (omega arith) t
all-Tells (r ∷ rs) n s latencies costs g m t =
    retold-Tells _ _ _ _ _ _ _ _ _ (omega arith) (ground arith) (omega arith) (omega arith) (
      all-Tells rs _ _ _ _ (record g { updated_at = r.at }) (record_run r m)
        (record-Tells n s latencies costs r m t))

-- After any runs of a graph, the statistics have the numbers of its runs, of those that succeeded and
-- of those that failed, and the averages of latency and cost are the sums over the runs divided by
-- the number of runs.
pub record_all-Tells :
    (g : WorkflowGraph) (rs : List Run)
    → Tells
        (length rs)
        (count_if (λ r. r.success) rs)
        (sum_of (λ r. r.latency) rs)
        (sum_of (λ r. r.cost) rs)
        (record_all rs (g, no_runs)).1
record_all-Tells g rs =
    retold-Tells _ _ _ _ _ _ _ _ _ (omega arith) (omega arith) (omega arith) (omega arith) (
      all-Tells rs 0 0 0 0 g no_runs (record {
        total = refl;
        successes = refl;
        failures = omega arith;
        latency = (omega arith, omega arith);
        cost = (omega arith, omega arith);
      }))
