-- ===== src/Workflow/Tests.antt =====
-- The theorems about pkg/evolver/workflow_graph.go at a graph of three agents.
use uiauto_framework.Prelude.{
  ℕ, ◌≡◌, refl, inr, List, [], ◌∷◌, String, arith, none, some, ◌⊎◌, str_eq, if◌then◌else◌,
}
use uiauto_framework.Workflow.{
  WorkflowNode, WorkflowEdge, WorkflowGraph, Result, ok, err, cycle, node_missing,
  new_workflow_graph, add_node, add_edge, remove_node, topological_sort, keys,
}
use uiauto_framework.Workflow.Metrics.{Run, no_runs, sum_of, record_all, Tells, record_all-Tells}
use uiauto_framework.Prelude.{true, false}
use uiauto_framework.Workflow.Kahn.{Before}
use uiauto_framework.Workflow.WellFormed.{IsWellFormed}
use uiauto_framework.Workflow.{GraphError}
use uiauto_framework.Workflow.Validate.{validate}
use uiauto_framework.Workflow.Valid.{IsRunnable, validate_lem}
use uiauto_framework.Workflow.Edits.{
  adds_node, adds_edge, removes_node, Edit, edits, edits-IsWellFormed,
}
use uiauto_framework.Workflow.Order.{
  topological_sort_total, topological_sort_sound, topological_sort_complete,
}

abbrev agent : String → WorkflowNode
agent id = record {
  id = id;
  name = "agent";
  agent_type = "scraper";
  prompt_template = "";
  tool_ids = [];
  model_tier = "fast";
  timeout = 5;
  config = none;
}

abbrev link : String → String → WorkflowEdge
link a b = record { from = a; to = b; condition = ""; data_mapping = none }

abbrev chain : WorkflowGraph
chain = record {
  id = "g";
  name = "chain";
  nodes = ("c", agent "c") ∷ ("a", agent "a") ∷ ("b", agent "b") ∷ [];
  edges = link "a" "b" ∷ link "b" "c" ∷ link "a" "c" ∷ [];
  entry_node_id = "a";
  created_at = 0;
  updated_at = 0;
}

chain-IsWellFormed : IsWellFormed chain
chain-IsWellFormed = record {
  distinct = (refl, (refl, (refl, tt)));
  keyed = (refl, refl, (refl, refl, (refl, refl, tt)));
  edges_in = (refl, refl, refl, (refl, refl, refl, (refl, refl, refl, tt)));
  entry_in = inr refl;
}

-- The graph with an edge back from the last agent.
abbrev loop : WorkflowGraph
loop = record chain { edges = link "c" "a" ∷ chain.edges }

loop_cycles : topological_sort loop ≡ some (err cycle)
unfolding topological_sort uiauto_framework.Workflow.kahn uiauto_framework.Workflow.in_degrees
    uiauto_framework.Workflow.bump
loop_cycles = refl

chain_sorted : topological_sort chain ≡ some (ok ("a" ∷ "b" ∷ "c" ∷ []))
unfolding topological_sort uiauto_framework.Workflow.kahn uiauto_framework.Workflow.in_degrees
    uiauto_framework.Workflow.bump uiauto_framework.Workflow.relax uiauto_framework.Workflow.targets
    uiauto_framework.Workflow.drop_one
chain_sorted = refl

abbrev rank : String → ℕ
rank v = if str_eq v "a" then 0 else if str_eq v "b" then 1 else 2

-- The entry node is removed, and another node takes its name.
abbrev changes : List Edit
changes = removes_node "a" 3 ∷ adds_node (agent "a") 4 ∷ adds_edge (link "c" "a") 5 ∷ []

edits-IsWellFormed_example :
    IsWellFormed (new_workflow_graph "g" "chain" 0) × IsWellFormed (edits chain changes)
edits-IsWellFormed_example = edits-IsWellFormed chain "g" "chain" 0 changes chain-IsWellFormed

topological_sort_total_example :
    ((order : List String) × (topological_sort chain ≡ some (ok order)))
    ⊎ (topological_sort chain ≡ some (err cycle))
topological_sort_total_example = topological_sort_total chain chain-IsWellFormed

topological_sort_sound_example : Before chain.edges [] ("a" ∷ "b" ∷ "c" ∷ [])
topological_sort_sound_example =
    (topological_sort_sound chain ("a" ∷ "b" ∷ "c" ∷ []) chain-IsWellFormed chain_sorted).2

topological_sort_complete_example :
    (order : List String) × (topological_sort chain ≡ some (ok order))
topological_sort_complete_example =
    topological_sort_complete rank chain chain-IsWellFormed (omega arith)

validate_lem_example :
    ((validate chain ≡ some none) × IsRunnable chain)
    ⊎ ((e : GraphError) × (validate chain ≡ some (some e)) × ¬ IsRunnable chain)
validate_lem_example = validate_lem chain chain-IsWellFormed

-- A run that succeeds and one that fails.
abbrev two_runs : List Run
two_runs =
    record { at = 5; success = true; latency = 30; cost = 2 }
    ∷ record { at = 9; success = false; latency = 50; cost = 4 }
    ∷ []

record_all-Tells_example :
    Tells 2 1 80 6 (record_all two_runs (new_workflow_graph "g" "G" 0, no_runs)).1
unfolding sum_of
record_all-Tells_example = record_all-Tells (new_workflow_graph "g" "G" 0) two_runs
