-- ===== src/Workflow/Validate.antt =====
-- `Validate` and the depth-first search of pkg/evolver/workflow_graph.go. A set of visited nodes is
-- the list of them, the last one first.
use uiauto_framework.Prelude.{
  ℕ, zero, suc, Bool, true, false, not, ◌&&◌, List, [], ◌∷◌, String, str_eq, Option, none, some,
  length, ◌==◌, if◌then◌else◌,
}
use uiauto_framework.Workflow.{
  WorkflowEdge, WorkflowGraph, GraphError, no_nodes, entry_required, entry_missing,
  unreachable_node, Result, ok, err, has_key, keys, topological_sort,
}
use uiauto_framework.Names.{mem}

-- The loop of `dfsReachable` over the edges; `visit` is its recursive call.
unfoldable pub scan :
    (String → List String → Option (List String))
    → String
    → List WorkflowEdge
    → List String
    → Option (List String)
scan visit from [] visited = some visited
scan visit from (e ∷ es) visited = elim (str_eq e.from from && not (mem e.to visited)) [
  | false ↦ scan visit from es visited
  | true ↦ elim (visit e.to visited) [ none ↦ none | some visited' ↦ scan visit from es visited' ]
]

-- On fuel: `none` would mean that the fuel ran out.
unfoldable pub dfs_reachable : List WorkflowEdge → ℕ → String → List String → Option (List String)
dfs_reachable edges zero from visited = none
dfs_reachable edges (suc fuel) from visited =
    scan (dfs_reachable edges fuel) from edges (from ∷ visited)

-- The last loop of `Validate`.
unfoldable pub all_visited : List String → List String → Bool
all_visited [] visited = true
all_visited (id ∷ ids) visited = mem id visited && all_visited ids visited

abbrev pub check_reach : List String → Option (List String) → Option (Option GraphError)
check_reach ids none = none
check_reach ids (some visited) =
    some (if all_visited ids visited then none else some unreachable_node)

-- Each call visits one node more, so a call for each node is enough.
abbrev pub check_sorted : WorkflowGraph → Option (Result (List String)) → Option (Option GraphError)
check_sorted g none = none
check_sorted g (some (err e)) = some (some e)
check_sorted g (some (ok order)) =
    check_reach (keys g.nodes) (dfs_reachable g.edges (length (keys g.nodes)) g.entry_node_id [])

-- `some none` is a graph with no error.
unfoldable pub validate : WorkflowGraph → Option (Option GraphError)
validate g =
    if length (keys g.nodes) == 0
    then some (some no_nodes)
    else if str_eq g.entry_node_id ""
    then some (some entry_required)
    else if not (has_key g.entry_node_id g.nodes)
    then some (some entry_missing)
    else check_sorted g (topological_sort g)
