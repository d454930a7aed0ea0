-- ===== src/Workflow.antt =====
-- pkg/evolver/workflow_graph.go: a graph of agents, its edits and its execution order; its
-- validation is in Workflow/Validate. The clock is an argument, the mutex makes each method one step,
-- and the order of `Nodes` in the model is the order in which the Go runtime happens to visit the map.
mod WellFormed
mod Edits
mod Kahn
mod Order
mod Validate
mod Metrics
mod Search
mod Valid
mod Tests
use uiauto_framework.Prelude.{
  ℕ, zero, suc, ◌+◌, ◌-◌, Bool, true, false, not, ◌&&◌, ◌||◌, List, [], ◌∷◌, ◌++◌, map, String,
  str_eq, Option, none, some, lookup, insert, ◌==◌, if◌then◌else◌, length, keep_if,
}

pub record WorkflowNode : Type 0 where
  pub id : String
  pub name : String
  pub agent_type : String
  pub prompt_template : String
  pub tool_ids : List String
  pub model_tier : String
  pub timeout : ℕ
  pub config : Option (List (String × String))

pub record WorkflowEdge : Type 0 where
  pub from : String
  pub to : String
  pub condition : String
  pub data_mapping : Option (List (String × String))

pub record WorkflowGraph : Type 0 where
  pub id : String
  pub name : String
  pub nodes : List (String × WorkflowNode)
  pub edges : List WorkflowEdge
  pub entry_node_id : String
  pub created_at : ℕ
  pub updated_at : ℕ

pub data GraphError : Type 0 where
  node_id_required node_name_required node_exists edge_from_required edge_to_required : GraphError
  from_missing to_missing self_edge node_missing cycle no_nodes entry_required : GraphError
  entry_missing unreachable_node : GraphError

pub data Result {ℓ} (A : Type ℓ) : Type ℓ where
  ok : A → Result A
  err : GraphError → Result A

pub new_workflow_graph : String → String → ℕ → WorkflowGraph
new_workflow_graph id name now = record {
  id = id;
  name = name;
  nodes = [];
  edges = [];
  entry_node_id = "";
  created_at = now;
  updated_at = now;
}

-- A nil map becomes an empty one.
made : Option (List (String × String)) → Option (List (String × String))
made none = some []
made (some m) = some m

-- `_, ok := m[k]`
abbrev pub has_key {ℓ} : {V : Type ℓ} → String → List (String × V) → Bool
has_key k [] = false
has_key k ((j, v) ∷ m) = if str_eq j k then true else has_key k m

pub add_node : WorkflowGraph → WorkflowNode → ℕ → Result WorkflowGraph
unfolding made
add_node g n now =
    if str_eq n.id ""
    then err node_id_required
    else if str_eq n.name ""
    then err node_name_required
    else if has_key n.id g.nodes
    then err node_exists
    else ok (record g {
      nodes = g.nodes ++ (n.id, record n { config = made n.config }) ∷ [];
      updated_at = now;
    })

pub add_edge : WorkflowGraph → WorkflowEdge → ℕ → Result WorkflowGraph
unfolding made
add_edge g e now =
    if str_eq e.from ""
    then err edge_from_required
    else if str_eq e.to ""
    then err edge_to_required
    else if not (has_key e.from g.nodes)
    then err from_missing
    else if not (has_key e.to g.nodes)
    then err to_missing
    else if str_eq e.from e.to
    then err self_edge
    else ok (record g {
      edges = g.edges ++ record e { data_mapping = made e.data_mapping } ∷ [];
      updated_at = now;
    })

-- `delete(g.Nodes, id)`
pub delete_key {ℓ} : {V : Type ℓ} → String → List (String × V) → List (String × V)
delete_key k [] = []
delete_key k ((j, v) ∷ m) = let rest = delete_key k m in if str_eq j k then rest else (j, v) ∷ rest

pub avoids : String → WorkflowEdge → Bool
avoids id e = not (str_eq e.from id) && not (str_eq e.to id)

pub remove_node : WorkflowGraph → String → ℕ → Result WorkflowGraph
unfolding delete_key avoids
remove_node g id now =
    if has_key id g.nodes
    then ok (record g {
      nodes = delete_key id g.nodes;
      edges = keep_if (avoids id) g.edges;
      entry_node_id = if str_eq g.entry_node_id id then "" else g.entry_node_id;
      updated_at = now;
    })
    else err node_missing

abbrev pub keys {ℓ} : {V : Type ℓ} → List (String × V) → List String
keys [] = []
keys ((k, v) ∷ m) = k ∷ keys m

-- `inDegree[v]++` and `inDegree[v]--`
bump : (String → ℕ) → String → String → ℕ
bump d v w = if str_eq w v then d w + 1 else d w

drop_one : (String → ℕ) → String → String → ℕ
drop_one d v w = if str_eq w v then d w - 1 else d w

pub in_degrees : List WorkflowEdge → (String → ℕ) → String → ℕ
in_degrees [] d = d
in_degrees (e ∷ es) d = in_degrees es (bump d e.to)

-- `adj[u]`: the targets of the edges from `u`, in the order of the edges.
pub targets : List WorkflowEdge → String → List String
targets [] u = []
targets (e ∷ es) u = let rest = targets es u in if str_eq e.from u then e.to ∷ rest else rest

-- `for _, v := range adj[u]`: the degrees and the queue after it.
relax : List String → (String → ℕ) → List String → (String → ℕ) × List String
relax [] d queue = (d, queue)
relax (v ∷ vs) d queue =
    let d' = drop_one d v in relax vs d' (if d' v == 0 then queue ++ v ∷ [] else queue)

-- `for len(queue) > 0`, on fuel: `none` would mean that the fuel ran out.
pub kahn : List WorkflowEdge → ℕ → (String → ℕ) → List String → List String → Option (List String)
kahn es fuel d [] order = some order
kahn es zero d (u ∷ queue) order = none
kahn es (suc fuel) d (u ∷ queue) order =
    let (d', queue') = relax (targets es u) d queue in kahn es fuel d' queue' (order ++ u ∷ [])

-- Every node is put into the order at most once, so a round for each node is enough.
sort_fuel : WorkflowGraph → ℕ
sort_fuel g = length (keys g.nodes)

sorted : WorkflowGraph → Option (List String)
unfolding sort_fuel
sorted g =
    let d = in_degrees g.edges (λ v. 0) in
    kahn g.edges (sort_fuel g) d (keep_if (λ v. d v == 0) (keys g.nodes)) []

-- The last test of `TopologicalSort`.
check_order : WorkflowGraph → Option (List String) → Option (Result (List String))
check_order g none = none
check_order g (some order) =
    some (if length order == length (keys g.nodes) then ok order else err cycle)

pub topological_sort : WorkflowGraph → Option (Result (List String))
unfolding check_order sorted
topological_sort g = check_order g (sorted g)
