-- ===== src/Workflow/Edits.antt =====
-- The edits of a workflow graph in pkg/evolver/workflow_graph.go keep it well formed.
use text.Mathlib.TextEquality.{eq_iff}
use uiauto_framework.Prelude.{
  ℕ, ◌≡◌, refl, sym, ◌∙◌, inl, inr, true, false, not, ◌&&◌, List, [], ◌∷◌, ◌++◌, String, str_eq,
  arith, Bool-cases, keep_if, Option,
}
use uiauto_framework.Workflow.{
  WorkflowNode, WorkflowEdge, WorkflowGraph, Result, ok, err, new_workflow_graph, made, has_key,
  node_missing, add_node, add_edge, delete_key, avoids, remove_node, keys,
}
use uiauto_framework.Names.{mem, mem-append, Distinct-append}
use uiauto_framework.Workflow.WellFormed.{
  IsWellFormed, has_key-mem, keys-append, KeyedById-append, EdgesIn-more, EdgesIn-append,
  mem-delete_key, Distinct-delete_key, KeyedById-delete_key, EdgesIn-delete_key,
}

-- The graph after an edit: a refused edit changes nothing.
abbrev pub after : WorkflowGraph → Result WorkflowGraph → WorkflowGraph
after g (ok g') = g'
after g (err e) = g

add_node_grows :
    (g : WorkflowGraph) (n : WorkflowNode) (c : Option (List (String × String))) (now : ℕ)
    → IsWellFormed g
    → str_eq n.id "" ≡ false
    → has_key n.id g.nodes ≡ false
    → IsWellFormed
        (record g { nodes = g.nodes ++ (n.id, record n { config = c }) ∷ []; updated_at = now })
add_node_grows g n c now w named fresh =
    let ks = keys-append g.nodes n.id (record n { config = c }) in
    record {
      distinct =
          rw ks (
            Distinct-append (keys g.nodes) n.id w.distinct
              (sym (has_key-mem n.id g.nodes) ∙ fresh));
      keyed =
          KeyedById-append g.nodes n.id (record n { config = c }) w.keyed
            ((eq_iff n.id n.id).1 refl) named;
      edges_in = rw ks (EdgesIn-more (keys g.nodes) n.id g.edges w.edges_in);
      entry_in =
          ground (arith, ks, w.entry_in, mem-append g.entry_node_id (keys g.nodes) (n.id ∷ []));
    }

add_node-IsWellFormed :
    (g : WorkflowGraph) (n : WorkflowNode) (now : ℕ)
    → IsWellFormed g
    → IsWellFormed (after g (add_node g n now))
unfolding add_node
add_node-IsWellFormed g n now w = ground (arith, add_node_grows g n (made n.config) now w)

add_edge-IsWellFormed :
    (g : WorkflowGraph) (e : WorkflowEdge) (now : ℕ)
    → IsWellFormed g
    → IsWellFormed (after g (add_edge g e now))
unfolding add_edge
add_edge-IsWellFormed g e now w = ground (
  arith,
  has_key-mem e.from g.nodes,
  has_key-mem e.to g.nodes,
  EdgesIn-append (keys g.nodes) g.edges (record e { data_mapping = made e.data_mapping })
      w.edges_in,
  w.distinct,
  w.keyed,
  w.entry_in,
)

remove_node-IsWellFormed :
    (g : WorkflowGraph) (id : String) (now : ℕ)
    → IsWellFormed g
    → IsWellFormed (after g (remove_node g id now))
unfolding remove_node
remove_node-IsWellFormed g id now w = ground (
  arith,
  Distinct-delete_key id g.nodes w.distinct,
  KeyedById-delete_key id g.nodes w.keyed,
  EdgesIn-delete_key id g.nodes g.edges w.edges_in,
  mem-delete_key g.entry_node_id id g.nodes,
  w.entry_in,
  w,
)

pub data Edit : Type 0 where
  adds_node : WorkflowNode → ℕ → Edit
  adds_edge : WorkflowEdge → ℕ → Edit
  removes_node : String → ℕ → Edit

abbrev pub edit : WorkflowGraph → Edit → WorkflowGraph
edit g (adds_node n now) = after g (add_node g n now)
edit g (adds_edge e now) = after g (add_edge g e now)
edit g (removes_node id now) = after g (remove_node g id now)

pub edits : WorkflowGraph → List Edit → WorkflowGraph
edits g [] = g
edits g (x ∷ xs) = edits (edit g x) xs

edit-IsWellFormed : (g : WorkflowGraph) (x : Edit) → IsWellFormed g → IsWellFormed (edit g x)
edit-IsWellFormed g (adds_node n now) w = add_node-IsWellFormed g n now w
edit-IsWellFormed g (adds_edge e now) w = add_edge-IsWellFormed g e now w
edit-IsWellFormed g (removes_node id now) w = remove_node-IsWellFormed g id now w

kept-IsWellFormed :
    (g : WorkflowGraph) (xs : List Edit) → IsWellFormed g → IsWellFormed (edits g xs)
unfolding edits
kept-IsWellFormed g [] w = w
kept-IsWellFormed g (x ∷ xs) w = kept-IsWellFormed (edit g x) xs (edit-IsWellFormed g x w)

new-IsWellFormed : (id name : String) (now : ℕ) → IsWellFormed (new_workflow_graph id name now)
unfolding new_workflow_graph
new-IsWellFormed id name now = record {
  distinct = tt;
  keyed = tt;
  edges_in = tt;
  entry_in = inl refl;
}

-- For a well-formed graph, whose callers may have set its entry node: whatever nodes and edges are
-- added and whatever nodes, the entry node included, are removed, with refused edits changing nothing,
-- the nodes have distinct ids, each stands under its own id, which is not empty, every edge joins two
-- different nodes of the graph, and the entry node, if one is set, is a node of the graph. What
-- `NewWorkflowGraph` gives is such a graph.
pub edits-IsWellFormed :
    (g : WorkflowGraph) (id name : String) (now : ℕ) (xs : List Edit)
    → IsWellFormed g
    → IsWellFormed (new_workflow_graph id name now) × IsWellFormed (edits g xs)
edits-IsWellFormed g id name now xs w = (new-IsWellFormed id name now, kept-IsWellFormed g xs w)

-- No edge starts or ends in `id`.
abbrev Untouched : String → List WorkflowEdge → Type 0
Untouched id [] = Unit {0}
Untouched id (e ∷ es) = (str_eq e.from id ≡ false) × (str_eq e.to id ≡ false) × Untouched id es

Untouched-avoids : (id : String) (es : List WorkflowEdge) → Untouched id (keep_if (avoids id) es)
unfolding avoids
Untouched-avoids id [] = tt
Untouched-avoids id (e ∷ es) = ground (arith, Untouched-avoids id es)

absent_name :
    (v id : String) (ws : List String)
    → mem id ws ≡ false
    → mem v ws ≡ (mem v ws && not (str_eq v id))
absent_name v id ws h = elim (Bool-cases (str_eq v id)) [
  | inl e ↦ rw ((eq_iff v id).0 e, h)
  | inr n ↦ rw n (ground arith)
]

removed_names :
    (g : WorkflowGraph) (id v : String) (now : ℕ)
    → mem v (keys (after g (remove_node g id now)).nodes)
      ≡ (mem v (keys g.nodes) && not (str_eq v id))
unfolding remove_node
removed_names g id v now =
    ground
      (arith, has_key-mem id g.nodes, mem-delete_key v id g.nodes, absent_name v id (keys g.nodes))

-- `RemoveNode` takes out exactly the node of that name. If there was one, no edge starts or ends
-- at it afterwards and the entry node is another one (or none); in every case a second removal
-- fails, since the node does not exist.
pub remove_node_lem :
    (g : WorkflowGraph) (id : String) (now later : ℕ)
    → let g' = after g (remove_node g id now) in
      ((v : String) → mem v (keys g'.nodes) ≡ (mem v (keys g.nodes) && not (str_eq v id)))
      × (mem id (keys g.nodes) ≡ true
          → str_eq id "" ≡ false
          → Untouched id g'.edges × (str_eq g'.entry_node_id id ≡ false))
      × (remove_node g' id later ≡ err node_missing)
unfolding remove_node
remove_node_lem g id now later = (
  λ v. removed_names g id v now,
  λ there named. ground (
    arith,
    has_key-mem id g.nodes,
    there,
    named,
    Untouched-avoids id g.edges,
    eq_iff "" id,
    eq_iff id "",
  ),
  ground (
    arith,
    has_key-mem id g.nodes,
    has_key-mem id (delete_key id g.nodes),
    mem-delete_key id id g.nodes,
    eq_iff id id,
  ),
)
