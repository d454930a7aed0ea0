-- ===== src/Workflow/Valid.antt =====
-- What `Validate` of pkg/evolver/workflow_graph.go accepts.
use mathlib.Core.Bool.{false≢true}
use text.Mathlib.TextEquality.{eq_iff}
use uiauto_framework.Prelude.{
  ◌≡◌, refl, ap, sym, ◌∙◌, ◌⊎◌, inl, inr, true, false, List, [], ◌∷◌, String, str_eq, none, some,
  arith, Bool-cases, length, ◌==◌, if◌then◌else◌,
}
use uiauto_framework.Workflow.{
  WorkflowGraph, GraphError, no_nodes, entry_required, entry_missing, unreachable_node, cycle, ok,
  keys, has_key, topological_sort,
}
use uiauto_framework.Names.{mem}
use uiauto_framework.Workflow.WellFormed.{IsWellFormed, has_key-mem}
use uiauto_framework.Workflow.Order.{topological_sort_total}
use uiauto_framework.Workflow.Validate.{all_visited, check_reach, check_sorted, validate}
use uiauto_framework.Workflow.Search.{Reach, dfs_reachable_lem}

-- The entry is a named node, the nodes have an order, and a path leads from the entry to each.
pub record IsRunnable (g : WorkflowGraph) : Type 0 where
  pub entry_named : str_eq g.entry_node_id "" ≡ false
  pub entry_in : mem g.entry_node_id (keys g.nodes) ≡ true
  pub ordered : (order : List String) × (topological_sort g ≡ some (ok order))
  pub connected : (v : String) → mem v (keys g.nodes) ≡ true → Reach g.edges g.entry_node_id v

all_visited_lem :
    (ids out : List String)
    → all_visited ids out ≡ true
    → (v : String) → mem v ids ≡ true
    → mem v out ≡ true
unfolding all_visited
all_visited_lem [] out h v m = cc
all_visited_lem (id ∷ ids) out h v m = elim (Bool-cases (str_eq v id)) [
  | inl own ↦ ap (λ (w : String). mem w out) ((eq_iff v id).0 own) ∙ ground (arith, h)
  | inr other ↦ all_visited_lem ids out (ground (arith, h)) v (ground (arith, m, other))
]

all_visited_of :
    (ids out : List String)
    → ((v : String) → mem v ids ≡ true → mem v out ≡ true)
    → all_visited ids out ≡ true
unfolding all_visited
all_visited_of [] out h = refl
all_visited_of (id ∷ ids) out h =
    ground (arith, all_visited_of ids out (λ v m. h v (ground (arith, m))), h id, eq_iff id id)

-- `Validate` after the sort has given an order.
check_order_lem :
    (g : WorkflowGraph)
    → IsWellFormed g
    → (order : List String) → topological_sort g ≡ some (ok order)
    → str_eq g.entry_node_id "" ≡ false
    → mem g.entry_node_id (keys g.nodes) ≡ true
    → ((check_sorted g (topological_sort g) ≡ some none) × IsRunnable g)
      ⊎ ((check_sorted g (topological_sort g) ≡ some (some unreachable_node)) × ¬ IsRunnable g)
check_order_lem g w order sorted named inside =
    let ids = keys g.nodes in
    let (out, e, sound, complete) =
      dfs_reachable_lem ids g.edges g.entry_node_id w.edges_in inside in
    let checks : check_sorted g (topological_sort g)
        ≡ some (if all_visited ids out then none else some unreachable_node) =
      ap (check_sorted g) sorted ∙ ap (check_reach ids) e in
    elim (Bool-cases (all_visited ids out)) [
      | inl all ↦ inl (
        checks ∙ rw all refl,
        record {
          entry_named = named;
          entry_in = inside;
          ordered = (order, sorted);
          connected = λ v m. sound v (all_visited_lem ids out all v m);
        },
      )
      | inr some_missing ↦ inr (
        checks ∙ rw some_missing refl,
        λ r.
            false≢true
              (sym some_missing ∙ all_visited_of ids out (λ v m. complete v (r.connected v m))),
      )
    ]

-- The last branch of `Validate`, where the entry is a node.
check_sorted_lem :
    (g : WorkflowGraph)
    → IsWellFormed g
    → str_eq g.entry_node_id "" ≡ false
    → mem g.entry_node_id (keys g.nodes) ≡ true
    → ((check_sorted g (topological_sort g) ≡ some none) × IsRunnable g)
      ⊎ ((e : GraphError) × (check_sorted g (topological_sort g) ≡ some (some e)) × ¬ IsRunnable g)
check_sorted_lem g w named inside = elim (topological_sort_total g w) [
  | inl (order, sorted) ↦ elim (check_order_lem g w order sorted named inside) [
    | inl good ↦ inl good
    | inr (e, bad) ↦ inr (unreachable_node, e, bad)
  ]
  | inr cyclic ↦
      inr (cycle, ap (check_sorted g) cyclic, λ r. ground (arith, sym cyclic ∙ r.ordered.1))
]

keys_of_mem :
    (g : WorkflowGraph) (v : String)
    → mem v (keys g.nodes) ≡ true
    → (length (keys g.nodes) == 0) ≡ false
keys_of_mem g v h = go (keys g.nodes) h
  where
    go : (ids : List String) → mem v ids ≡ true → (length ids == 0) ≡ false
    go [] h = cc
    go (id ∷ ids) h = ground arith

-- For a well-formed graph `Validate` ends, and it reports no error exactly when the entry is a named
-- node, the nodes have an order, and a path of edges leads from the entry to every node.
pub validate_lem :
    (g : WorkflowGraph)
    → IsWellFormed g
    → ((validate g ≡ some none) × IsRunnable g)
      ⊎ ((e : GraphError) × (validate g ≡ some (some e)) × ¬ IsRunnable g)
unfolding validate
validate_lem g w = elim (Bool-cases (length (keys g.nodes) == 0)) [
  | inl empty ↦ rw empty (
      inr
        (no_nodes, refl, λ r. false≢true (sym (keys_of_mem g g.entry_node_id r.entry_in) ∙ empty)))
  | inr nodes ↦ rw nodes (elim (Bool-cases (str_eq g.entry_node_id "")) [
    | inl unnamed ↦
        rw unnamed (inr (entry_required, refl, λ r. false≢true (sym r.entry_named ∙ unnamed)))
    | inr named ↦ rw named (elim (Bool-cases (has_key g.entry_node_id g.nodes)) [
      | inl inside ↦
          rw inside
            (check_sorted_lem g w named (sym (has_key-mem g.entry_node_id g.nodes) ∙ inside))
      | inr outside ↦ rw outside (
          inr (
            entry_missing,
            refl,
            λ r. false≢true (sym outside ∙ has_key-mem g.entry_node_id g.nodes ∙ r.entry_in),
          ))
    ])
  ])
]
