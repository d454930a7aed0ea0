-- ===== src/Workflow/Order.antt =====
-- `TopologicalSort` of pkg/evolver/workflow_graph.go as a whole.
use mathlib.Core.List.{append-nil}
use mathlib.Core.Path.{subst}
use text.Mathlib.TextEquality.{eq_iff}
use uiauto_framework.Prelude.{
  ℕ, zero, suc, ◌<◌, ◌≡◌, refl, ap, sym, ◌∙◌, ◌⊎◌, inl, inr, Bool, true, false, ◌&&◌, List, [], ◌∷◌,
  String, arith, length, Bool-cases, ◌==◌, some, keep_if,
}
use uiauto_framework.Workflow.{
  WorkflowEdge, WorkflowGraph, ok, err, cycle, keys, in_degrees, targets, sort_fuel, sorted,
  check_order, topological_sort,
}
use uiauto_framework.Names.{mem, Distinct, length-le_of_mem}
use uiauto_framework.Workflow.WellFormed.{EdgesIn, IsWellFormed}
use uiauto_framework.Workflow.Kahn.{
  Inv, AllNodes, Before, SourcesIn, Finished, kahn-Finished, in_degrees_lem, open_in-SourcesIn,
  count_name_nil,
}

mem-keep_if :
    (p : String → Bool) (v : String) (xs : List String) → mem v (keep_if p xs) ≡ (mem v xs && p v)
mem-keep_if p v [] = refl
mem-keep_if p v (x ∷ xs) = ground (arith, mem-keep_if p v xs, eq_iff v x)

Distinct-keep_if : (p : String → Bool) (xs : List String) → Distinct xs → Distinct (keep_if p xs)
Distinct-keep_if p [] d = tt
Distinct-keep_if p (x ∷ xs) d = ground (arith, mem-keep_if p x xs, Distinct-keep_if p xs d.1, d.0)

targets-AllNodes :
    (ids : List String) (es : List WorkflowEdge) (u : String)
    → EdgesIn ids es
    → AllNodes ids (targets es u)
unfolding targets
targets-AllNodes ids [] u h = tt
targets-AllNodes ids (e ∷ es) u h = ground (arith, targets-AllNodes ids es u h.3, h.1)

start-Inv :
    (es : List WorkflowEdge) (ids : List String)
    → Distinct ids
    → let d = in_degrees es (λ v. 0) in Inv es ids [] (keep_if (λ v. d v == 0) ids) d []
start-Inv es ids distinct =
    let d = in_degrees es (λ v. 0) in
    record {
      degree = λ v. omega (arith, in_degrees_lem es (λ w. 0) v, count_name_nil v);
      ready = λ v h. ground (arith, mem-keep_if (λ w. d w == 0) v ids, h);
      nodes_only = λ v h. ground (arith, mem-keep_if (λ w. d w == 0) v ids, h);
      distinct = Distinct-keep_if (λ v. d v == 0) ids distinct;
    }

sorted-Finished :
    (g : WorkflowGraph)
    → IsWellFormed g
    → (final : List String) × (sorted g ≡ some final) × Finished g.edges (keys g.nodes) final
unfolding sorted sort_fuel
sorted-Finished g w =
    let ids = keys g.nodes in
    let d = in_degrees g.edges (λ v. 0) in
    kahn-Finished g.edges ids (length ids) d (keep_if (λ v. d v == 0) ids) []
      (λ u. targets-AllNodes ids g.edges u w.edges_in) (start-Inv g.edges ids w.distinct) tt
      (omega arith)

-- In a well-formed graph the loop ends by its test for every order in which the nodes are visited,
-- so the sort returns an order or the cycle error, and no other result.
pub topological_sort_total :
    (g : WorkflowGraph)
    → IsWellFormed g
    → ((order : List String) × (topological_sort g ≡ some (ok order)))
      ⊎ (topological_sort g ≡ some (err cycle))
unfolding topological_sort
topological_sort_total g w =
    let (final, run, done) = sorted-Finished g w in
    elim (Bool-cases (length final == length (keys g.nodes))) [
      | inl e ↦ inl (final, ap (check_order g) run ∙ ap some (rw e))
      | inr n ↦ inr (ap (check_order g) run ∙ ap some (rw n))
    ]

-- An order that is as long as the list of nodes has them all.
has_all :
    (ids order : List String)
    → Distinct order
    → ((v : String) → mem v order ≡ true → mem v ids ≡ true)
    → length order ≡ length ids
    → (v : String) → mem v ids ≡ true
    → mem v order ≡ true
has_all ids order d sub n v h = elim (Bool-cases (mem v order)) [
  | inl there ↦ there
  | inr missing ↦ absurd (
      omega (
        arith,
        length-le_of_mem (v ∷ order) ids (missing, d)
            (λ x k. ground (arith, sub x, k, h, eq_iff x v)),
      ))
]

same_bool : (a b : Bool) → (a ≡ true → b ≡ true) → (b ≡ true → a ≡ true) → a ≡ b
same_bool true b f g = sym (f refl)
same_bool false true f g = g refl
same_bool false false f g = refl

ok_order :
    (g : WorkflowGraph) (final order : List String)
    → check_order g (some final) ≡ some (ok order)
    → (order ≡ final) × (length final ≡ length (keys g.nodes))
unfolding check_order
ok_order g final order h = ground (arith, h)

-- An order that the sort of a well-formed graph returns has every node of the graph once and
-- nothing else, and every node comes after the sources of all its edges.
pub topological_sort_sound :
    (g : WorkflowGraph) (order : List String)
    → IsWellFormed g
    → topological_sort g ≡ some (ok order)
    → Distinct order × ((v : String) → mem v order ≡ mem v (keys g.nodes)) × Before g.edges [] order
unfolding topological_sort
topological_sort_sound g order w h =
    let (final, run, done) = sorted-Finished g w in
    let (same, long) = ok_order g final order (sym (ap (check_order g) run) ∙ h) in
    let distinct : Distinct final = subst Distinct (append-nil final) done.inv.distinct in
    let within : (v : String) → mem v final ≡ true → mem v (keys g.nodes) ≡ true =
      λ v k. done.inv.nodes_only v (rw (append-nil final) k) in
    rw same (
      distinct,
      λ v. same_bool _ _ (within v) (has_all (keys g.nodes) final distinct within long v),
      done.before,
    )

-- A numbering of the names that grows along every edge.
abbrev Ranks : (String → ℕ) → List WorkflowEdge → Type 0
Ranks rank [] = Unit {0}
Ranks rank (e ∷ es) = (rank e.from < rank e.to) × Ranks rank es

-- If all nodes of lesser rank are in the order, so are the sources of the edges into `v`.
lesser_sources :
    (rank : String → ℕ) (ids order : List String) (es : List WorkflowEdge) (v : String)
    → Ranks rank es
    → EdgesIn ids es
    → ((u : String) → mem u ids ≡ true → rank u < rank v → mem u order ≡ true)
    → SourcesIn es order v
lesser_sources rank ids order [] v r i low = tt
lesser_sources rank ids order (e ∷ es) v r i low = (
  λ t. low e.from i.0 (rw (← (eq_iff e.to v).0 t) r.0),
  lesser_sources rank ids order es v r.1 i.3 low,
)

module _ (rank : String → ℕ) (g : WorkflowGraph) (final : List String) (w : IsWellFormed g)
    (r : Ranks rank g.edges) (done : Finished g.edges (keys g.nodes) final) where
  ranked_in : (n : ℕ) (v : String) → rank v < n → mem v (keys g.nodes) ≡ true → mem v final ≡ true
  ranked_in zero v h k = absurd (omega arith)
  ranked_in (suc n) v h k =
      let sources =
        lesser_sources rank (keys g.nodes) final g.edges v r w.edges_in
          (λ u in_graph below. ranked_in n u (omega arith) in_graph) in
      ground (
        arith,
        done.inv.degree v,
        open_in-SourcesIn g.edges final v sources,
        count_name_nil v,
        done.inv.ready v k,
        append-nil final,
      )

-- A well-formed graph without a cycle, that is with a numbering of its nodes that grows along every
-- edge, has an order: the sort never reports a cycle there.
pub topological_sort_complete :
    (rank : String → ℕ) (g : WorkflowGraph)
    → IsWellFormed g
    → Ranks rank g.edges
    → (order : List String) × (topological_sort g ≡ some (ok order))
unfolding topological_sort check_order
topological_sort_complete rank g w r =
    let (final, run, done) = sorted-Finished g w in
    let distinct : Distinct final = subst Distinct (append-nil final) done.inv.distinct in
    let long : length final ≡ length (keys g.nodes) = omega (
      arith,
      length-le_of_mem final (keys g.nodes) distinct
          (λ v k. done.inv.nodes_only v (rw (append-nil final) k)),
      length-le_of_mem (keys g.nodes) final w.distinct
          (λ v k. ranked_in rank g final w r done (suc (rank v)) v (omega arith) k),
    ) in
    (final, ap (check_order g) run ∙ ground (arith, long))
