-- ===== src/Workflow/WellFormed.antt =====
-- Well-formed workflow graphs, for pkg/evolver/workflow_graph.go.
use text.Mathlib.TextEquality.{eq_iff}
use uiauto_framework.Prelude.{
  ◌≡◌, refl, ap, ◌⊎◌, true, false, not, ◌&&◌, List, [], ◌∷◌, ◌++◌, String, str_eq, arith, keep_if,
}
use uiauto_framework.Workflow.{
  WorkflowNode, WorkflowEdge, WorkflowGraph, has_key, delete_key, avoids, keys,
}
use uiauto_framework.Names.{mem, Distinct, mem-append}

-- Every edge joins two different nodes of the graph.
abbrev pub EdgesIn : List String → List WorkflowEdge → Type 0
EdgesIn ids [] = Unit {0}
EdgesIn ids (e ∷ es) =
    (mem e.from ids ≡ true) × (mem e.to ids ≡ true) × (str_eq e.from e.to ≡ false) × EdgesIn ids es

-- Each node stands under its own id, which is not empty.
abbrev pub KeyedById : List (String × WorkflowNode) → Type 0
KeyedById [] = Unit {0}
KeyedById ((k, n) ∷ m) = (str_eq n.id k ≡ true) × (str_eq k "" ≡ false) × KeyedById m

pub record IsWellFormed (g : WorkflowGraph) : Type 0 where
  pub distinct : Distinct (keys g.nodes)
  pub keyed : KeyedById g.nodes
  pub edges_in : EdgesIn (keys g.nodes) g.edges
  pub entry_in : (g.entry_node_id ≡ "") ⊎ (mem g.entry_node_id (keys g.nodes) ≡ true)

pub has_key-mem {ℓ} :
    {V : Type ℓ} (k : String) (m : List (String × V)) → has_key k m ≡ mem k (keys m)
has_key-mem k [] = refl
has_key-mem k ((j, v) ∷ m) = ground (arith, has_key-mem k m, eq_iff j k, eq_iff k j)

pub keys-append {ℓ} :
    {V : Type ℓ} (m : List (String × V)) (k : String) (v : V)
    → keys (m ++ (k, v) ∷ []) ≡ keys m ++ k ∷ []
keys-append [] k v = refl
keys-append ((j, w) ∷ m) k v = ap (◌∷◌ j) (keys-append m k v)

pub KeyedById-append :
    (m : List (String × WorkflowNode)) (k : String) (n : WorkflowNode)
    → KeyedById m
    → str_eq n.id k ≡ true
    → str_eq k "" ≡ false
    → KeyedById (m ++ (k, n) ∷ [])
KeyedById-append [] k n h i e = (i, e, tt)
KeyedById-append ((j, w) ∷ m) k n h i e = (h.0, h.1, KeyedById-append m k n h.2 i e)

pub EdgesIn-more :
    (ids : List String) (k : String) (es : List WorkflowEdge)
    → EdgesIn ids es
    → EdgesIn (ids ++ k ∷ []) es
EdgesIn-more ids k [] h = tt
EdgesIn-more ids k (e ∷ es) h = ground (
  arith,
  mem-append e.from ids (k ∷ []),
  mem-append e.to ids (k ∷ []),
  EdgesIn-more ids k es h.3,
  h.0,
  h.1,
  h.2,
)

pub EdgesIn-append :
    (ids : List String) (es : List WorkflowEdge) (e : WorkflowEdge)
    → EdgesIn ids es
    → mem e.from ids ≡ true
    → mem e.to ids ≡ true
    → str_eq e.from e.to ≡ false
    → EdgesIn ids (es ++ e ∷ [])
EdgesIn-append ids [] e h f t n = (f, t, n, tt)
EdgesIn-append ids (x ∷ es) e h f t n = (h.0, h.1, h.2, EdgesIn-append ids es e h.3 f t n)

pub mem-delete_key {ℓ} :
    {V : Type ℓ} (v k : String) (m : List (String × V))
    → mem v (keys (delete_key k m)) ≡ (mem v (keys m) && not (str_eq v k))
unfolding delete_key
mem-delete_key v k [] = refl
mem-delete_key v k ((j, w) ∷ m) =
    ground (arith, mem-delete_key v k m, eq_iff j k, eq_iff v j, eq_iff v k)

pub Distinct-delete_key {ℓ} :
    {V : Type ℓ} (k : String) (m : List (String × V))
    → Distinct (keys m)
    → Distinct (keys (delete_key k m))
unfolding delete_key
Distinct-delete_key k [] d = tt
Distinct-delete_key k ((j, w) ∷ m) d =
    ground (arith, mem-delete_key j k m, Distinct-delete_key k m d.1, d.0)

pub KeyedById-delete_key :
    (k : String) (m : List (String × WorkflowNode)) → KeyedById m → KeyedById (delete_key k m)
unfolding delete_key
KeyedById-delete_key k [] h = tt
KeyedById-delete_key k ((j, w) ∷ m) h = ground (arith, KeyedById-delete_key k m h.2, h.0, h.1)

pub EdgesIn-delete_key :
    (k : String) (m : List (String × WorkflowNode)) (es : List WorkflowEdge)
    → EdgesIn (keys m) es
    → EdgesIn (keys (delete_key k m)) (keep_if (avoids k) es)
unfolding avoids
EdgesIn-delete_key k m [] h = tt
EdgesIn-delete_key k m (e ∷ es) h = ground (
  arith,
  mem-delete_key e.from k m,
  mem-delete_key e.to k m,
  EdgesIn-delete_key k m es h.3,
  h.0,
  h.1,
  h.2,
)
