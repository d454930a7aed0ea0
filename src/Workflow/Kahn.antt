-- ===== src/Workflow/Kahn.antt =====
-- The loop of `TopologicalSort` in pkg/evolver/workflow_graph.go: its invariant, and that it ends.
use mathlib.Core.Path.{subst}
use mathlib.Core.List.{append_assoc, append-nil}
use text.Mathlib.TextEquality.{eq_iff}
use uiauto_framework.Prelude.{
  ℕ, zero, suc, ◌+◌, ◌≤◌, ◌≡◌, refl, ap, sym, ◌∙◌, inl, inr, true, false, not, ◌&&◌, ◌||◌, List, [],
  ◌∷◌, ◌++◌, String, str_eq, arith, if◌then◌else◌, length, length-append, Bool-cases, ◌==◌, some,
}
use uiauto_framework.Workflow.{WorkflowEdge, bump, drop_one, in_degrees, targets, relax, kahn}
use uiauto_framework.Names.{mem, Distinct, mem-append, Distinct-append, length-le_of_mem}

-- The edges into `v` whose source is not in `order`.
pub open_in : List WorkflowEdge → List String → String → ℕ
open_in [] order v = 0
open_in (e ∷ es) order v =
    let rest = open_in es order v in
    if str_eq e.to v && not (mem e.from order) then suc rest else rest

pub count_name : String → List String → ℕ
count_name v [] = 0
count_name v (w ∷ ws) = let rest = count_name v ws in if str_eq v w then suc rest else rest

pub count_name_nil : (v : String) → count_name v [] ≡ 0
unfolding count_name
count_name_nil v = refl

pub in_degrees_lem :
    (es : List WorkflowEdge) (d : String → ℕ) (v : String)
    → in_degrees es d v ≡ d v + open_in es [] v
unfolding in_degrees bump open_in
in_degrees_lem [] d v = omega arith
in_degrees_lem (e ∷ es) d v =
    ground (arith, in_degrees_lem es (bump d e.to) v, eq_iff v e.to, eq_iff e.to v)

-- Putting `u` into the order leaves the edges from `u` to be counted off.
open_in-append :
    (es : List WorkflowEdge) (order : List String) (u v : String)
    → mem u order ≡ false
    → open_in es order v ≡ open_in es (order ++ u ∷ []) v + count_name v (targets es u)
unfolding open_in count_name targets
open_in-append [] order u v h = omega arith
open_in-append (e ∷ es) order u v h = ground (
  arith,
  open_in-append es order u v h,
  mem-append e.from order (u ∷ []),
  eq_iff e.from u,
  eq_iff v e.to,
  eq_iff e.to v,
)

-- With the targets `pending` of the node last put into the order still to be counted off.
pub record Inv (es : List WorkflowEdge) (ids order queue : List String) (d : String → ℕ)
    (pending : List String) : Type 0 where
  pub degree : (v : String) → d v ≡ open_in es order v + count_name v pending
  pub ready : (v : String) → mem v ids ≡ true → (d v == 0) ≡ mem v (order ++ queue)
  pub nodes_only : (v : String) → mem v (order ++ queue) ≡ true → mem v ids ≡ true
  pub distinct : Distinct (order ++ queue)

module _ (es : List WorkflowEdge) (ids order queue : List String) (d : String → ℕ) (v : String)
    (vs : List String) (inv : Inv es ids order queue d (v ∷ vs)) (node : mem v ids ≡ true) where
  counted : (w : String) → drop_one d v w ≡ open_in es order w + count_name w vs
  unfolding drop_one count_name
  counted w = ground (arith, inv.degree w, eq_iff w v)

  waiting : mem v (order ++ queue) ≡ false
  unfolding count_name
  waiting = ground (arith, inv.degree v, inv.ready v node, eq_iff v v)

  mem_pushed :
      (w : String) → mem w (order ++ (queue ++ v ∷ [])) ≡ (mem w (order ++ queue) || str_eq w v)
  mem_pushed w =
      ap (mem w) (sym (append_assoc order queue (v ∷ [])))
      ∙ mem-append w (order ++ queue) (v ∷ [])
      ∙ ground arith

  push-Inv : (drop_one d v v == 0) ≡ true → Inv es ids order (queue ++ v ∷ []) (drop_one d v) vs
  unfolding drop_one
  push-Inv z = record {
    degree = counted;
    ready = λ w h. ground (arith, mem_pushed w, inv.ready w h, z, eq_iff w v);
    nodes_only = λ w h. ground (arith, mem_pushed w, inv.nodes_only w, node, h, eq_iff w v);
    distinct =
        subst Distinct (append_assoc order queue (v ∷ []))
          (Distinct-append (order ++ queue) v inv.distinct waiting);
  }

  skip-Inv : (drop_one d v v == 0) ≡ false → Inv es ids order queue (drop_one d v) vs
  unfolding drop_one
  skip-Inv z = record {
    degree = counted;
    ready = λ w h. ground (arith, waiting, inv.ready w h, z, eq_iff w v);
    nodes_only = inv.nodes_only;
    distinct = inv.distinct;
  }

abbrev pub AllNodes : List String → List String → Type 0
AllNodes ids [] = Unit {0}
AllNodes ids (v ∷ vs) = (mem v ids ≡ true) × AllNodes ids vs

relax-Inv :
    (es : List WorkflowEdge) (ids order queue : List String) (d : String → ℕ) (vs : List String)
    → Inv es ids order queue d vs
    → AllNodes ids vs
    → Inv es ids order (relax vs d queue).1 (relax vs d queue).0 []
unfolding relax
relax-Inv es ids order queue d [] inv a = inv
relax-Inv es ids order queue d (v ∷ vs) inv a = elim (Bool-cases (drop_one d v v == 0)) [
  | inl z ↦
      rw (z, relax)
        (relax-Inv es ids order (queue ++ v ∷ []) (drop_one d v) vs
          (push-Inv es ids order queue d v vs inv a.0 z) a.1)
  | inr n ↦
      rw (n, relax)
        (relax-Inv es ids order queue (drop_one d v) vs
          (skip-Inv es ids order queue d v vs inv a.0 n) a.1)
]

-- Every source of an edge into `u` is in `seen`.
abbrev pub SourcesIn : List WorkflowEdge → List String → String → Type 0
SourcesIn [] seen u = Unit {0}
SourcesIn (e ∷ es) seen u = (str_eq e.to u ≡ true → mem e.from seen ≡ true) × SourcesIn es seen u

-- After `seen`, each node of the list comes after the sources of its edges.
abbrev pub Before : List WorkflowEdge → List String → List String → Type 0
Before es seen [] = Unit {0}
Before es seen (u ∷ us) = SourcesIn es seen u × Before es (seen ++ u ∷ []) us

SourcesIn-of_zero :
    (es : List WorkflowEdge) (order : List String) (u : String)
    → open_in es order u ≡ 0
    → SourcesIn es order u
unfolding open_in
SourcesIn-of_zero [] order u h = tt
SourcesIn-of_zero (e ∷ es) order u h =
    (λ t. ground (arith, h, t), SourcesIn-of_zero es order u (ground (arith, h)))

pub open_in-SourcesIn :
    (es : List WorkflowEdge) (order : List String) (u : String)
    → SourcesIn es order u
    → open_in es order u ≡ 0
unfolding open_in
open_in-SourcesIn [] order u h = refl
open_in-SourcesIn (e ∷ es) order u h = ground (arith, open_in-SourcesIn es order u h.1, h.0)

Before-append :
    (es : List WorkflowEdge) (seen us : List String) (u : String)
    → Before es seen us
    → SourcesIn es (seen ++ us) u
    → Before es seen (us ++ u ∷ [])
Before-append es seen [] u b s = (subst (λ l. SourcesIn es l u) (append-nil seen) s, tt)
Before-append es seen (v ∷ us) u b s = (
  b.0,
  Before-append es (seen ++ v ∷ []) us u b.1
      (subst (λ l. SourcesIn es l u) (sym (append_assoc seen (v ∷ []) us)) s),
)

module _ (es : List WorkflowEdge) (ids order : List String) (u : String) (queue : List String)
    (d : String → ℕ) (inv : Inv es ids order (u ∷ queue) d []) where
  same_names : (order ++ u ∷ []) ++ queue ≡ order ++ (u ∷ queue)
  same_names = append_assoc order (u ∷ []) queue

  queued_node : mem u ids ≡ true
  queued_node = inv.nodes_only u (ground (arith, mem-append u order (u ∷ queue), eq_iff u u))

  queued_sources : SourcesIn es order u
  unfolding count_name
  queued_sources = SourcesIn-of_zero es order u (
      ground
        (arith, inv.degree u, inv.ready u queued_node, mem-append u order (u ∷ queue), eq_iff u u))

  pop-Inv : Inv es ids (order ++ u ∷ []) queue d (targets es u)
  unfolding count_name
  pop-Inv = record {
    degree =
        λ v. omega (arith, inv.degree v, open_in-append es order u v (fresh order inv.distinct));
    ready = λ v h. rw same_names (inv.ready v h);
    nodes_only = λ v. rw same_names (inv.nodes_only v);
    distinct = rw same_names inv.distinct;
  }
    where
      fresh : (xs : List String) → Distinct (xs ++ (u ∷ queue)) → mem u xs ≡ false
      fresh [] h = refl
      fresh (x ∷ xs) h =
          ground (arith, mem-append x xs (u ∷ queue), fresh xs h.1, h.0, eq_iff u x, eq_iff x u)

-- What the loop leaves: a queue that is empty, and an order that respects the edges.
pub record Finished (es : List WorkflowEdge) (ids order : List String) : Type 0 where
  pub degrees : String → ℕ
  pub inv : Inv es ids order [] degrees []
  pub before : Before es [] order

-- With a round for each node that is not yet in the order, the loop ends by its test.
pub kahn-Finished :
    (es : List WorkflowEdge) (ids : List String) (fuel : ℕ) (d : String → ℕ)
    (queue order : List String)
    → ((u : String) → AllNodes ids (targets es u))
    → Inv es ids order queue d []
    → Before es [] order
    → length ids ≤ length order + fuel
    → (final : List String) × (kahn es fuel d queue order ≡ some final) × Finished es ids final
unfolding kahn
kahn-Finished es ids fuel d [] order nodes inv b h =
    (order, refl, record { degrees = d; inv = inv; before = b })
kahn-Finished es ids zero d (u ∷ queue) order nodes inv b h = absurd (
    omega (
      arith,
      length-append order (u ∷ queue),
      length-le_of_mem (order ++ (u ∷ queue)) ids inv.distinct inv.nodes_only,
    ))
kahn-Finished es ids (suc fuel) d (u ∷ queue) order nodes inv b h =
    let popped = pop-Inv es ids order u queue d inv in
    kahn-Finished es ids fuel (relax (targets es u) d queue).0 (relax (targets es u) d queue).1
      (order ++ u ∷ []) nodes
      (relax-Inv es ids (order ++ u ∷ []) queue d (targets es u) popped (nodes u))
      (Before-append es [] order u b (queued_sources es ids order u queue d inv))
      (omega (arith, length-append order (u ∷ [])))
