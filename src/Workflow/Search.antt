-- ===== src/Workflow/Search.antt =====
-- The depth-first search of pkg/evolver/workflow_graph.go visits what can be reached.
use mathlib.Core.List.{Memᴰ}
use mathlib.Core.List.Memᴰ
use mathlib.Core.Path.{subst}
use text.Mathlib.TextEquality.{eq_iff}
use uiauto_framework.Prelude.{
  ℕ, zero, suc, ◌≤◌, ◌<◌, ◌≡◌, refl, ap, sym, ◌∙◌, ◌⊎◌, inl, inr, true, false, not, ◌&&◌, List, [],
  ◌∷◌, String, str_eq, Option, some, arith, length, Bool-cases, keep_if,
}
use uiauto_framework.Workflow.{WorkflowEdge}
use uiauto_framework.Names.{mem}
use uiauto_framework.Workflow.WellFormed.{EdgesIn}
use uiauto_framework.Workflow.Validate.{scan, dfs_reachable}

-- The nodes at the end of a path from `source`.
pub data Reach (es : List WorkflowEdge) (source : String) : String → Type 0 where
  here : Reach es source source
  step :
      {u v : String}
      → Reach es source u
      → (e : WorkflowEdge) → Memᴰ e es
      → e.from ≡ u
      → e.to ≡ v
      → Reach es source v

-- The targets of the edges from `v` are visited.
abbrev pub TargetsIn : List WorkflowEdge → String → List String → Type 0
TargetsIn es v visited = (e : WorkflowEdge) → Memᴰ e es → e.from ≡ v → mem e.to visited ≡ true

-- The nodes that are not visited.
abbrev unvisited : List String → List String → List String
unvisited ids visited = keep_if (λ v. not (mem v visited)) ids

-- What a search from `from` does to the visited nodes.
pub record Explored (es : List WorkflowEdge) (from : String) (visited out : List String)
    : Type 0 where
  pub grows : (v : String) → mem v visited ≡ true → mem v out ≡ true
  pub entered : mem from out ≡ true
  pub closed : (v : String) → mem v visited ≡ false → mem v out ≡ true → TargetsIn es v out
  pub reached : (v : String) → mem v out ≡ true → (mem v visited ≡ true) ⊎ Reach es from v

unvisited-le :
    (ids visited out : List String)
    → ((v : String) → mem v visited ≡ true → mem v out ≡ true)
    → length (unvisited ids out) ≤ length (unvisited ids visited)
unvisited-le [] visited out h = omega arith
unvisited-le (v ∷ ids) visited out h = ground (arith, unvisited-le ids visited out h, h v)

mem_self : (v : String) (vs : List String) → mem v (v ∷ vs) ≡ true
mem_self v vs = ground (arith, eq_iff v v)

mem_more : (w v : String) (vs : List String) → mem v vs ≡ true → mem v (w ∷ vs) ≡ true
mem_more w v vs h = ground arith

unvisited-lt :
    (ids visited : List String) (v : String)
    → mem v ids ≡ true
    → mem v visited ≡ false
    → length (unvisited ids (v ∷ visited)) < length (unvisited ids visited)
unvisited-lt [] visited v h n = absurd (ground (arith, h))
unvisited-lt (w ∷ ids) visited v h n = elim (Bool-cases (str_eq v w)) [
  | inl same ↦
      let le = unvisited-le ids visited (v ∷ visited) (λ u. mem_more v u visited) in
      subst
        (λ (x : String).
          length (unvisited (x ∷ ids) (v ∷ visited)) < length (unvisited (x ∷ ids) visited))
        ((eq_iff v w).0 same) (ground (arith, le, n, eq_iff v v))
  | inr differ ↦
      ground
        (arith, unvisited-lt ids visited v (ground (arith, h, differ)) n, eq_iff v w, eq_iff w v)
]

Reach-after :
    {all : List WorkflowEdge} (from : String) (e : WorkflowEdge)
    → Memᴰ e all
    → e.from ≡ from
    → {v : String} → Reach all e.to v
    → Reach all from v
Reach-after from e m h here = step here e m h refl
Reach-after from e m h (step r d k a b) = step (Reach-after from e m h r) d k a b

-- What the loop over the edges `rest` does.
record Scanned (all : List WorkflowEdge) (from : String) (rest : List WorkflowEdge)
    (visited out : List String) : Type 0 where
  grows : (v : String) → mem v visited ≡ true → mem v out ≡ true
  targets : (e : WorkflowEdge) → Memᴰ e rest → e.from ≡ from → mem e.to out ≡ true
  closed : (v : String) → mem v visited ≡ false → mem v out ≡ true → TargetsIn all v out
  reached : (v : String) → mem v out ≡ true → (mem v visited ≡ true) ⊎ Reach all from v

skipped :
    (all : List WorkflowEdge) (from : String) (e : WorkflowEdge) (rest : List WorkflowEdge)
    (visited out : List String)
    → (str_eq e.from from && not (mem e.to visited)) ≡ false
    → Scanned all from rest visited out
    → Scanned all from (e ∷ rest) visited out
skipped all from e rest visited out h s = record {
  grows = s.grows;
  targets = λ d m k. elim (Memᴰ.cases_cons m) [
    | inl same ↦
        let k' : e.from ≡ from = ap (λ (x : WorkflowEdge). x.from) (sym same) ∙ k in
        ap (λ (x : WorkflowEdge). mem x.to out) same
        ∙ s.grows e.to (ground (arith, h, (eq_iff e.from from).1 k'))
    | inr later ↦ s.targets d later k
  ];
  closed = s.closed;
  reached = s.reached;
}

followed :
    (all : List WorkflowEdge) (from : String) (e : WorkflowEdge) (rest : List WorkflowEdge)
    (visited middle out : List String)
    → Memᴰ e all
    → e.from ≡ from
    → Explored all e.to visited middle
    → Scanned all from rest middle out
    → Scanned all from (e ∷ rest) visited out
followed all from e rest visited middle out m h x s = record {
  grows = λ v k. s.grows v (x.grows v k);
  targets = λ d m k. elim (Memᴰ.cases_cons m) [
    | inl same ↦ ap (λ (x : WorkflowEdge). mem x.to out) same ∙ s.grows e.to x.entered
    | inr later ↦ s.targets d later k
  ];
  closed = λ v n k. elim (Bool-cases (mem v middle)) [
    | inl early ↦ λ d c a. s.grows d.to (x.closed v n early d c a)
    | inr late ↦ s.closed v late k
  ];
  reached = λ v k. elim (s.reached v k) [
    | inl early ↦ elim (x.reached v early) [
      | inl old ↦ inl old
      | inr r ↦ inr (Reach-after from e m h r)
    ]
    | inr r ↦ inr r
  ];
}

-- What a search of at most `fuel` unvisited nodes does.
abbrev Searches :
    List String → List WorkflowEdge → ℕ → (String → List String → Option (List String)) → Type 0
Searches ids all fuel visit =
    (from : String) (visited : List String)
    → mem from ids ≡ true
    → mem from visited ≡ false
    → length (unvisited ids visited) ≤ fuel
    → (out : List String) × (visit from visited ≡ some out) × Explored all from visited out

scan_skips :
    (visit : String → List String → Option (List String)) (from : String) (e : WorkflowEdge)
    (rest : List WorkflowEdge) (visited : List String)
    → (str_eq e.from from && not (mem e.to visited)) ≡ false
    → scan visit from (e ∷ rest) visited ≡ scan visit from rest visited
unfolding scan
scan_skips visit from e rest visited h = rw (h, scan) refl

scan_calls :
    (visit : String → List String → Option (List String)) (from : String) (e : WorkflowEdge)
    (rest : List WorkflowEdge) (visited middle : List String)
    → (str_eq e.from from && not (mem e.to visited)) ≡ true
    → visit e.to visited ≡ some middle
    → scan visit from (e ∷ rest) visited ≡ scan visit from rest middle
unfolding scan
scan_calls visit from e rest visited middle h k = rw (h, scan) (rw (k, scan) refl)

module _ (ids : List String) (all : List WorkflowEdge) (fuel : ℕ)
    (visit : String → List String → Option (List String)) (searches : Searches ids all fuel visit)
    (from : String) where
  scan-Scanned :
      (rest : List WorkflowEdge) (visited : List String)
      → ((e : WorkflowEdge) → Memᴰ e rest → Memᴰ e all)
      → EdgesIn ids rest
      → length (unvisited ids visited) ≤ fuel
      → (out : List String) × (scan visit from rest visited ≡ some out)
        × Scanned all from rest visited out
  unfolding scan
  scan-Scanned [] visited sub inside le = (
    visited,
    refl,
    record {
      grows = λ v h. h;
      targets = λ e m h. absurd (Memᴰ.not-nil m);
      closed = λ v n h. cc;
      reached = λ v h. inl h;
    },
  )
  scan-Scanned (e ∷ rest) visited sub inside le =
      elim (Bool-cases (str_eq e.from from && not (mem e.to visited))) [
        | inr no_call ↦
            let (out, eq, s) = scan-Scanned rest visited (λ d m. sub d (Memᴰ.tail m)) inside.3 le in
            (
              out,
              scan_skips visit from e rest visited no_call ∙ eq,
              skipped all from e rest visited out no_call s,
            )
        | inl call ↦
            let (middle, eq, x) = searches e.to visited inside.1 (ground (arith, call)) le in
            let le' = unvisited-le ids visited middle x.grows in
            let (out, eq', s) =
              scan-Scanned rest middle (λ d m. sub d (Memᴰ.tail m)) inside.3
                (omega (arith, le, le')) in
            (
              out,
              scan_calls visit from e rest visited middle call eq ∙ eq',
              followed all from e rest visited middle out (sub e (Memᴰ.head refl))
                  ((eq_iff e.from from).0 (ground (arith, call))) x s,
            )
      ]

Scanned-Explored :
    (all : List WorkflowEdge) (from : String) (visited out : List String)
    → Scanned all from all (from ∷ visited) out
    → Explored all from visited out
Scanned-Explored all from visited out s = record {
  grows = λ v h. s.grows v (mem_more from v visited h);
  entered = s.grows from (mem_self from visited);
  closed = λ v n k. elim (Bool-cases (str_eq v from)) [
    | inl own ↦ λ e m h. s.targets e m (h ∙ (eq_iff v from).0 own)
    | inr other ↦ s.closed v (ground (arith, n, other)) k
  ];
  reached = λ v k. elim (s.reached v k) [
    | inr r ↦ inr r
    | inl early ↦ elim (Bool-cases (str_eq v from)) [
      | inl own ↦ inr (subst (Reach all from) (sym ((eq_iff v from).0 own)) here)
      | inr other ↦ inl (ground (arith, early, other))
    ]
  ];
}

-- With fuel for every unvisited node the search ends, and what it visits besides is what can be
-- reached.
pub dfs_reachable-Searches :
    (ids : List String) (all : List WorkflowEdge)
    → EdgesIn ids all
    → (fuel : ℕ) → Searches ids all fuel (dfs_reachable all fuel)
unfolding dfs_reachable
dfs_reachable-Searches ids all inside zero from visited h n le =
    absurd (omega (arith, unvisited-lt ids visited from h n, le))
dfs_reachable-Searches ids all inside (suc fuel) from visited h n le =
    let (out, e, s) =
      scan-Scanned ids all fuel (dfs_reachable all fuel)
        (dfs_reachable-Searches ids all inside fuel) from all (from ∷ visited) (λ d m. m) inside
        (omega (arith, unvisited-lt ids visited from h n, le)) in
    (out, e, Scanned-Explored all from visited out s)

length-unvisited : (ids : List String) → length (unvisited ids []) ≤ length ids
length-unvisited [] = omega arith
length-unvisited (v ∷ ids) = omega (arith, length-unvisited ids)

Reach-visited :
    (all : List WorkflowEdge) (from : String) (out : List String)
    → Explored all from [] out
    → {v : String} → Reach all from v
    → mem v out ≡ true
Reach-visited all from out x here = x.entered
Reach-visited all from out x (step r e m a b) =
    ap (λ (w : String). mem w out) (sym b) ∙ x.closed _ refl (Reach-visited all from out x r) e m a

-- From a node of the graph, a search with fuel for each node ends, and visits exactly the nodes
-- that a path of edges leads to.
pub dfs_reachable_lem :
    (ids : List String) (all : List WorkflowEdge) (from : String)
    → EdgesIn ids all
    → mem from ids ≡ true
    → (out : List String) × (dfs_reachable all (length ids) from [] ≡ some out)
      × ((v : String) → mem v out ≡ true → Reach all from v)
      × ((v : String) → Reach all from v → mem v out ≡ true)
dfs_reachable_lem ids all from inside h =
    let (out, e, x) =
      dfs_reachable-Searches ids all inside (length ids) from [] h refl (length-unvisited ids) in
    (
      out,
      e,
      λ v k. elim (x.reached v k) [ inl old ↦ cc | inr r ↦ r ],
      λ v r. Reach-visited all from out x r,
    )
