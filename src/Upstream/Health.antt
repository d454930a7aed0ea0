-- ===== src/Upstream/Health.antt =====
-- The health marks of pkg/llm/upstream_pool.go.
use uiauto_framework.Prelude.{
  ℕ, zero, suc, ◌≡◌, sym, Bool, true, not, ◌||◌, List, [], ◌∷◌, map, ℤ, pos, leb_ℤ, ◌==◌, arith,
  All,
}
use uiauto_framework.Upstream.{
  NodeConfig, UpstreamNode, UpstreamPool, start_node, new_upstream_pool, update, fail_node,
  heal_node, mark_unhealthy, mark_healthy, check_node, check_nodes, check_all,
}

-- No failure, or fewer failures than the threshold.
abbrev pub below : ℤ → ℕ → Bool
below threshold fails = fails == 0 || not (leb_ℤ threshold (pos fails))

-- A node is healthy exactly when its failure count is 0 or below the threshold.
abbrev pub Marked : ℤ → UpstreamNode → Type 0
Marked threshold n = n.healthy ≡ below threshold n.fail_count

abbrev pub AllBelow : ℤ → List NodeConfig → Type 0
AllBelow t = All (λ (c : NodeConfig). below t c.fail_count ≡ true)

pub data Event : Type 0 where
  failed : ℕ → ℕ → Event
  succeeded : ℕ → Event
  probed : ℕ → List Bool → Event

pub step : UpstreamPool → Event → UpstreamPool
step p (failed i now) = mark_unhealthy p i now
step p (succeeded i) = mark_healthy p i
step p (probed now alive) = check_all p now alive

pub run : UpstreamPool → List Event → UpstreamPool
run p [] = p
run p (e ∷ es) = run (step p e) es

fail_node-Marked : (t : ℤ) (now : ℕ) (n : UpstreamNode) → Marked t n → Marked t (fail_node t now n)
unfolding fail_node
fail_node-Marked t now n h = ground (arith, h)

heal_node-Marked : (t : ℤ) (n : UpstreamNode) → Marked t (heal_node n)
unfolding heal_node
heal_node-Marked t n = ground arith

check_node-Marked :
    (t : ℤ) (now : ℕ) (a : Bool) (n : UpstreamNode) → Marked t n → Marked t (check_node t now a n)
unfolding check_node
check_node-Marked t now a n h = ground (arith, h)

update-All :
    (t : ℤ) (f : UpstreamNode → UpstreamNode)
    → ((n : UpstreamNode) → Marked t n → Marked t (f n))
    → (i : ℕ) (ns : List UpstreamNode) → All (Marked t) ns
    → All (Marked t) (update f i ns)
unfolding update
update-All t f keep i [] h = tt
update-All t f keep zero (n ∷ ns) h = (keep n h.0, h.1)
update-All t f keep (suc i) (n ∷ ns) h = (h.0, update-All t f keep i ns h.1)

check_nodes-All :
    (t : ℤ) (now : ℕ) (alive : List Bool) (ns : List UpstreamNode)
    → All (Marked t) ns
    → All (Marked t) (check_nodes t now alive ns)
unfolding check_nodes
check_nodes-All t now alive [] h = tt
check_nodes-All t now [] (n ∷ ns) h = h
check_nodes-All t now (a ∷ rest) (n ∷ ns) h =
    (check_node-Marked t now a n h.0, check_nodes-All t now rest ns h.1)

abbrev pub AllMarked : UpstreamPool → Type 0
AllMarked p = All (Marked p.unhealthy_threshold) p.nodes

pub mark_unhealthy-AllMarked :
    (p : UpstreamPool) (i now : ℕ) → AllMarked p → AllMarked (mark_unhealthy p i now)
unfolding mark_unhealthy
mark_unhealthy-AllMarked p i now h =
    update-All p.unhealthy_threshold (fail_node p.unhealthy_threshold now)
      (fail_node-Marked p.unhealthy_threshold now) i p.nodes h

pub mark_healthy-AllMarked : (p : UpstreamPool) (i : ℕ) → AllMarked p → AllMarked (mark_healthy p i)
unfolding mark_healthy
mark_healthy-AllMarked p i h =
    update-All p.unhealthy_threshold heal_node (λ n _. heal_node-Marked p.unhealthy_threshold n) i
      p.nodes h

step-AllMarked : (p : UpstreamPool) (e : Event) → AllMarked p → AllMarked (step p e)
unfolding step check_all
step-AllMarked p (failed i now) h = mark_unhealthy-AllMarked p i now h
step-AllMarked p (succeeded i) h = mark_healthy-AllMarked p i h
step-AllMarked p (probed now alive) h = check_nodes-All p.unhealthy_threshold now alive p.nodes h

run-AllMarked : (p : UpstreamPool) (es : List Event) → AllMarked p → AllMarked (run p es)
unfolding run
run-AllMarked p [] h = h
run-AllMarked p (e ∷ es) h = run-AllMarked (step p e) es (step-AllMarked p e h)

start-All : (t : ℤ) (cs : List NodeConfig) → AllBelow t cs → All (Marked t) (map start_node cs)
unfolding start_node
start-All t [] h = tt
start-All t (c ∷ cs) h = (sym h.0, start-All t cs h.1)

-- Where the failure count of every given node, of which one may come from an earlier pool, is 0 or
-- below the threshold: after any failed and successful requests and any health checks, cancelled ones
-- included, each node of a new pool is healthy exactly when its failure count is 0 or below the
-- threshold.
pub run-new-AllMarked :
    (cs : List NodeConfig) (t : ℤ) (es : List Event)
    → AllBelow t cs
    → AllMarked (run (new_upstream_pool cs t) es)
unfolding new_upstream_pool
run-new-AllMarked cs t es h = run-AllMarked (new_upstream_pool cs t) es (start-All t cs h)
