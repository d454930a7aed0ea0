-- ===== src/Upstream.antt =====
-- pkg/llm/upstream_pool.go: language-model backends with health marks and weighted selection. A
-- node pointer is an index into the pool; the random number of a selection, the results of the
-- health probes and the clock are arguments. Each node's mutex makes each update one step.
pub mod Selection
pub mod Health
mod Tests
use uiauto_framework.Prelude.{
  ℕ, zero, suc, ◌+◌, ◌-◌, Bool, true, false, not, ◌&&◌, List, [], ◌∷◌, map, String, str_eq, Option,
  none, some, ℤ, pos, positive_or, ltb, leb_ℤ, if◌then◌else◌, count_if,
}

-- A backend as it is given to the pool: its configuration, and what an earlier pool left in the
-- node.
pub record NodeConfig : Type 0 where
  pub name : String
  pub url : String
  pub tier : String
  pub weight : ℤ
  pub models : List String
  pub fail_count : ℕ
  pub last_check : ℕ
  pub last_failure : ℕ

pub record UpstreamNode : Type 0 where
  pub name : String
  pub url : String
  pub tier : String
  pub weight : ℕ
  pub models : List String
  pub healthy : Bool
  pub fail_count : ℕ
  pub last_check : ℕ
  pub last_failure : ℕ

pub record UpstreamPool : Type 0 where
  pub nodes : List UpstreamNode
  pub unhealthy_threshold : ℤ

-- The loop of `NewUpstreamPool` over the nodes: it sets the health mark and a weight only.
pub start_node : NodeConfig → UpstreamNode
start_node c = record {
  name = c.name;
  url = c.url;
  tier = c.tier;
  weight = positive_or 1 c.weight;
  models = c.models;
  healthy = true;
  fail_count = c.fail_count;
  last_check = c.last_check;
  last_failure = c.last_failure;
}

pub new_upstream_pool : List NodeConfig → ℤ → UpstreamPool
unfolding start_node
new_upstream_pool cs threshold = record {
  nodes = map start_node cs;
  unhealthy_threshold = threshold;
}

-- The candidates of a selection: the index and the weight of each node that passes.
candidates : (UpstreamNode → Bool) → ℕ → List UpstreamNode → List (ℕ × ℕ)
candidates p i [] = []
candidates p i (n ∷ ns) =
    let rest = candidates p (suc i) ns in if p n then (i, n.weight) ∷ rest else rest

pub total_weight : List (ℕ × ℕ) → ℕ
total_weight [] = 0
total_weight ((i, w) ∷ cs) = w + total_weight cs

-- The loop `r -= n.Weight; if r < 0`; past the end, the last candidate.
pick_from : ℕ → List (ℕ × ℕ) → ℕ → ℕ
pick_from last [] r = last
pick_from last ((i, w) ∷ cs) r = let rest = pick_from i cs (r - w) in if ltb r w then i else rest

pub pick : List (ℕ × ℕ) → ℕ → Option ℕ
unfolding pick_from
pick [] r = none
pick ((i, w) ∷ cs) r = some (pick_from i ((i, w) ∷ cs) r)

pub serves_tier : String → UpstreamNode → Bool
serves_tier tier n = str_eq n.tier tier && n.healthy

-- `r` is what `rand.IntN(totalWeight)` returns.
pub select_by_tier : UpstreamPool → String → ℕ → Option ℕ
select_by_tier p tier r = pick (candidates (serves_tier tier) 0 p.nodes) r

pub select_any : UpstreamPool → ℕ → Option ℕ
select_any p r = pick (candidates (λ n. n.healthy) 0 p.nodes) r

-- An update of the node at an index.
update : (UpstreamNode → UpstreamNode) → ℕ → List UpstreamNode → List UpstreamNode
update f i [] = []
update f zero (n ∷ ns) = f n ∷ ns
update f (suc i) (n ∷ ns) = n ∷ update f i ns

fail_node : ℤ → ℕ → UpstreamNode → UpstreamNode
fail_node threshold now n =
    let fails = n.fail_count + 1 in
    record n {
      fail_count = fails;
      last_failure = now;
      healthy = if leb_ℤ threshold (pos fails) then false else n.healthy;
    }

heal_node : UpstreamNode → UpstreamNode
heal_node n = record n { healthy = true; fail_count = 0 }

unfoldable pub mark_unhealthy : UpstreamPool → ℕ → ℕ → UpstreamPool
unfolding update fail_node
mark_unhealthy p i now = record p { nodes = update (fail_node p.unhealthy_threshold now) i p.nodes }

unfoldable pub mark_healthy : UpstreamPool → ℕ → UpstreamPool
unfolding update heal_node
mark_healthy p i = record p { nodes = update heal_node i p.nodes }

healthy_count : UpstreamPool → ℕ
healthy_count p = count_if (λ n. n.healthy) p.nodes

-- One node of `checkAll`, with the result of its probe.
check_node : ℤ → ℕ → Bool → UpstreamNode → UpstreamNode
unfolding fail_node heal_node
check_node threshold now alive n =
    let checked = record n { last_check = now } in
    if alive then heal_node checked else fail_node threshold now checked

-- The nodes are probed in order; the answers end where the context is cancelled.
check_nodes : ℤ → ℕ → List Bool → List UpstreamNode → List UpstreamNode
check_nodes threshold now alive [] = []
check_nodes threshold now [] (n ∷ ns) = n ∷ ns
check_nodes threshold now (a ∷ rest) (n ∷ ns) =
    check_node threshold now a n ∷ check_nodes threshold now rest ns

check_all : UpstreamPool → ℕ → List Bool → UpstreamPool
unfolding check_nodes
check_all p now alive = record p { nodes = check_nodes p.unhealthy_threshold now alive p.nodes }

-- `probe` on the status code of the answer, or no answer.
probe : Option ℕ → Bool
probe none = false
probe (some status) = not (ltb status 200) && ltb status 300
