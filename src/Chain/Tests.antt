-- ===== src/Chain/Tests.antt =====
-- The theorems about pkg/uiauto/latency_budget.go with the default budgets.
use uiauto_framework.Tiers.{ModelTier, light, smart, vlm, tier_eq}
use uiauto_framework.Prelude.{
  ℕ, ◌≡◌, Bool, true, false, [], ◌∷◌, Option, none, some, count_if, if◌then◌else◌,
}
use uiauto_framework.Chain.{
  default_tier_budgets, new_latency_budget, violation_count, FallbackChain, Answer,
  default_fallback_chain, execute,
}
use uiauto_framework.Chain.Violations.{over, record_all, violation_count_lem}
use uiauto_framework.Chain.Served.{first_serving, execute_lem}

-- Two observations of the light tier, one of which is over its budget.
violation_count_lem_example :
    violation_count light (
      record_all
        ((light, 600_000_000) ∷ (smart, 1) ∷ (light, 1) ∷ [])
        (new_latency_budget default_tier_budgets))
    ≡ count_if
        (over (new_latency_budget default_tier_budgets) light)
        ((light, 600_000_000) ∷ (smart, 1) ∷ (light, 1) ∷ [])
violation_count_lem_example =
    violation_count_lem default_tier_budgets ((light, 600_000_000) ∷ (smart, 1) ∷ (light, 1) ∷ [])
      light

-- The light tier fails and the smart one is not available.
abbrev up : ModelTier → Bool
up t = if tier_eq t smart then false else true

abbrev only_vlm : Option ℕ → ModelTier → Answer
only_vlm d t = record { err = if tier_eq t vlm then none else some "gone"; elapsed = 9 }

abbrev chain : FallbackChain
chain = record {
  tiers = default_fallback_chain;
  budget = some (new_latency_budget default_tier_budgets);
  handoffs = some [];
}

execute_lem_example :
    (execute up only_vlm "login" chain).1 ≡ first_serving up only_vlm chain.budget none chain.tiers
execute_lem_example = execute_lem up only_vlm "login" chain
