-- ===== src/Chain.antt =====
-- pkg/uiauto/latency_budget.go: the latency allowed to each tier, and the chain of tiers that an action
-- falls through. What a tier's function answers at its turn, and how long it takes, is an argument.
mod Served
mod Violations
mod Tests
use uiauto_framework.Tiers.{ModelTier, light, smart, vlm, tier_eq, tier_string}
use uiauto_framework.Prelude.{
  ℕ, zero, suc, ◌+◌, Bool, true, false, not, List, [], ◌∷◌, ◌++◌, String, str_append, Option, none,
  some, ltb, if◌then◌else◌,
}

-- Go's `map[ModelTier]` to numbers.
abbrev pub TierMap : Type 0
TierMap = List (ModelTier × ℕ)

pub find : ModelTier → TierMap → Option ℕ
find t [] = none
find t ((u, n) ∷ m) = let rest = find t m in if tier_eq u t then some n else rest

pub put : ModelTier → ℕ → TierMap → TierMap
put t n [] = (t, n) ∷ []
put t n ((u, k) ∷ m) = let rest = put t n m in if tier_eq u t then (t, n) ∷ m else (u, k) ∷ rest

pub record LatencyBudget : Type 0 where
  pub budgets : TierMap
  pub violations : TierMap

abbrev pub default_tier_budgets : TierMap
default_tier_budgets = (light, 500_000_000) ∷ (smart, 5_000_000_000) ∷ (vlm, 15_000_000_000) ∷ []

-- The loop of `NewLatencyBudget`; a later budget of a tier replaces an earlier one.
pub add_budgets : TierMap → LatencyBudget → LatencyBudget
add_budgets [] lb = lb
add_budgets ((t, n) ∷ bs) lb =
    add_budgets bs (record { budgets = put t n lb.budgets; violations = put t 0 lb.violations })

pub new_latency_budget : TierMap → LatencyBudget
new_latency_budget bs = add_budgets bs (record { budgets = []; violations = [] })

pub bump : ModelTier → TierMap → TierMap
bump t m = elim (find t m) [ none ↦ m | some n ↦ put t (n + 1) m ]

-- `Record`; false is a violation.
pub record_latency : ModelTier → ℕ → LatencyBudget → LatencyBudget × Bool
record_latency t latency lb = elim (find t lb.budgets) [
  | none ↦ (lb, true)
  | some n ↦
      if ltb n latency then (record lb { violations = bump t lb.violations }, false) else (lb, true)
]

abbrev or_zero : Option ℕ → ℕ
or_zero none = 0
or_zero (some n) = n

pub violation_count : ModelTier → LatencyBudget → ℕ
violation_count t lb = or_zero (find t lb.violations)

pub record ModelHandoff : Type 0 where
  pub pattern_id : String
  pub from_tier : String
  pub to_tier : String
  pub reason : String
  pub success : Bool

pub record FallbackChain : Type 0 where
  pub tiers : List ModelTier
  pub budget : Option LatencyBudget
  pub handoffs : Option (List ModelHandoff)

abbrev pub default_fallback_chain : List ModelTier
default_fallback_chain = light ∷ smart ∷ vlm ∷ []

-- What a tier's function does: an error, or none, and the time it takes.
pub record Answer : Type 0 where
  pub err : Option String
  pub elapsed : ℕ

-- The deadline of the tier's context: none where it has no budget.
pub deadline : ModelTier → Option LatencyBudget → Option ℕ
deadline t none = none
deadline t (some lb) = find t lb.budgets

pub timed : ModelTier → ℕ → Option LatencyBudget → Option LatencyBudget
timed t elapsed none = none
timed t elapsed (some lb) = some (record_latency t elapsed lb).0

pub add_handoff : ModelHandoff → Option (List ModelHandoff) → Option (List ModelHandoff)
add_handoff h none = none
add_handoff h (some hs) = some (hs ++ (h ∷ []))

pub after_success : String → Option ModelTier → ModelTier → FallbackChain → FallbackChain
after_success pattern none t fc = fc
after_success pattern (some prev) t fc = record fc {
  handoffs =
      add_handoff
        (record {
          pattern_id = pattern;
          from_tier = tier_string prev;
          to_tier = tier_string t;
          reason = "fallback_success";
          success = true;
        })
        fc.handoffs;
}

pub after_failure : String → ModelTier → List ModelTier → FallbackChain → FallbackChain
after_failure pattern t [] fc = fc
after_failure pattern t (next ∷ rest) fc = record fc {
  handoffs =
      add_handoff
        (record {
          pattern_id = pattern;
          from_tier = tier_string t;
          to_tier = tier_string next;
          reason = str_append "tier_" (str_append (tier_string t) "_failed");
          success = false;
        })
        fc.handoffs;
}

-- The tier that is returned, and where the chain is exhausted the last error, if there was one.
pub data Outcome : Type 0 where
  served : ModelTier → Outcome
  exhausted : Option String → Outcome

module _ (available : ModelTier → Bool) (tier_func : Option ℕ → ModelTier → Answer)
    (pattern : String) where
  -- The loop of `Execute`, with the tier before the current one in the list.
  pub execute_from :
      Option String → Option ModelTier → List ModelTier → FallbackChain → FallbackChain × Outcome
  execute_from last prev [] fc = (fc, exhausted last)
  execute_from last prev (t ∷ ts) fc =
      let a = tier_func (deadline t fc.budget) t in
      let tried = record fc { budget = timed t a.elapsed fc.budget } in
      let skip = execute_from last (some t) ts fc in
      let next = execute_from a.err (some t) ts (after_failure pattern t ts tried) in
      if not (available t)
      then skip
      else elim a.err [ none ↦ (after_success pattern prev t tried, served t) | some e ↦ next ]

  pub execute : FallbackChain → FallbackChain × Outcome
  execute fc = execute_from none none fc.tiers fc
