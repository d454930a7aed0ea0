-- ===== src/Escalation.antt =====
-- pkg/uiauto/model_escalation_policy.go: the order of tiers, and when to go up and down in it. A rate
-- of successes is a fraction.
mod Order
mod Tests
use uiauto_framework.Tiers.{ModelTier, light, smart, vlm, tier_eq}
use uiauto_framework.Prelude.{
  ℕ, ◌*◌, Bool, true, false, ◌&&◌, ◌||◌, List, [], ◌∷◌, Option, none, some, ltb, leb, if◌then◌else◌,
}

pub record Rate : Type 0 where
  pub num : ℕ
  pub den : ℕ

pub record EscalationCondition : Type 0 where
  pub consecutive_failures : ℕ
  pub success_rate_below : Rate
  pub min_attempts : ℕ

pub record ModelEscalationPolicy : Type 0 where
  pub tier_order : List ModelTier
  pub escalate_conditions : List (ModelTier × EscalationCondition)
  pub demote_conditions : List (ModelTier × EscalationCondition)
  pub cooldown_after_trip : ℕ
  pub max_escalations : ℕ

abbrev when : ℕ → Rate → ℕ → EscalationCondition
when failures below attempts = record {
  consecutive_failures = failures;
  success_rate_below = below;
  min_attempts = attempts;
}

abbrev zero_rate : Rate
zero_rate = record { num = 0; den = 1 }

abbrev pub default_escalation_policy : ModelEscalationPolicy
default_escalation_policy = record {
  tier_order = light ∷ smart ∷ vlm ∷ [];
  escalate_conditions =
      (light, when 3 (record { num = 1; den = 2 }) 5) ∷ (smart, when 2 zero_rate 0) ∷ [];
  demote_conditions = (smart, when 0 zero_rate 3) ∷ (vlm, when 0 zero_rate 3) ∷ [];
  cooldown_after_trip = 60_000_000_000;
  max_escalations = 10;
}

-- The loop of `NextTier`; none stands for the current tier and `false`.
pub after : List ModelTier → ModelTier → Option ModelTier
after [] current = none
after (t ∷ []) current = none
after (t ∷ u ∷ us) current =
    let rest = after (u ∷ us) current in if tier_eq t current then some u else rest

pub next_tier : ModelEscalationPolicy → ModelTier → Option ModelTier
next_tier p current = after p.tier_order current

-- The loop of `PrevTier`.
pub before : List ModelTier → ModelTier → Option ModelTier
before [] current = none
before (t ∷ []) current = none
before (t ∷ u ∷ us) current =
    let rest = before (u ∷ us) current in if tier_eq u current then some t else rest

pub prev_tier : ModelEscalationPolicy → ModelTier → Option ModelTier
prev_tier p current = before p.tier_order current

pub condition_of : ModelTier → List (ModelTier × EscalationCondition) → Option EscalationCondition
condition_of t [] = none
condition_of t ((u, c) ∷ cs) = let rest = condition_of t cs in if tier_eq u t then some c else rest

pub below_rate : Rate → Rate → Bool
below_rate r s = ltb (r.num * s.den) (s.num * r.den)

pub should_escalate : ModelEscalationPolicy → ModelTier → ℕ → Rate → ℕ → Bool
should_escalate p tier failures rate attempts = elim (condition_of tier p.escalate_conditions) [
  | none ↦ false
  | some c ↦
      (ltb 0 c.consecutive_failures && leb c.consecutive_failures failures)
      || (ltb 0 c.success_rate_below.num
          && (leb c.min_attempts attempts && below_rate rate c.success_rate_below))
]

-- `successRate >= 0.9`
pub should_demote : ModelEscalationPolicy → ModelTier → ℕ → Rate → Bool
should_demote p tier attempts rate = elim (condition_of tier p.demote_conditions) [
  | none ↦ false
  | some c ↦ leb c.min_attempts attempts && leb (9 * rate.den) (10 * rate.num)
]
