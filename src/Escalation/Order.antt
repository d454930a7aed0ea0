-- ===== src/Escalation/Order.antt =====
-- Going up and down in the order of pkg/uiauto/model_escalation_policy.go.
use mathlib.Core.Path.{subst}
use uiauto_framework.Tiers.{
  ModelTier, light, smart, vlm, wsl_fast, wsl_smart, wsl_powerful, tier_eq,
}
use uiauto_framework.Tiers.Laws.{tier_eq→eq}
use uiauto_framework.Prelude.{
  ◌≡◌, refl, ap, ◌↔◌, inl, inr, Bool, Bool-cases, true, false, List, [], ◌∷◌, some, if◌then◌else◌,
  arith,
}
use uiauto_framework.Escalation.{ModelEscalationPolicy, after, before, next_tier, prev_tier}

abbrev pub tier_in : ModelTier → List ModelTier → Bool
tier_in t [] = false
tier_in t (u ∷ us) = if tier_eq u t then true else tier_in t us

-- No tier twice.
abbrev pub Once : List ModelTier → Type 0
Once [] = Unit {0}
Once (t ∷ ts) = (tier_in t ts ≡ false) × Once ts

tier_eq_self : (t : ModelTier) → tier_eq t t ≡ true
tier_eq_self light = refl
tier_eq_self smart = refl
tier_eq_self vlm = refl
tier_eq_self wsl_fast = refl
tier_eq_self wsl_smart = refl
tier_eq_self wsl_powerful = refl

eq→tier_eq : (s t : ModelTier) → s ≡ t → tier_eq s t ≡ true
eq→tier_eq s t e = subst (λ u. tier_eq s u ≡ true) e (tier_eq_self s)

tier_eq_in :
    (v u : ModelTier) (vs : List ModelTier)
    → tier_in v vs ≡ false
    → tier_in u vs ≡ true
    → tier_eq v u ≡ false
tier_eq_in v u vs out inside = elim (Bool-cases (tier_eq v u)) [
  | inl same ↦ absurd (ground (arith, out, inside, ap (λ t. tier_in t vs) (tier_eq→eq v u same)))
  | inr other ↦ other
]

after_in :
    (t : ModelTier) (ts : List ModelTier) (c u : ModelTier)
    → after (t ∷ ts) c ≡ some u
    → tier_in u ts ≡ true
unfolding after
after_in t [] c u h = absurd (ground (arith, h))
after_in t (v ∷ vs) c u h = elim (Bool-cases (tier_eq t c)) [
  | inl here ↦ ground (arith, eq→tier_eq v u (ground (arith, h, here)))
  | inr later ↦ ground (arith, h, later, after_in v vs c u)
]

before_in : (ts : List ModelTier) (c u : ModelTier) → before ts c ≡ some u → tier_in u ts ≡ true
unfolding before
before_in [] c u h = absurd (ground (arith, h))
before_in (t ∷ []) c u h = absurd (ground (arith, h))
before_in (t ∷ v ∷ vs) c u h = elim (Bool-cases (tier_eq v c)) [
  | inl here ↦ ground (arith, eq→tier_eq t u (ground (arith, h, here)))
  | inr later ↦ ground (arith, h, later, before_in (v ∷ vs) c u)
]

up_down :
    (ts : List ModelTier) (c u : ModelTier) → Once ts → after ts c ≡ some u → before ts u ≡ some c
unfolding after before
up_down [] c u o h = absurd (ground (arith, h))
up_down (t ∷ []) c u o h = absurd (ground (arith, h))
up_down (t ∷ v ∷ vs) c u o h = elim (Bool-cases (tier_eq t c)) [
  | inl here ↦ ground (arith, eq→tier_eq v u (ground (arith, h, here)), tier_eq→eq t c here)
  | inr later ↦ ground (
    arith,
    up_down (v ∷ vs) c u o.1 (ground (arith, h, later)),
    tier_eq_in v u vs o.1.0 (after_in v vs c u (ground (arith, h, later))),
  )
]

down_up :
    (ts : List ModelTier) (c u : ModelTier) → Once ts → before ts u ≡ some c → after ts c ≡ some u
unfolding after before
down_up [] c u o h = absurd (ground (arith, h))
down_up (t ∷ []) c u o h = absurd (ground (arith, h))
down_up (t ∷ v ∷ vs) c u o h = elim (Bool-cases (tier_eq v u)) [
  | inl here ↦ ground (arith, eq→tier_eq t c (ground (arith, h, here)), tier_eq→eq v u here)
  | inr later ↦ ground (
    arith,
    down_up (v ∷ vs) c u o.1 (ground (arith, h, later)),
    tier_eq_in t c (v ∷ vs) o.0 (before_in (v ∷ vs) u c (ground (arith, h, later))),
  )
]

-- In a policy whose order has no tier twice, the tier after a second one is a third exactly when the
-- tier before the third is the second: NextTier and PrevTier undo each other.
pub next_tier-prev_tier :
    (p : ModelEscalationPolicy) (c u : ModelTier)
    → Once p.tier_order
    → (next_tier p c ≡ some u) ↔ (prev_tier p u ≡ some c)
unfolding next_tier prev_tier
next_tier-prev_tier p c u o = (up_down p.tier_order c u o, down_up p.tier_order c u o)
