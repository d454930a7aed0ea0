-- ===== src/Chain/Violations.antt =====
-- The violations that a budget of pkg/uiauto/latency_budget.go counts.
use uiauto_framework.Tiers.{ModelTier, tier_eq}
use uiauto_framework.Tiers.Laws.{tier_eq→eq}
use uiauto_framework.Prelude.{
  ℕ, suc, ◌+◌, ◌≡◌, refl, ap, ◌∙◌, inl, inr, Bool, Bool-cases, true, false, ◌&&◌, List, [], ◌∷◌,
  Option, Option-cases, none, some, ltb, if◌then◌else◌, count_if, arith,
}
use uiauto_framework.Chain.{
  TierMap, find, put, LatencyBudget, add_budgets, new_latency_budget, bump, record_latency,
  violation_count,
}

find-put :
    (t u : ModelTier) (n : ℕ) (m : TierMap)
    → find u (put t n m) ≡ (if tier_eq t u then some n else find u m)
unfolding find put
find-put t u n [] = refl
find-put t u n ((v, k) ∷ m) = elim (Bool-cases (tier_eq v t)) [
  | inl same ↦ ground (arith, same, ap (λ w. tier_eq w u) (tier_eq→eq v t same))
  | inr other ↦ elim (Bool-cases (tier_eq t u)) [
    | inl here ↦
        ground (arith, other, here, find-put t u n m, ap (λ w. tier_eq v w) (tier_eq→eq t u here))
    | inr there ↦ ground (arith, other, there, find-put t u n m)
  ]
]

abbrev has : Option ℕ → Bool
has none = false
has (some n) = true

-- A tier has a counter if it has a budget.
Counted : LatencyBudget → Type 0
Counted lb = (t : ModelTier) → has (find t lb.budgets) ≡ true → has (find t lb.violations) ≡ true

-- The observation is of the tier and over its budget.
abbrev pub over : LatencyBudget → ModelTier → ModelTier × ℕ → Bool
over lb t (u, latency) =
    tier_eq u t && elim (find u lb.budgets) [ none ↦ false | some n ↦ ltb n latency ]

pub record_all : List (ModelTier × ℕ) → LatencyBudget → LatencyBudget
record_all [] lb = lb
record_all ((t, latency) ∷ os) lb = record_all os (record_latency t latency lb).0

record_budgets :
    (t : ModelTier) (latency : ℕ) (lb : LatencyBudget)
    → (record_latency t latency lb).0.budgets ≡ lb.budgets
unfolding record_latency
record_budgets t latency lb = ground arith

record_count :
    (lb : LatencyBudget) (u t : ModelTier) (latency : ℕ)
    → Counted lb
    → violation_count t (record_latency u latency lb).0
      ≡ (if over lb t (u, latency) then suc (violation_count t lb) else violation_count t lb)
unfolding record_latency violation_count bump Counted
record_count lb u t latency c = elim (Option-cases (find u lb.violations)) [
  | inl nothing ↦ ground (arith, nothing, c u)
  | inr (k, at) ↦ elim (Bool-cases (tier_eq u t)) [
    | inl same ↦ ground (
      arith,
      at,
      same,
      find-put u t (k + 1) lb.violations,
      ap (λ v. find v lb.violations) (tier_eq→eq u t same),
    )
    | inr other ↦ ground (arith, at, other, find-put u t (k + 1) lb.violations)
  ]
]

record-Counted :
    (u : ModelTier) (latency : ℕ) (lb : LatencyBudget)
    → Counted lb
    → Counted (record_latency u latency lb).0
unfolding Counted record_latency bump
record-Counted u latency lb c t e = elim (Option-cases (find u lb.violations)) [
  | inl nothing ↦ ground (arith, nothing, c t, e)
  | inr (k, at) ↦ ground (arith, at, c t, e, find-put u t (k + 1) lb.violations)
]

add-Counted : (bs : TierMap) (lb : LatencyBudget) → Counted lb → Counted (add_budgets bs lb)
unfolding add_budgets Counted
add-Counted [] lb c = c
add-Counted ((u, n) ∷ bs) lb c =
    add-Counted bs (record { budgets = put u n lb.budgets; violations = put u 0 lb.violations })
      (λ t e. ground (arith, c t, e, find-put u t n lb.budgets, find-put u t 0 lb.violations))

add_zero :
    (bs : TierMap) (lb : LatencyBudget) (t : ModelTier)
    → violation_count t lb ≡ 0
    → violation_count t (add_budgets bs lb) ≡ 0
unfolding add_budgets violation_count
add_zero [] lb t z = z
add_zero ((u, n) ∷ bs) lb t z =
    add_zero bs (record { budgets = put u n lb.budgets; violations = put u 0 lb.violations }) t
      (ground (arith, z, find-put u t 0 lb.violations))

over_same :
    (lb : LatencyBudget) (u : ModelTier) (latency : ℕ) (t : ModelTier) (o : ModelTier × ℕ)
    → over (record_latency u latency lb).0 t o ≡ over lb t o
over_same lb u latency t (v, l) =
    ap (λ m. tier_eq v t && elim (find v m) [ none ↦ false | some n ↦ ltb n l ])
      (record_budgets u latency lb)

counts_over :
    (t : ModelTier) (os : List (ModelTier × ℕ)) (lb l0 : LatencyBudget)
    → Counted lb
    → ((o : ModelTier × ℕ) → over lb t o ≡ over l0 t o)
    → violation_count t (record_all os lb) ≡ violation_count t lb + count_if (over l0 t) os
unfolding record_all
counts_over t [] lb l0 c h = omega arith
counts_over t ((u, latency) ∷ os) lb l0 c h = ground (
  arith,
  record_count lb u t latency c,
  h (u, latency),
  counts_over t os (record_latency u latency lb).0 l0 (record-Counted u latency lb c)
      (λ o. over_same lb u latency t o ∙ h o),
)

-- After any observations, the violations that new budgets count for a tier are exactly the
-- observations of that tier whose latency is over its budget.
pub violation_count_lem :
    (bs : TierMap) (os : List (ModelTier × ℕ)) (t : ModelTier)
    → violation_count t (record_all os (new_latency_budget bs))
      ≡ count_if (over (new_latency_budget bs) t) os
unfolding new_latency_budget violation_count find Counted
violation_count_lem bs os t =
    let empty : LatencyBudget = record { budgets = []; violations = [] } in
    let lb = add_budgets bs empty in
    ground (
      arith,
      add_zero bs empty t refl,
      counts_over t os lb lb (add-Counted bs empty (λ u e. e)) (λ o. refl),
    )
