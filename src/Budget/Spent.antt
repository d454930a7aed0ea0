-- ===== src/Budget/Spent.antt =====
-- The monthly cap of pkg/uiauto/budget/router.go, whose spend no reset clears.
use mathlib.Core.Path.{subst}
use uiauto_framework.Prelude.{
  ℕ, ◌+◌, ◌-◌, ◌<◌, ◌≡◌, refl, sym, ap, inl, inr, Bool-cases, false, List, [], ◌∷◌, none, leb, All,
  arith,
}
use uiauto_framework.Budget.{
  Tier, Router, maybe_reset, can_afford, first_viable, first_local, or_else, select_tier,
}
use uiauto_framework.Budget.Caps.{charge, serve_all}

-- Every tier is remote, and its price is over what the monthly cap leaves.
abbrev pub OverMonth : Router → List Tier → Type 0
OverMonth r = All (λ (t : Tier).
    (t.is_local ≡ false) × (r.config.monthly_cap < r.monthly_spend + t.cost_per_call))

none_viable : (r : Router) (ts : List Tier) → OverMonth r ts → first_viable r ts ≡ none
unfolding first_viable can_afford
none_viable r [] h = refl
none_viable r (t ∷ ts) h = ground (arith, h.0, none_viable r ts h.1)

none_local : (r : Router) (ts : List Tier) → OverMonth r ts → first_local ts ≡ none
unfolding first_local
none_local r [] h = refl
none_local r (t ∷ ts) h = ground (arith, h.0, none_local r ts h.1)

reset-OverMonth :
    (now : ℕ) (r : Router)
    → OverMonth r r.tiers
    → OverMonth (maybe_reset now r) (maybe_reset now r).tiers
unfolding maybe_reset
reset-OverMonth now r h = elim (Bool-cases (leb r.config.reset_interval (now - r.last_reset))) [
  | inl due ↦ rw due h
  | inr early ↦ rw early h
]

refuses :
    (now : ℕ) (r : Router) → OverMonth r r.tiers → select_tier now r ≡ (maybe_reset now r, none)
unfolding select_tier or_else
refuses now r h =
    let q = maybe_reset now r in
    let over = reset-OverMonth now r h in
    rw (none_viable q q.tiers over, none_local q q.tiers over) refl

serve_all-OverMonth :
    (times : List ℕ) (r : Router)
    → OverMonth r r.tiers
    → OverMonth (serve_all times r) (serve_all times r).tiers
unfolding serve_all charge
serve_all-OverMonth [] r h = h
serve_all-OverMonth (now ∷ times) r h =
    subst (λ q. OverMonth (serve_all times (charge q)) (serve_all times (charge q)).tiers)
      (sym (refuses now r h))
      (serve_all-OverMonth times (maybe_reset now r) (reset-OverMonth now r h))

-- Once every tier is remote and over the monthly cap, no selection succeeds any more, however many
-- calls are tried and however much time passes.
pub month_never_resets :
    (r : Router)
    → OverMonth r r.tiers
    → (times : List ℕ) (now : ℕ) → (select_tier now (serve_all times r)).1 ≡ none
month_never_resets r h times now =
    ap (λ q. q.1) (refuses now (serve_all times r) (serve_all-OverMonth times r h))
