-- ===== src/Budget/Caps.antt =====
-- What pkg/uiauto/budget/router.go spends.
use mathlib.Core.Path.{subst}
use uiauto_framework.Prelude.{
  ℕ, ◌+◌, ◌≤◌, ◌≡◌, sym, ◌⊎◌, inl, inr, Bool-cases, true, false, ◌&&◌, List, [], ◌∷◌, Option,
  Option-cases, none, some, All, arith,
}
use uiauto_framework.Budget.{
  Tier, BudgetConfig, Router, new_router, maybe_reset, can_afford, first_viable, first_local,
  or_else, select_tier, record_call,
}

-- What the choice among `ts` means: the chosen tier is local or fits both caps, and without one every
-- tier is remote and over a cap.
abbrev pub Fits : Router → Tier → Type 0
Fits r t =
    (t.is_local ≡ true)
    ⊎ ((r.daily_spend + t.cost_per_call ≤ r.config.daily_cap)
        × (r.monthly_spend + t.cost_per_call ≤ r.config.monthly_cap))

abbrev pub Refused : Router → List Tier → Type 0
Refused r = All (λ (t : Tier). (t.is_local ≡ false) × (can_afford r t ≡ false))

abbrev pub Chosen : Router → List Tier → Option Tier → Type 0
Chosen r ts (some t) = Fits r t
Chosen r ts none = Refused r ts

affordable : (r : Router) (t : Tier) → can_afford r t ≡ true → Fits r t
unfolding can_afford
affordable r t h = elim (Bool-cases t.is_local) [
  | inl here ↦ inl here
  | inr remote ↦ inr (ground (arith, h, remote))
]

none-Refused : (r : Router) (ts : List Tier) → first_viable r ts ≡ none → Refused r ts
unfolding first_viable can_afford
none-Refused r [] e = tt
none-Refused r (t ∷ ts) e = (ground (arith, e), none-Refused r ts (ground (arith, e)))

same-Fits : (r : Router) (u t : Tier) → u ≡ t → Fits r u → Fits r t
same-Fits r u t e h = subst (Fits r) e h

some-Fits : (r : Router) (ts : List Tier) (t : Tier) → first_viable r ts ≡ some t → Fits r t
unfolding first_viable
some-Fits r [] t e = absurd (ground (arith, e))
some-Fits r (u ∷ ts) t e = elim (Bool-cases (can_afford r u)) [
  | inl ok ↦ same-Fits r u t (ground (arith, e, ok)) (affordable r u ok)
  | inr dear ↦ elim (Bool-cases (r.config.prefer_local && u.is_local)) [
    | inl here ↦ same-Fits r u t (ground (arith, e, here)) (inl (ground (arith, here)))
    | inr far ↦ some-Fits r ts t (ground (arith, e, dear, far))
  ]
]

local-Fits : (r : Router) (ts : List Tier) (t : Tier) → first_local ts ≡ some t → Fits r t
unfolding first_local
local-Fits r [] t e = absurd (ground (arith, e))
local-Fits r (u ∷ ts) t e = elim (Bool-cases u.is_local) [
  | inl here ↦ same-Fits r u t (ground (arith, e, here)) (inl here)
  | inr far ↦ local-Fits r ts t (ground (arith, e, far))
]

choice-Chosen :
    (r : Router) (ts : List Tier) → Chosen r ts (or_else (first_viable r ts) (first_local ts))
unfolding or_else
choice-Chosen r ts = elim (Option-cases (first_viable r ts)) [
  | inr (t, e) ↦ subst (λ o. Chosen r ts (or_else o (first_local ts))) (sym e) (some-Fits r ts t e)
  | inl e ↦
      subst (λ o. Chosen r ts (or_else o (first_local ts))) (sym e)
        (elim (Option-cases (first_local ts)) [
          | inr (t, found) ↦ subst (Chosen r ts) (sym found) (local-Fits r ts t found)
          | inl nowhere ↦ subst (Chosen r ts) (sym nowhere) (none-Refused r ts e)
        ])
]

-- The selection, after the daily reset, takes a tier that is local or whose cost fits both caps, and
-- fails only where every tier is remote and over a cap.
pub select_tier_lem :
    (now : ℕ) (r : Router)
    → Chosen (select_tier now r).0 (select_tier now r).0.tiers (select_tier now r).1
unfolding select_tier
select_tier_lem now r = choice-Chosen (maybe_reset now r) (maybe_reset now r).tiers

-- A call of the selected tier, at its price.
unfoldable pub charge : Router × Option Tier → Router
charge (r, none) = r
charge (r, some t) = record_call t.name t.cost_per_call r

unfoldable pub serve_all : List ℕ → Router → Router
serve_all [] r = r
serve_all (now ∷ times) r = serve_all times (charge (select_tier now r))

-- The caps hold, and local tiers are free.
pub record Within (r : Router) : Type 0 where
  pub daily : r.daily_spend ≤ r.config.daily_cap
  pub monthly : r.monthly_spend ≤ r.config.monthly_cap

abbrev pub Free : List Tier → Type 0
Free = All (λ (t : Tier). t.is_local ≡ true → t.cost_per_call ≡ 0)

reset-Within : (now : ℕ) (r : Router) → Within r → Within (maybe_reset now r)
unfolding maybe_reset
reset-Within now r h = ground (arith, h)

reset_tiers : (now : ℕ) (r : Router) → (maybe_reset now r).tiers ≡ r.tiers
unfolding maybe_reset
reset_tiers now r = ground arith

charge-Within :
    (r : Router) (t : Tier)
    → (t.is_local ≡ true → t.cost_per_call ≡ 0)
    → Fits r t
    → Within r
    → Within (record_call t.name t.cost_per_call r)
unfolding record_call
charge-Within r t free (inl here) h = ground (arith, free here, h)
charge-Within r t free (inr fits) h = record { daily = fits.0; monthly = fits.1 }

choice-Fits :
    (r : Router) (ts : List Tier) (t : Tier)
    → or_else (first_viable r ts) (first_local ts) ≡ some t
    → Fits r t
choice-Fits r ts t e = subst (Chosen r ts) e (choice-Chosen r ts)

listed_viable :
    (r : Router) (ts : List Tier) (t : Tier)
    → Free ts
    → first_viable r ts ≡ some t
    → t.is_local ≡ true
    → t.cost_per_call ≡ 0
unfolding first_viable
listed_viable r [] t h e = absurd (ground (arith, e))
listed_viable r (u ∷ ts) t h e = ground (arith, h, e, listed_viable r ts t h.1)

listed_local :
    (ts : List Tier) (t : Tier)
    → Free ts
    → first_local ts ≡ some t
    → t.is_local ≡ true
    → t.cost_per_call ≡ 0
unfolding first_local
listed_local [] t h e = absurd (ground (arith, e))
listed_local (u ∷ ts) t h e = ground (arith, h, e, listed_local ts t h.1)

price_of_choice :
    (r : Router) (ts : List Tier) (t : Tier)
    → Free ts
    → or_else (first_viable r ts) (first_local ts) ≡ some t
    → t.is_local ≡ true
    → t.cost_per_call ≡ 0
unfolding or_else
price_of_choice r ts t h e = elim (Option-cases (first_viable r ts)) [
  | inr (u, found) ↦ listed_viable r ts t h (ground (arith, e, found))
  | inl nowhere ↦ listed_local ts t h (ground (arith, e, nowhere))
]

-- One selection and its charge.
serve-Within :
    (now : ℕ) (r : Router)
    → Free r.tiers
    → Within r
    → Within (charge (select_tier now r)) × Free (charge (select_tier now r)).tiers
unfolding select_tier charge record_call
serve-Within now r free h =
    let q = maybe_reset now r in
    let qfree = subst Free (sym (reset_tiers now r)) free in
    let w = reset-Within now r h in
    elim (Option-cases (or_else (first_viable q q.tiers) (first_local q.tiers))) [
      | inl nothing ↦ rw nothing (w, qfree)
      | inr (t, e) ↦ rw e (
        charge-Within q t (price_of_choice q q.tiers t qfree e) (choice-Fits q q.tiers t e) w,
        qfree,
      )
    ]

serve_all-Within :
    (times : List ℕ) (r : Router) → Free r.tiers → Within r → Within (serve_all times r)
unfolding serve_all
serve_all-Within [] r free h = h
serve_all-Within (now ∷ times) r free h =
    let next = serve-Within now r free h in
    serve_all-Within times (charge (select_tier now r)) next.1 next.0

-- With local tiers that cost nothing, a new router whose calls are each of the selected tier at its
-- price never spends more than its daily and its monthly cap, at whatever times the calls are made.
pub serve_all-new-Within :
    (start : ℕ) (tiers : List Tier) (cfg : BudgetConfig)
    → Free tiers
    → (times : List ℕ) → Within (serve_all times (new_router start tiers cfg))
unfolding new_router
serve_all-new-Within start tiers cfg free times =
    serve_all-Within times _ free (record { daily = omega arith; monthly = omega arith })
