-- ===== src/Tiered/Sort.antt =====
-- The order in which pkg/llm/router.go tries its providers.
use uiauto_framework.Prelude.{
  ℕ, ◌≤◌, ◌≡◌, refl, ap, ◌∙◌, List, [], ◌∷◌, ◌++◌, ◌==◌, ltb, inl, inr, arith, All, keep_if,
  Bool-cases,
}
use uiauto_framework.Tiered.{TieredProvider, sift, sift_all, from_left, new_tiered_router}

-- The tiers go up.
abbrev pub Rises : List TieredProvider → Type 0
Rises [] = Unit {0}
Rises (p ∷ ps) = All (λ q. p.tier ≤ q.tier) ps × Rises ps

abbrev Falls : List TieredProvider → Type 0
Falls [] = Unit {0}
Falls (p ∷ ps) = All (λ q. q.tier ≤ p.tier) ps × Falls ps

-- The providers of one tier, in order.
abbrev pub of_tier : ℕ → List TieredProvider → List TieredProvider
of_tier k = keep_if (λ p. p.tier == k)

below_each :
    (p q : TieredProvider) (qs : List TieredProvider)
    → p.tier ≤ q.tier
    → All (λ x. x.tier ≤ p.tier) qs
    → All (λ x. x.tier ≤ q.tier) qs
below_each p q [] h a = tt
below_each p q (x ∷ qs) h a = (omega (arith, a.0), below_each p q qs h a.1)

sift-All :
    (n : ℕ) (p : TieredProvider) (qs : List TieredProvider)
    → p.tier ≤ n
    → All (λ x. x.tier ≤ n) qs
    → All (λ x. x.tier ≤ n) (sift p qs)
unfolding sift
sift-All n p [] h a = (h, tt)
sift-All n p (q ∷ qs) h a = elim (Bool-cases (ltb p.tier q.tier)) [
  | inl past ↦ rw past (a.0, sift-All n p qs h a.1)
  | inr here ↦ rw here (h, a)
]

sift-Falls : (p : TieredProvider) (qs : List TieredProvider) → Falls qs → Falls (sift p qs)
unfolding sift
sift-Falls p [] f = (tt, tt)
sift-Falls p (q ∷ qs) f = elim (Bool-cases (ltb p.tier q.tier)) [
  | inl past ↦ rw past (sift-All q.tier p qs (ground (arith, past)) f.0, sift-Falls p qs f.1)
  | inr here ↦
      let le : q.tier ≤ p.tier = ground (arith, here) in rw here ((le, below_each q p qs le f.0), f)
]

of_tier-sift :
    (k : ℕ) (p : TieredProvider) (qs : List TieredProvider)
    → of_tier k (sift p qs) ≡ of_tier k (p ∷ qs)
unfolding sift
of_tier-sift k p [] = refl
of_tier-sift k p (q ∷ qs) = ground (arith, of_tier-sift k p qs)

sift_all-Falls : (done ps : List TieredProvider) → Falls done → Falls (sift_all done ps)
unfolding sift_all
sift_all-Falls done [] f = f
sift_all-Falls done (p ∷ ps) f = sift_all-Falls (sift p done) ps (sift-Falls p done f)

of_tier-cons :
    (k : ℕ) (p : TieredProvider) (qs rs : List TieredProvider)
    → of_tier k qs ≡ of_tier k rs
    → of_tier k (p ∷ qs) ≡ of_tier k (p ∷ rs)
of_tier-cons k p qs rs e = ground (arith, e)

of_tier-from_left :
    (k : ℕ) (ps acc : List TieredProvider)
    → of_tier k (from_left ps acc) ≡ from_left (of_tier k ps) (of_tier k acc)
unfolding from_left
of_tier-from_left k [] acc = refl
of_tier-from_left k (p ∷ ps) acc = elim (Bool-cases (p.tier == k)) [
  | inl e ↦ of_tier-from_left k ps (p ∷ acc) ∙ rw e refl
  | inr n ↦ of_tier-from_left k ps (p ∷ acc) ∙ rw n refl
]

of_tier-sift_all :
    (k : ℕ) (done ps : List TieredProvider)
    → of_tier k (sift_all done ps) ≡ from_left (of_tier k ps) (of_tier k done)
unfolding sift_all from_left
of_tier-sift_all k done [] = refl
of_tier-sift_all k done (p ∷ ps) =
    of_tier-sift_all k (sift p done) ps
    ∙ ap (from_left (of_tier k ps)) (of_tier-sift k p done)
    ∙ elim (Bool-cases (p.tier == k)) [ inl e ↦ rw e refl | inr n ↦ rw n refl ]

from_left_twice :
    (ps acc rest : List TieredProvider)
    → from_left (from_left ps acc) rest ≡ from_left acc (ps ++ rest)
unfolding from_left
from_left_twice [] acc rest = refl
from_left_twice (p ∷ ps) acc rest = from_left_twice ps (p ∷ acc) rest

both_below :
    (p : TieredProvider) (ps acc : List TieredProvider)
    → All (λ q. q.tier ≤ p.tier) ps
    → All (λ q. All (λ a. q.tier ≤ a.tier) acc) ps
    → All (λ q. All (λ a. q.tier ≤ a.tier) (p ∷ acc)) ps
both_below p [] acc f h = tt
both_below p (q ∷ ps) acc f h = ((f.0, h.0), both_below p ps acc f.1 h.1)

from_left-Rises :
    (ps acc : List TieredProvider)
    → Falls ps
    → Rises acc
    → All (λ q. All (λ a. q.tier ≤ a.tier) acc) ps
    → Rises (from_left ps acc)
unfolding from_left
from_left-Rises [] acc f r h = r
from_left-Rises (p ∷ ps) acc f r h =
    from_left-Rises ps (p ∷ acc) f.1 (h.0, r) (both_below p ps acc f.0 h.1)

nothing_above :
    (ps : List TieredProvider)
    → All (λ (q : TieredProvider). All (λ (a : TieredProvider). q.tier ≤ a.tier) []) ps
nothing_above [] = tt
nothing_above (p ∷ ps) = (tt, nothing_above ps)

append_nothing : (ps : List TieredProvider) → ps ++ [] ≡ ps
append_nothing [] = refl
append_nothing (p ∷ ps) = ap (λ qs. p ∷ qs) (append_nothing ps)

-- A new router tries its providers by rising tier, and those of one tier in the order in which they
-- were given: for every tier it has the same providers in the same order, so none is lost or added.
pub new_tiered_router-Rises :
    (ps : List TieredProvider)
    → Rises (new_tiered_router ps) × ((k : ℕ) → of_tier k (new_tiered_router ps) ≡ of_tier k ps)
unfolding new_tiered_router from_left
new_tiered_router-Rises ps = (
  from_left-Rises (sift_all [] ps) [] (sift_all-Falls [] ps tt) tt (nothing_above (sift_all [] ps)),
  λ k.
      of_tier-from_left k (sift_all [] ps) []
      ∙ ap (λ qs. from_left qs []) (of_tier-sift_all k [] ps)
      ∙ from_left_twice (of_tier k ps) [] []
      ∙ append_nothing (of_tier k ps),
)
