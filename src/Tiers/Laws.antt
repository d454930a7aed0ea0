-- ===== src/Tiers/Laws.antt =====
-- The mapping of tiers onto the local fleet in pkg/uiauto/model_router.go.
use uiauto_framework.Prelude.{◌≡◌, true, false, arith, ◌+◌}
use uiauto_framework.Tiers.{ModelTier, is_wsl_tier, to_wsl_tier, tier_index, tier_eq}

-- Every tier is mapped to a local one, a local tier to itself, and distinct standard tiers to
-- distinct local ones in the same order, three values up.
pub to_wsl_tier_lem :
    (t : ModelTier)
    → (is_wsl_tier (to_wsl_tier t) ≡ true)
      × (to_wsl_tier (to_wsl_tier t) ≡ to_wsl_tier t)
      × (is_wsl_tier t ≡ false → tier_index (to_wsl_tier t) ≡ tier_index t + 3)
unfolding to_wsl_tier is_wsl_tier
to_wsl_tier_lem t = ground arith

pub tier_eq→eq : (s t : ModelTier) → tier_eq s t ≡ true → s ≡ t
tier_eq→eq s t h = ground arith
