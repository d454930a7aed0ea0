-- ===== src/Tiers.antt =====
-- The model tiers of pkg/uiauto/model_router.go.
pub mod Laws
use uiauto_framework.Prelude.{ℕ, Bool, true, false, String}

pub data ModelTier : Type 0 where
  light smart vlm wsl_fast wsl_smart wsl_powerful : ModelTier

unfoldable pub tier_string : ModelTier → String
tier_string light = "light"
tier_string smart = "smart"
tier_string vlm = "vlm"
tier_string wsl_fast = "wsl-fast"
tier_string wsl_smart = "wsl-smart"
tier_string wsl_powerful = "wsl-powerful"

-- The `iota` values.
abbrev pub tier_index : ModelTier → ℕ
tier_index light = 0
tier_index smart = 1
tier_index vlm = 2
tier_index wsl_fast = 3
tier_index wsl_smart = 4
tier_index wsl_powerful = 5

-- `currentTier--` above the first value, and `currentTier++` below the last.
abbrev pub tier_below : ModelTier → ModelTier
tier_below light = light
tier_below smart = light
tier_below vlm = smart
tier_below wsl_fast = vlm
tier_below wsl_smart = wsl_fast
tier_below wsl_powerful = wsl_smart

abbrev pub tier_above : ModelTier → ModelTier
tier_above light = smart
tier_above smart = vlm
tier_above vlm = wsl_fast
tier_above wsl_fast = wsl_smart
tier_above wsl_smart = wsl_powerful
tier_above wsl_powerful = wsl_powerful

pub is_wsl_tier : ModelTier → Bool
is_wsl_tier wsl_fast = true
is_wsl_tier wsl_smart = true
is_wsl_tier wsl_powerful = true
is_wsl_tier _ = false

pub to_wsl_tier : ModelTier → ModelTier
to_wsl_tier light = wsl_fast
to_wsl_tier smart = wsl_smart
to_wsl_tier vlm = wsl_powerful
to_wsl_tier t = t

pub ModelTier-discrete : Discrete ModelTier
ModelTier-discrete = hlevel

abbrev pub tier_eq : ModelTier → ModelTier → Bool
tier_eq light light = true
tier_eq smart smart = true
tier_eq vlm vlm = true
tier_eq wsl_fast wsl_fast = true
tier_eq wsl_smart wsl_smart = true
tier_eq wsl_powerful wsl_powerful = true
tier_eq _ _ = false
