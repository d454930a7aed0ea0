-- ===== src/Escalation/Tests.antt =====
-- The theorem about pkg/uiauto/model_escalation_policy.go at the default policy.
use uiauto_framework.Tiers.{light, smart}
use uiauto_framework.Prelude.{◌≡◌, refl, ◌↔◌, some}
use uiauto_framework.Escalation.{default_escalation_policy, next_tier, prev_tier}
use uiauto_framework.Escalation.Order.{next_tier-prev_tier}

next_tier-prev_tier_example :
    (next_tier default_escalation_policy light ≡ some smart)
    ↔ (prev_tier default_escalation_policy smart ≡ some light)
next_tier-prev_tier_example =
    next_tier-prev_tier default_escalation_policy light smart (refl, (refl, (refl, tt)))
