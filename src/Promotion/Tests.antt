-- ===== src/Promotion/Tests.antt =====
-- The theorems about pkg/evolver/promotion.go at one submission.
use uiauto_framework.Prelude.{true, false, List, [], ◌∷◌, String, some, All}
use uiauto_framework.Promotion.{
  EvaluationResult, low, PromotionPipelineConfig, PromotionPipeline, new_promotion_pipeline,
}
use uiauto_framework.Promotion.Vetting.{Vetted}
use uiauto_framework.Promotion.Runs.{
  Event, begins, ends, approves, rejects, starts, saves, after, Reachable, fresh, next,
  reachable-Vetted,
}
use uiauto_framework.Promotion.Counters.{Balanced, reachable-Balanced}

abbrev below : EvaluationResult → String
below e = "below"

abbrev all_by_hand : PromotionPipelineConfig
all_by_hand = record { auto_promote_low_risk = false; require_hitl = true }

-- A rejection comes while the capsule is being saved.
abbrev raced : List Event
raced =
    saves "capsule" 5 0
    ∷ rejects "m" "bob" "late" 4
    ∷ starts "m"
    ∷ approves "m" "ann" "good" 2
    ∷ ends 1 (some (record { score = 9; max_score = 10; passes = true })) 0
    ∷ begins (record { id = "m"; risk_estimate = low })
    ∷ []

after_all : List Event → PromotionPipeline
after_all [] = new_promotion_pipeline all_by_hand
after_all (e ∷ es) = after below e (after_all es)

reached : (es : List Event) → Reachable below (after_all es)
unfolding after_all
reached [] = fresh all_by_hand
reached (e ∷ es) = next e (reached es)

reachable-Vetted_example : All Vetted (after_all raced).heap
reachable-Vetted_example = reachable-Vetted below (after_all raced) (reached raced)

reachable-Balanced_example : Balanced (after_all raced)
reachable-Balanced_example = reachable-Balanced below (after_all raced) (reached raced)
