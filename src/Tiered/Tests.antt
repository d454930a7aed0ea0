-- ===== src/Tiered/Tests.antt =====
-- The theorems about pkg/llm/router.go at three providers.
use uiauto_framework.Prelude.{ℕ, zero, suc, ◌≡◌, ◌⊎◌, List, [], ◌∷◌, Option, none, some, All}
use uiauto_framework.Tiered.{TieredProvider, new_tiered_provider, complete}
use uiauto_framework.Tiered.Complete.{Served, AllRefuse, refused_all, complete_lem}
use uiauto_framework.Tiered.Health.{
  looked, failed, succeeded, run, new_providers, Sound, run-new-Sound,
}

abbrev three : List TieredProvider
three =
    new_tiered_provider "qwen" 4
    ∷ new_tiered_provider "gemini" 1
    ∷ new_tiered_provider "claude" 4
    ∷ []

-- The first provider fails, the others answer with their number.
abbrev answers : ℕ → Option ℕ
answers zero = none
answers (suc i) = some (suc i)

complete_lem_example :
    Served answers 5 0 three (complete answers 5 three)
    ⊎ (AllRefuse answers 5 0 three × (complete answers 5 three ≡ (refused_all 5 three, none)))
complete_lem_example = complete_lem answers 5 three

run-new-Sound_example : All Sound (
    run
      (new_providers (("a", 1) ∷ []))
      (failed 0 1 ∷ failed 0 2 ∷ failed 0 3 ∷ looked 0 9 ∷ succeeded 0 ∷ []))
run-new-Sound_example =
    run-new-Sound (("a", 1) ∷ [])
      (failed 0 1 ∷ failed 0 2 ∷ failed 0 3 ∷ looked 0 9 ∷ succeeded 0 ∷ [])
