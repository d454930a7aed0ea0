-- ===== src/Budget/Tests.antt =====
-- The theorems about pkg/uiauto/budget/router.go at small routers.
use uiauto_framework.Prelude.{◌≡◌, refl, true, false, List, [], ◌∷◌, none, arith}
use uiauto_framework.Budget.{Tier, BudgetConfig, Router, new_router, select_tier}
use uiauto_framework.Budget.Caps.{Within, serve_all, serve_all-new-Within}
use uiauto_framework.Budget.Spent.{month_never_resets}

abbrev remote : List Tier
remote =
    record {
      name = "claude";
      cost_per_call = 600_000;
      avg_latency_ms = 300;
      success_percent = 95;
      is_local = false;
      gpu = none;
    }
    ∷ []

-- A month's cap is spent by one call.
abbrev one_call : BudgetConfig
one_call = record {
  daily_cap = 1_000_000;
  monthly_cap = 1_000_000;
  prefer_local = true;
  reset_interval = 10;
}

serve_all-new-Within_example : Within (serve_all (1 ∷ 2 ∷ 30 ∷ []) (new_router 0 remote one_call))
serve_all-new-Within_example =
    serve_all-new-Within 0 remote one_call ((λ e. absurd (ground (arith, e))), tt) (1 ∷ 2 ∷ 30 ∷ [])

abbrev spent : Router
spent = record {
  tiers = remote;
  config = one_call;
  daily_spend = 600_000;
  monthly_spend = 600_000;
  last_reset = 0;
  call_counts = ("claude", 1) ∷ [];
}

month_never_resets_example : (select_tier 1_000_000 (serve_all (20 ∷ 40 ∷ []) spent)).1 ≡ none
month_never_resets_example =
    month_never_resets spent ((refl, omega arith), tt) (20 ∷ 40 ∷ []) 1_000_000
