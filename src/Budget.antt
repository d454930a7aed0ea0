-- ===== src/Budget.antt =====
-- pkg/uiauto/budget/router.go: the cheapest tier that the budget allows. Amounts of money, which the
-- source keeps as floating-point dollars, are whole numbers of micro-dollars; the clock is an argument.
mod Caps
mod Spent
mod Tests
use uiauto_framework.Prelude.{
  ℕ, suc, ◌+◌, ◌-◌, ◌≡◌, Bool, true, false, ◌&&◌, ◌||◌, List, [], ◌∷◌, String, Option, none, some,
  ltb, leb, if◌then◌else◌, insert, lookup,
}

pub record GpuRequirements : Type 0 where
  pub vram_per_gpu_gb : ℕ
  pub gpu_count : ℕ
  pub quantization : String
  pub tensor_parallel : Bool

pub record Tier : Type 0 where
  pub name : String
  pub cost_per_call : ℕ
  pub avg_latency_ms : ℕ
  pub success_percent : ℕ
  pub is_local : Bool
  pub gpu : Option GpuRequirements

pub record BudgetConfig : Type 0 where
  pub daily_cap : ℕ
  pub monthly_cap : ℕ
  pub prefer_local : Bool
  pub reset_interval : ℕ

abbrev pub default_budget_config : BudgetConfig
default_budget_config = record {
  daily_cap = 1_000_000;
  monthly_cap = 20_000_000;
  prefer_local = true;
  reset_interval = 86_400_000_000_000;
}

pub record Router : Type 0 where
  pub tiers : List Tier
  pub config : BudgetConfig
  pub daily_spend : ℕ
  pub monthly_spend : ℕ
  pub last_reset : ℕ
  pub call_counts : List (String × ℕ)

unfoldable pub new_router : ℕ → List Tier → BudgetConfig → Router
new_router now tiers cfg = record {
  tiers = tiers;
  config = cfg;
  daily_spend = 0;
  monthly_spend = 0;
  last_reset = now;
  call_counts = [];
}

pub maybe_reset : ℕ → Router → Router
maybe_reset now r =
    if leb r.config.reset_interval (now - r.last_reset)
    then record r { daily_spend = 0; last_reset = now }
    else r

pub can_afford : Router → Tier → Bool
can_afford r t =
    if t.is_local
    then true
    else leb (r.daily_spend + t.cost_per_call) r.config.daily_cap
      && leb (r.monthly_spend + t.cost_per_call) r.config.monthly_cap

-- The two loops of `SelectTier`.
pub first_viable : Router → List Tier → Option Tier
first_viable r [] = none
first_viable r (t ∷ ts) =
    let rest = first_viable r ts in
    if r.config.prefer_local && t.is_local then some t else if can_afford r t then some t else rest

pub first_local : List Tier → Option Tier
first_local [] = none
first_local (t ∷ ts) = let rest = first_local ts in if t.is_local then some t else rest

pub or_else : Option Tier → Option Tier → Option Tier
or_else (some t) other = some t
or_else none other = other

-- `SelectTier`; none is the error that the budget is exhausted.
pub select_tier : ℕ → Router → Router × Option Tier
select_tier now r =
    let q = maybe_reset now r in (q, or_else (first_viable q q.tiers) (first_local q.tiers))

pub counted : Option ℕ → ℕ
counted none = 0
counted (some n) = n

pub record_call : String → ℕ → Router → Router
record_call name cost r = record r {
  daily_spend = r.daily_spend + cost;
  monthly_spend = r.monthly_spend + cost;
  call_counts = insert name (counted (lookup name r.call_counts) + 1) r.call_counts;
}

abbrev tier : String → ℕ → ℕ → ℕ → Bool → Tier
tier name cost latency success here = record {
  name = name;
  cost_per_call = cost;
  avg_latency_ms = latency;
  success_percent = success;
  is_local = here;
  gpu = none;
}

abbrev pub default_tiers : List Tier
default_tiers =
    tier "local-qwen" 0 200 85 true
    ∷ tier "gemini-flash" 1_000 150 92 false
    ∷ tier "claude-haiku" 5_000 300 95 false
    ∷ tier "claude-opus" 25_000 500 99 false
    ∷ []
