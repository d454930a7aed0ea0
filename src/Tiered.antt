-- ===== src/Tiered.antt =====
-- pkg/llm/router.go: providers tried in the order of their tiers, each behind its own health state.
-- The clock, in nanoseconds, and the providers' answers are arguments.
mod Sort
mod Complete
mod Health
mod Tests
use uiauto_framework.Prelude.{
  ℕ, zero, suc, ◌+◌, ◌-◌, ◌*◌, Bool, true, false, not, List, [], ◌∷◌, ◌++◌, String, Option, none,
  some, ltb, leb, if◌then◌else◌,
}

-- `tier` is one of the numbers 1 to 4, from `TierFree` to `TierLocal`.
pub record TieredProvider : Type 0 where
  pub name : String
  pub tier : ℕ
  pub healthy : Bool
  pub fail_count : ℕ
  pub last_failure : ℕ
  pub cooldown : ℕ

abbrev pub second : ℕ
second = 1_000_000_000

unfoldable pub new_tiered_provider : String → ℕ → TieredProvider
new_tiered_provider name tier = record {
  name = name;
  tier = tier;
  healthy = true;
  fail_count = 0;
  last_failure = 0;
  cooldown = 30 * second;
}

pub is_available : ℕ → TieredProvider → TieredProvider × Bool
is_available now p =
    if p.healthy
    then (p, true)
    else if ltb (p.last_failure + p.cooldown) now
    then (record p { healthy = true; fail_count = 0 }, true)
    else (p, false)

pub record_success : TieredProvider → TieredProvider
record_success p = record p { healthy = true; fail_count = 0 }

-- `failCount * 10 * time.Second`, at most five minutes.
pub cooldown_after : ℕ → ℕ
cooldown_after fails =
    let d = fails * 10 * second in if ltb (300 * second) d then 300 * second else d

pub record_failure : ℕ → TieredProvider → TieredProvider
unfolding cooldown_after
record_failure now p =
    let fails = p.fail_count + 1 in
    if leb 3 fails
    then record p {
      fail_count = fails;
      last_failure = now;
      healthy = false;
      cooldown = cooldown_after fails;
    }
    else record p { fail_count = fails; last_failure = now }

-- The inner loop of `NewTieredRouter`: the provider goes left past those of a larger tier. The
-- sorted part of the array is written from its right end.
sift : TieredProvider → List TieredProvider → List TieredProvider
sift p [] = p ∷ []
sift p (q ∷ qs) = let rest = sift p qs in if ltb p.tier q.tier then q ∷ rest else p ∷ q ∷ qs

-- The outer loop; then the array from its left end.
sift_all : List TieredProvider → List TieredProvider → List TieredProvider
unfolding sift
sift_all done [] = done
sift_all done (p ∷ ps) = sift_all (sift p done) ps

from_left : List TieredProvider → List TieredProvider → List TieredProvider
from_left [] acc = acc
from_left (p ∷ ps) acc = from_left ps (p ∷ acc)

pub new_tiered_router : List TieredProvider → List TieredProvider
unfolding sift_all from_left
new_tiered_router ps = from_left (sift_all [] ps) []

-- `Complete` of the router, from the provider with number `i` on; `answers` says what each provider
-- answers, with none for an error.
pub complete_from :
    {A : Type 0} → (ℕ → Option A) → ℕ → ℕ → List TieredProvider → List TieredProvider × Option A
complete_from answers now i [] = ([], none)
complete_from answers now i (p ∷ ps) =
    let (p', up) = is_available now p in
    let (rest, found) = complete_from answers now (suc i) ps in
    if not up then (p' ∷ rest, found) else elim (answers i) [
      | none ↦ (record_failure now p' ∷ rest, found)
      | some r ↦ (record_success p' ∷ ps, some r)
    ]

pub complete :
    {A : Type 0} → (ℕ → Option A) → ℕ → List TieredProvider → List TieredProvider × Option A
complete answers now ps = complete_from answers now 0 ps
