-- ===== src/Tiered/Health.antt =====
-- The health state of the providers of pkg/llm/router.go.
use uiauto_framework.Prelude.{
  ℕ, zero, suc, ◌*◌, ◌≤◌, ◌≡◌, refl, false, List, [], ◌∷◌, String, ltb, arith, All,
}
use uiauto_framework.Tiered.{
  TieredProvider, second, new_tiered_provider, is_available, record_success, record_failure,
  cooldown_after,
}

-- A call of one provider, by its number; calls of several requests may come in any order.
pub data Event : Type 0 where
  looked failed : ℕ → ℕ → Event
  succeeded : ℕ → Event

-- An update of the provider at an index.
update : (TieredProvider → TieredProvider) → ℕ → List TieredProvider → List TieredProvider
update f i [] = []
update f zero (p ∷ ps) = f p ∷ ps
update f (suc i) (p ∷ ps) = p ∷ update f i ps

pub step : List TieredProvider → Event → List TieredProvider
unfolding update
step ps (looked i now) = update (λ p. (is_available now p).0) i ps
step ps (failed i now) = update (record_failure now) i ps
step ps (succeeded i) = update record_success i ps

pub run : List TieredProvider → List Event → List TieredProvider
run ps [] = ps
run ps (e ∷ es) = run (step ps e) es

-- Healthy means fewer than three failures in a row; an unhealthy provider rests ten seconds for
-- each failure, up to five minutes.
pub record Sound (p : TieredProvider) : Type 0 where
  pub marked : p.healthy ≡ ltb p.fail_count 3
  pub resting : p.healthy ≡ false → p.cooldown ≡ cooldown_after p.fail_count
  pub at_least : 30 * second ≤ p.cooldown
  pub at_most : p.cooldown ≤ 300 * second

look-Sound : (now : ℕ) (p : TieredProvider) → Sound p → Sound (is_available now p).0
unfolding is_available
look-Sound now p v = ground (arith, v)

fail-Sound : (now : ℕ) (p : TieredProvider) → Sound p → Sound (record_failure now p)
unfolding record_failure
fail-Sound now p v = ground (arith, v)

succeed-Sound : (p : TieredProvider) → Sound p → Sound (record_success p)
unfolding record_success
succeed-Sound p v = ground (arith, v)

update-All :
    (f : TieredProvider → TieredProvider)
    → ((p : TieredProvider) → Sound p → Sound (f p))
    → (i : ℕ) (ps : List TieredProvider) → All Sound ps
    → All Sound (update f i ps)
unfolding update
update-All f keep i [] h = tt
update-All f keep zero (p ∷ ps) h = (keep p h.0, h.1)
update-All f keep (suc i) (p ∷ ps) h = (h.0, update-All f keep i ps h.1)

step-All : (ps : List TieredProvider) (e : Event) → All Sound ps → All Sound (step ps e)
unfolding step
step-All ps (looked i now) h = update-All (λ p. (is_available now p).0) (look-Sound now) i ps h
step-All ps (failed i now) h = update-All (record_failure now) (fail-Sound now) i ps h
step-All ps (succeeded i) h = update-All record_success succeed-Sound i ps h

pub new_providers : List (String × ℕ) → List TieredProvider
new_providers [] = []
new_providers ((name, tier) ∷ rest) = new_tiered_provider name tier ∷ new_providers rest

new-All : (cs : List (String × ℕ)) → All Sound (new_providers cs)
unfolding new_providers new_tiered_provider cooldown_after
new-All [] = tt
new-All ((name, tier) ∷ rest) = (
  record { marked = refl; resting = λ h. cc; at_least = omega arith; at_most = omega arith },
  new-All rest,
)

run-All : (ps : List TieredProvider) (es : List Event) → All Sound ps → All Sound (run ps es)
unfolding run
run-All ps [] h = h
run-All ps (e ∷ es) h = run-All (step ps e) es (step-All ps e h)

-- In every interleaving of availability checks, failures and successes of any requests, each of the
-- new providers is healthy exactly when it has fewer than three failures in a row, and its cooldown
-- stays between thirty seconds and five minutes; while it is unhealthy, the cooldown is ten seconds
-- for each failure, but at most five minutes.
pub run-new-Sound :
    (cs : List (String × ℕ)) (es : List Event) → All Sound (run (new_providers cs) es)
run-new-Sound cs es = run-All (new_providers cs) es (new-All cs)
