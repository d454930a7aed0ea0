-- ===== src/RateLimit/Tests.antt =====
-- The theorems about pkg/llm/rate_limited.go at a limit of two requests.
use uiauto_framework.Prelude.{ℕ, ◌<◌, ◌≡◌, ◌≢◌, ◌⊎◌, refl, false, List, [], ◌∷◌, arith}
use uiauto_framework.RateLimit.{
  RateLimitedProvider, empty, granted, wait_for, index_panic, blocked, round, run, grants,
}
use uiauto_framework.RateLimit.Paced.{Paced, grants-new-Paced}
use uiauto_framework.RateLimit.Wait.{Bounded, fatal, wait_then_granted, run-new-Bounded}

abbrev times : List ℕ
times = 1 ∷ 2 ∷ 5 ∷ 11 ∷ 12 ∷ []

grants-new-Paced_example : Paced 2 10 [] (grants (empty 10 2) times)
grants-new-Paced_example =
    grants-new-Paced 2 10 0 times
      (omega arith, (omega arith, (omega arith, (omega arith, (omega arith, tt)))))

-- Two requests have gone through.
abbrev full : RateLimitedProvider
full = record { max_allowed = 2; window = 10; tokens = 1 ∷ 2 ∷ []; locked = false }

full_waits : (round full 5).1 ≡ wait_for 6
unfolding round
full_waits = refl

wait_then_granted_example : (0 < 6) × ((round (round full 5).0 11).1 ≡ granted)
wait_then_granted_example = wait_then_granted full 5 11 6 (omega arith) full_waits (omega arith)

abbrev limit : ℕ
limit = 2

run-new-Bounded_example :
    Bounded (run (empty 10 limit) times)
    × (((0 < limit)
          × ((round (run (empty 10 limit) times) 13).1 ≢ index_panic)
          × ((round (run (empty 10 limit) times) 13).1 ≢ blocked))
        ⊎ ((limit ≡ 0) × ((round (run (empty 10 limit) times) 13).1 ≡ fatal times)))
run-new-Bounded_example = run-new-Bounded limit 10 13 times
