-- ===== src/FairShare/Tests.antt =====
-- The theorems about pkg/llm/fairshare.go at two users and a pool of two nodes.
use uiauto_framework.Prelude.{
  ℕ, zero, suc, ◌≡◌, refl, ◌+◌, ◌<◌, ◌⊎◌, Bool, true, false, List, [], ◌∷◌, String, str_eq, Option,
  none, some, ℤ, pos, arith, All, if◌then◌else◌,
}
use uiauto_framework.Upstream.{
  NodeConfig, UpstreamPool, new_upstream_pool, mark_unhealthy, mark_healthy,
}
use uiauto_framework.FairShare.{
  Request, Scheduler, SubmitError, user_queue_full, scheduler_closed, new_fair_share_scheduler,
  submit, finish, start, Step, submits, sends, takes, starts, Reach, here, next,
}
use uiauto_framework.FairShare.Steps.{Inv, Reach-Inv}
use uiauto_framework.FairShare.Lockout.{Abandons, abandoned_lock_out}
use uiauto_framework.FairShare.Process.{
  response, no_healthy_upstream, upstream_error, process_request, process_request_lem, Target,
}

abbrev fresh : Scheduler
fresh = new_fair_share_scheduler (pos 1) (pos 1)

abbrev asked : Scheduler
asked = (submit fresh "ann").0

abbrev request : Request
request = record { pointer = 0; user = "ann" }

abbrev sent : Scheduler
sent = record asked { sending = []; incoming = request ∷ [] }

abbrev taken : Scheduler
taken = record sent { holding = some request; incoming = [] }

abbrev working : Scheduler
working = start request taken

working-Reach : Reach fresh working
unfolding submit new_fair_share_scheduler uiauto_framework.FairShare.queue_of
    uiauto_framework.Prelude.Text.lookup uiauto_framework.FairShare.enqueue
working-Reach =
    next
      (next (next (next here (submits "ann" refl)) (sends [] [] request refl (omega arith) refl))
        (takes request [] refl refl refl refl))
      (starts request refl (omega arith) refl)

Reach-Inv_example : Inv working
Reach-Inv_example = Reach-Inv (pos 1) (pos 1) working-Reach

abandoned_lock_out_example :
    (s : Scheduler) × Abandons "ann" fresh 1 s
    × Reach fresh s
    × (s.closed ≡ false)
    × (s.sending ≡ [])
    × (s.incoming ≡ [])
    × (s.holding ≡ none)
    × (s.running ≡ [])
    × (s.finishing ≡ [])
    × ((t : Scheduler)
        → Reach s t
        → (submit t "ann").1 ≡ (if t.closed then some scheduler_closed else some user_queue_full))
abandoned_lock_out_example = abandoned_lock_out (pos 1) (pos 1) "ann" refl

abbrev node : String → String → ℤ → NodeConfig
node name tier weight = record {
  name = name;
  url = "";
  tier = tier;
  weight = weight;
  models = [];
  fail_count = 0;
  last_check = 0;
  last_failure = 0;
}

abbrev pool : UpstreamPool
pool = new_upstream_pool (node "a" "fast" (pos 1) ∷ node "b" "heavy" (pos 2) ∷ []) (pos 1)

-- The first node fails, the second answers 7.
abbrev provider : ℕ → Option ℕ
provider zero = none
provider (suc i) = some 7

process_request_lem_example :
    ((i : ℕ) × Target pool "heavy" i
      × (process_request provider 9 "heavy" 1 0 pool ≡ elim (provider i) [
        | none ↦ (mark_unhealthy pool i 9, upstream_error i)
        | some resp ↦ (mark_healthy pool i, response resp)
      ]))
    ⊎ ((process_request provider 9 "heavy" 1 0 pool ≡ (pool, no_healthy_upstream))
        × All (λ n. n.healthy ≡ false) pool.nodes)
process_request_lem_example = process_request_lem provider 9 "heavy" 1 0 pool
