-- ===== src/Upstream/Tests.antt =====
-- The theorems about pkg/llm/upstream_pool.go at a pool of two nodes.
use uiauto_framework.Prelude.{refl, true, false, List, [], ◌∷◌, pos}
use uiauto_framework.Upstream.{NodeConfig, UpstreamPool, new_upstream_pool}
use uiauto_framework.Upstream.Health.{AllMarked, failed, succeeded, probed, run, run-new-AllMarked}

-- The second node has failed once in an earlier pool.
abbrev configured : List NodeConfig
configured =
    record {
      name = "a";
      url = "";
      tier = "fast";
      weight = pos 1;
      models = [];
      fail_count = 0;
      last_check = 0;
      last_failure = 0;
    }
    ∷ record {
      name = "b";
      url = "";
      tier = "heavy";
      weight = pos 2;
      models = [];
      fail_count = 1;
      last_check = 0;
      last_failure = 0;
    }
    ∷ []

abbrev two : UpstreamPool
two = new_upstream_pool configured (pos 2)

run-new-AllMarked_example :
    AllMarked (run two (failed 0 1 ∷ failed 0 2 ∷ probed 3 (true ∷ false ∷ []) ∷ succeeded 1 ∷ []))
run-new-AllMarked_example =
    run-new-AllMarked configured (pos 2)
      (failed 0 1 ∷ failed 0 2 ∷ probed 3 (true ∷ false ∷ []) ∷ succeeded 1 ∷ []) (refl, (refl, tt))
