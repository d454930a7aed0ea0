-- ===== src/Cluster/Tests.antt =====
-- The theorem about pkg/uiauto/pattern_cluster.go at two patterns of one page and one of another.
use uiauto_framework.Names.{mem, Distinct}
use uiauto_framework.Prelude.{ℕ, ◌≡◌, refl, List, [], ◌∷◌, String}
use uiauto_framework.Similarity.{DomFingerprint}
use uiauto_framework.Cluster.{UiPattern, Patterns, cluster, keys}
use uiauto_framework.Cluster.Partition.{IsSort, all_members, Apart, cluster_lem}

abbrev page : String → DomFingerprint
page tag = record {
  tag_counts = (tag, 2) ∷ [];
  total_nodes = 2;
  class_fingerprint = tag;
  text_patterns = tag ∷ [];
  data_attrs = [];
  role_map = [];
}

abbrev pattern_on : String → String → ℕ → UiPattern
pattern_on key tag seen = record {
  id = key;
  selector = "#a";
  description = key;
  fingerprint = page tag;
  last_seen = seen;
  confidence = 900;
}

abbrev three : Patterns
three =
    ("a", pattern_on "a" "div" 3)
    ∷ ("b", pattern_on "b" "form" 4)
    ∷ ("c", pattern_on "c" "div" 5)
    ∷ []

abbrev whole : String → List String
whole s = s ∷ []

-- The keys are sorted already.
abbrev unmoved : List String → List String
unmoved xs = xs

unmoved-IsSort : IsSort unmoved
unmoved-IsSort = record { kept = λ v xs. refl; distinct = λ xs d. d }

cluster_lem_example :
    Distinct (all_members (cluster whole (record { num = 3; den = 5 }) unmoved three))
    × ((v : String)
        → mem v (all_members (cluster whole (record { num = 3; den = 5 }) unmoved three))
          ≡ mem v (keys three))
    × Apart whole
        (record { num = 3; den = 5 })
        three
        (cluster whole (record { num = 3; den = 5 }) unmoved three)
unfolding keys
cluster_lem_example =
    cluster_lem whole (record { num = 3; den = 5 }) three unmoved unmoved-IsSort
      (refl, (refl, (refl, tt)))
