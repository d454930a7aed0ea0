-- ===== src/Cluster.antt =====
-- pkg/uiauto/pattern_cluster.go: the patterns grouped by the similarity of their fingerprints. A
-- confidence is a whole number of parts, a time a number, and the average and the threshold are
-- fractions; how class lists are split and `sort.Strings` are arguments.
mod Gather
mod Partition
mod Tests
use uiauto_framework.Names.{mem}
use uiauto_framework.Prelude.{
  ℕ, ◌+◌, ◌*◌, Bool, true, false, ◌&&◌, ◌||◌, List, [], ◌∷◌, ◌++◌, String, str_append, Option, none,
  some, ltb, leb, ◌==◌, if◌then◌else◌, lookup, length, map,
}
use uiauto_framework.Similarity.{Score, DomFingerprint, dom_fingerprint_similarity}

pub record UiPattern : Type 0 where
  pub id : String
  pub selector : String
  pub description : String
  pub fingerprint : DomFingerprint
  pub last_seen : ℕ
  pub confidence : ℕ

abbrev pub Patterns : Type 0
Patterns = List (String × UiPattern)

pub record PatternCluster : Type 0 where
  pub id : String
  pub label : String
  pub centroid : DomFingerprint
  pub members : List String
  pub avg_confidence : Score
  pub last_updated : ℕ

-- `NewClusterEngine`: a threshold outside of 0 to 1 is replaced by 0.6.
pub new_cluster_engine : Score → Score
new_cluster_engine threshold =
    if threshold.num == 0 || ltb threshold.den threshold.num
    then record { num = 3; den = 5 }
    else threshold

abbrev no_pattern : UiPattern
no_pattern = record {
  id = "";
  selector = "";
  description = "";
  fingerprint = record {
    tag_counts = [];
    total_nodes = 0;
    class_fingerprint = "";
    text_patterns = [];
    data_attrs = [];
    role_map = [];
  };
  last_seen = 0;
  confidence = 0;
}

abbrev or_zero : Option UiPattern → UiPattern
or_zero none = no_pattern
or_zero (some p) = p

-- `patterns[id]`, the zero value where it is missing.
pub pattern_of : Patterns → String → UiPattern
pattern_of patterns key = or_zero (lookup key patterns)

pub keys : Patterns → List String
keys [] = []
keys ((k, p) ∷ ps) = k ∷ keys ps

pub sum_confidence : Patterns → List String → ℕ
sum_confidence patterns [] = 0
sum_confidence patterns (k ∷ ks) = (pattern_of patterns k).confidence + sum_confidence patterns ks

pub avg_confidence : Patterns → List String → Score
avg_confidence patterns members =
    if length members == 0
    then record { num = 0; den = 1 }
    else record { num = sum_confidence patterns members; den = length members }

pub latest : Patterns → ℕ → List String → ℕ
latest patterns t [] = t
latest patterns t (k ∷ ks) =
    let seen = (pattern_of patterns k).last_seen in
    latest patterns (if ltb t seen then seen else t) ks

module _ (parts : String → List String) (threshold : Score) where
  -- `sim >= ce.threshold`, where a similarity counts twentieths; 0/0 compares as false.
  pub similar : DomFingerprint → DomFingerprint → Bool
  similar f g =
      let sim = dom_fingerprint_similarity parts f g in
      ltb 0 sim.den && leb (threshold.num * (20 * sim.den)) (sim.num * threshold.den)

  -- The inner loop: the identifiers that join the cluster of `seed`.
  pub joined : Patterns → DomFingerprint → List String → List String → List String
  joined patterns seed [] assigned = []
  joined patterns seed (k ∷ ks) assigned =
      let skip = joined patterns seed ks assigned in
      let take = joined patterns seed ks (k ∷ assigned) in
      if mem k assigned
      then skip
      else if similar seed (pattern_of patterns k).fingerprint
      then k ∷ take
      else skip

  pub members_of : Patterns → List String → String → List String → List String
  members_of patterns ids key assigned =
      key ∷ joined patterns (pattern_of patterns key).fingerprint ids (key ∷ assigned)

  pub cluster_of : Patterns → String → List String → PatternCluster
  cluster_of patterns key members =
      let p = pattern_of patterns key in
      record {
        id = str_append "cluster-" key;
        label = p.description;
        centroid = p.fingerprint;
        members = members;
        avg_confidence = avg_confidence patterns members;
        last_updated = latest patterns p.last_seen members;
      }

  -- The outer loop; `assigned` are the keys of the source's map.
  pub clusters_from : Patterns → List String → List String → List String → List PatternCluster
  clusters_from patterns ids [] assigned = []
  clusters_from patterns ids (key ∷ rest) assigned =
      let members = members_of patterns ids key assigned in
      let skip = clusters_from patterns ids rest assigned in
      let next = clusters_from patterns ids rest (members ++ assigned) in
      if mem key assigned then skip else cluster_of patterns key members ∷ next

  -- `Cluster`
  pub cluster : (List String → List String) → Patterns → List PatternCluster
  cluster sort patterns = let ids = sort (keys patterns) in clusters_from patterns ids ids []
