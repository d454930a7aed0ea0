-- ===== src/Cluster/Partition.antt =====
-- The clusters that pkg/uiauto/pattern_cluster.go makes.
use text.Mathlib.TextEquality.{eq_iff}
use uiauto_framework.Names.{mem, Distinct, mem-append}
use uiauto_framework.Similarity.Sums.{Distinct-append_disjoint}
use uiauto_framework.Prelude.{
  ◌≡◌, refl, ap, inl, inr, Bool, Bool-cases, true, false, not, ◌&&◌, ◌||◌, List, [], ◌∷◌, ◌++◌,
  String, str_eq, arith, if◌then◌else◌, All,
}
use uiauto_framework.Similarity.{Score, DomFingerprint}
use uiauto_framework.Cluster.{
  Patterns, PatternCluster, pattern_of, keys, similar, members_of, cluster_of, clusters_from,
  cluster,
}
use uiauto_framework.Cluster.Gather.{mem-joined, joined-Distinct}

-- What a sort of names does: it keeps the names, and their distinctness.
pub record IsSort (sort : List String → List String) : Type 0 where
  pub kept : (v : String) (xs : List String) → mem v (sort xs) ≡ mem v xs
  pub distinct : (xs : List String) → Distinct xs → Distinct (sort xs)

-- The members of all clusters.
abbrev pub all_members : List PatternCluster → List String
all_members [] = []
all_members (c ∷ cs) = c.members ++ all_members cs

module _ (parts : String → List String) (threshold : Score) (patterns : Patterns) where
  abbrev pub close : DomFingerprint → String → Bool
  close f v = similar parts threshold f (pattern_of patterns v).fingerprint

  -- Each member but the first is similar to the centroid, which is the first one's fingerprint, and no
  -- member of a later cluster is.
  abbrev pub Gathered : List String → DomFingerprint → Type 0
  Gathered [] f = ⊥
  Gathered (k ∷ ks) f = (f ≡ (pattern_of patterns k).fingerprint) × All (λ v. close f v ≡ true) ks

  abbrev pub Apart : List PatternCluster → Type 0
  Apart [] = Unit {0}
  Apart (c ∷ cs) =
      Gathered c.members c.centroid
      × All (λ v. close c.centroid v ≡ false) (all_members cs)
      × Apart cs

  each_member :
      (P : String → Type 0) (xs : List String) → ((v : String) → mem v xs ≡ true → P v) → All P xs
  each_member P [] h = tt
  each_member P (x ∷ xs) h =
      (h x (ground (arith, eq_iff x x)), each_member P xs (λ v m. h v (ground (arith, m))))

  abbrev made : List String → List String → List String → List PatternCluster
  made ids rest assigned = clusters_from parts threshold patterns ids rest assigned

  abbrev group : List String → String → List String → List String
  group ids k assigned = members_of parts threshold patterns ids k assigned

  -- The clusters made from `rest` hold what was free, once, and all of `rest`.
  record Made (ids rest assigned : List String) (ms : List String) : Type 0 where
    once : Distinct ms
    free : (v : String) → mem v ms ≡ true → mem v assigned ≡ false
    known : (v : String) → mem v ms ≡ true → mem v ids ≡ true
    all : (v : String) → mem v rest ≡ true → (mem v assigned || mem v ms) ≡ true

  Within : List String → List String → Type 0
  Within rest ids = (v : String) → mem v rest ≡ true → mem v ids ≡ true

  mem-group :
      (ids assigned : List String) (k v : String)
      → mem v (group ids k assigned) ≡ (
          str_eq v k
          || (mem v ids
              && (not (mem v (k ∷ assigned)) && close (pattern_of patterns k).fingerprint v)))
  unfolding members_of
  mem-group ids assigned k v = ground (
    arith,
    mem-joined parts threshold patterns (pattern_of patterns k).fingerprint v ids (k ∷ assigned),
  )

  group-Distinct : (ids assigned : List String) (k : String) → Distinct (group ids k assigned)
  unfolding members_of
  group-Distinct ids assigned k =
      let seed = (pattern_of patterns k).fingerprint in
      (
        ground (arith, mem-joined parts threshold patterns seed k ids (k ∷ assigned), eq_iff k k),
        joined-Distinct parts threshold patterns seed ids (k ∷ assigned),
      )

  mem_same : (v k : String) (xs : List String) → str_eq v k ≡ true → mem v xs ≡ mem k xs
  mem_same v k xs e = ap (λ (w : String). mem w xs) ((eq_iff v k).0 e)

  grown-Made :
      (ids rest assigned : List String) (k : String) (ms : List String)
      → mem k assigned ≡ false
      → mem k ids ≡ true
      → Made ids rest (group ids k assigned ++ assigned) ms
      → Made ids (k ∷ rest) assigned (group ids k assigned ++ ms)
  grown-Made ids rest assigned k ms fresh there h = record {
    once =
        Distinct-append_disjoint (group ids k assigned) ms (group-Distinct ids assigned k) h.once
          (λ v m. elim (Bool-cases (mem v ms)) [
            | inl twice ↦
                ground (arith, m, h.free v twice, mem-append v (group ids k assigned) assigned)
            | inr new ↦ new
          ]);
    free = λ v m. elim (Bool-cases (mem v ms)) [
      | inl later ↦ ground (arith, h.free v later, mem-append v (group ids k assigned) assigned)
      | inr here ↦ ground (
        arith,
        m,
        here,
        mem-append v (group ids k assigned) ms,
        mem-group ids assigned k v,
        mem_same v k assigned,
        fresh,
      )
    ];
    known = λ v m. elim (Bool-cases (mem v ms)) [
      | inl later ↦ h.known v later
      | inr here ↦ ground (
        arith,
        m,
        here,
        mem-append v (group ids k assigned) ms,
        mem-group ids assigned k v,
        mem_same v k ids,
        there,
      )
    ];
    all = λ v m. ground (
      arith,
      m,
      h.all v,
      mem-append v (group ids k assigned) ms,
      mem-append v (group ids k assigned) assigned,
      mem-group ids assigned k v,
    );
  }

  skipped-Made :
      (ids rest assigned : List String) (k : String) (ms : List String)
      → mem k assigned ≡ true
      → Made ids rest assigned ms
      → Made ids (k ∷ rest) assigned ms
  skipped-Made ids rest assigned k ms taken h = record {
    once = h.once;
    free = h.free;
    known = h.known;
    all = λ v m. ground (arith, m, h.all v, mem_same v k assigned, taken);
  }

  clusters-Made :
      (ids rest assigned : List String)
      → Within rest ids
      → Made ids rest assigned (all_members (made ids rest assigned))
  unfolding clusters_from cluster_of Within
  clusters-Made ids [] assigned w = record {
    once = tt;
    free = λ v m. absurd (ground (arith, m));
    known = λ v m. absurd (ground (arith, m));
    all = λ v m. absurd (ground (arith, m));
  }
  clusters-Made ids (k ∷ rest) assigned w = elim (Bool-cases (mem k assigned)) [
    | inl taken ↦
        rw (taken, if◌then◌else◌)
          (skipped-Made ids rest assigned k _ taken
            (clusters-Made ids rest assigned (λ v m. w v (ground (arith, m)))))
    | inr fresh ↦
        rw (fresh, if◌then◌else◌)
          (grown-Made ids rest assigned k _ fresh (w k (ground (arith, eq_iff k k))) (
            clusters-Made ids rest (group ids k assigned ++ assigned)
              (λ v m. w v (ground (arith, m)))))
  ]

  group-Gathered :
      (ids assigned : List String) (k : String)
      → Gathered (group ids k assigned) (pattern_of patterns k).fingerprint
  unfolding members_of
  group-Gathered ids assigned k =
      let seed = (pattern_of patterns k).fingerprint in
      (
        refl,
        each_member (λ v. close seed v ≡ true) _
            (λ v m.
              ground (arith, m, mem-joined parts threshold patterns seed v ids (k ∷ assigned))),
      )

  later_apart :
      (ids rest assigned : List String) (k : String) (ms : List String)
      → Made ids rest (group ids k assigned ++ assigned) ms
      → All (λ v. close (pattern_of patterns k).fingerprint v ≡ false) ms
  later_apart ids rest assigned k ms h =
      each_member (λ v. close (pattern_of patterns k).fingerprint v ≡ false) ms
        (λ v m. ground (
          arith,
          h.free v m,
          h.known v m,
          mem-append v (group ids k assigned) assigned,
          mem-group ids assigned k v,
        ))

  clusters-Apart :
      (ids rest assigned : List String) → Within rest ids → Apart (made ids rest assigned)
  unfolding clusters_from cluster_of Within
  clusters-Apart ids [] assigned w = tt
  clusters-Apart ids (k ∷ rest) assigned w = elim (Bool-cases (mem k assigned)) [
    | inl taken ↦
        rw (taken, if◌then◌else◌)
          (clusters-Apart ids rest assigned (λ v m. w v (ground (arith, m))))
    | inr fresh ↦
        let wr : Within rest ids = λ v m. w v (ground (arith, m)) in
        let next = group ids k assigned ++ assigned in
        rw (fresh, if◌then◌else◌)
          (
            group-Gathered ids assigned k,
            later_apart ids rest assigned k _ (clusters-Made ids rest next wr),
            clusters-Apart ids rest next wr,
          )
  ]

  -- However names are sorted, the clusters of patterns with distinct keys are a partition of the keys:
  -- each key is a member of one cluster, once. A cluster's centroid is the fingerprint of its first
  -- member, the other members are similar to it, and no member of a later cluster is.
  pub cluster_lem :
      (sort : List String → List String)
      → IsSort sort
      → Distinct (keys patterns)
      → Distinct (all_members (cluster parts threshold sort patterns))
        × ((v : String)
            → mem v (all_members (cluster parts threshold sort patterns)) ≡ mem v (keys patterns))
        × Apart (cluster parts threshold sort patterns)
  unfolding cluster Within
  cluster_lem sort is d =
      let ids = sort (keys patterns) in
      let h = clusters-Made ids ids [] (λ v m. m) in
      (
        h.once,
        (λ v. ground (arith, h.known v, h.all v, is.kept v (keys patterns))),
        clusters-Apart ids ids [] (λ v m. m),
      )
