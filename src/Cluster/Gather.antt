-- ===== src/Cluster/Gather.antt =====
-- The inner loop of `Cluster` in pkg/uiauto/pattern_cluster.go.
use text.Mathlib.TextEquality.{eq_iff}
use uiauto_framework.Names.{mem, Distinct}
use uiauto_framework.Prelude.{
  ◌≡◌, refl, ap, inl, inr, Bool, Bool-cases, true, not, ◌&&◌, List, [], ◌∷◌, String, str_eq, arith,
}
use uiauto_framework.Similarity.{Score, DomFingerprint}
use uiauto_framework.Cluster.{Patterns, pattern_of, similar, joined}

module _ (parts : String → List String) (threshold : Score) (patterns : Patterns)
    (seed : DomFingerprint) where
  abbrev pub near : String → Bool
  near v = similar parts threshold seed (pattern_of patterns v).fingerprint

  near_same : (v k : String) → str_eq v k ≡ true → near v ≡ near k
  near_same v k e = ap near ((eq_iff v k).0 e)

  mem_same : (v k : String) (xs : List String) → str_eq v k ≡ true → mem v xs ≡ mem k xs
  mem_same v k xs e = ap (λ (w : String). mem w xs) ((eq_iff v k).0 e)

  -- Exactly the free and similar identifiers join.
  pub mem-joined :
      (v : String) (ids assigned : List String)
      → mem v (joined parts threshold patterns seed ids assigned)
        ≡ (mem v ids && (not (mem v assigned) && near v))
  unfolding joined
  mem-joined v [] assigned = refl
  mem-joined v (k ∷ ks) assigned = elim (Bool-cases (str_eq v k)) [
    | inl own ↦ ground (
      arith,
      own,
      near_same v k own,
      mem_same v k assigned own,
      mem-joined v ks assigned,
      mem-joined v ks (k ∷ assigned),
    )
    | inr other ↦ ground (arith, other, mem-joined v ks assigned, mem-joined v ks (k ∷ assigned))
  ]

  pub joined-Distinct :
      (ids assigned : List String) → Distinct (joined parts threshold patterns seed ids assigned)
  unfolding joined
  joined-Distinct [] assigned = tt
  joined-Distinct (k ∷ ks) assigned = ground (
    arith,
    joined-Distinct ks assigned,
    joined-Distinct ks (k ∷ assigned),
    mem-joined k ks (k ∷ assigned),
    eq_iff k k,
  )
