-- ===== src/Upstream/Selection.antt =====
-- The weighted choice of pkg/llm/upstream_pool.go.
use uiauto_framework.Prelude.{
  ℕ, suc, ◌+◌, ◌-◌, ◌≤◌, ◌<◌, ◌≡◌, refl, ap, ◌∙◌, ◌⊎◌, inl, inr, Bool, true, false, List, [], ◌∷◌,
  ◌++◌, String, none, some, ltb, arith, get_elem?, Bool-cases, All,
}
use uiauto_framework.Upstream.{
  UpstreamNode, UpstreamPool, candidates, total_weight, pick_from, pick, serves_tier,
  select_by_tier, select_any,
}

-- A draw that falls into the candidate's own share, after the shares of those before it, picks it.
pick_from_share :
    (last : ℕ) (before after : List (ℕ × ℕ)) (i w r : ℕ)
    → total_weight before ≤ r
    → r < total_weight before + w
    → pick_from last (before ++ (i, w) ∷ after) r ≡ i
unfolding pick_from total_weight
pick_from_share last [] after i w r lo hi = ground arith
pick_from_share last ((j, v) ∷ before) after i w r lo hi =
    ground (arith, pick_from_share j before after i w (r - v))

pick_cons :
    (c : ℕ × ℕ) (cs : List (ℕ × ℕ)) (r : ℕ) → pick (c ∷ cs) r ≡ some (pick_from c.0 (c ∷ cs) r)
unfolding pick
pick_cons (i, w) cs r = refl

-- Every candidate is picked by exactly the draws of a half-open interval as long as its weight; so
-- the draws below the total weight give each candidate its weight's share.
pub pick_share :
    (before after : List (ℕ × ℕ)) (i w r : ℕ)
    → total_weight before ≤ r
    → r < total_weight before + w
    → pick (before ++ (i, w) ∷ after) r ≡ some i
pick_share [] after i w r lo hi =
    pick_cons (i, w) after r ∙ ap some (pick_from_share i [] after i w r lo hi)
pick_share ((j, v) ∷ before) after i w r lo hi =
    pick_cons (j, v) (before ++ (i, w) ∷ after) r
    ∙ ap some (pick_from_share j ((j, v) ∷ before) after i w r lo hi)

-- What holds of an index that a selection gives, counted from `base`.
abbrev pub Chosen : (UpstreamNode → Bool) → ℕ → List UpstreamNode → ℕ → Type 0
Chosen p base ns i =
    (n : UpstreamNode) × (k : ℕ) × (i ≡ base + k) × (get_elem? ns k ≡ some n) × (p n ≡ true)

Chosen-later :
    (p : UpstreamNode → Bool) (base : ℕ) (n : UpstreamNode) (ns : List UpstreamNode) (i : ℕ)
    → Chosen p (suc base) ns i
    → Chosen p base (n ∷ ns) i
Chosen-later p base n ns i c = (c.0, suc c.1, omega (arith, c.2), c.3, c.4)

candidates-Chosen :
    (p : UpstreamNode → Bool) (base : ℕ) (ns : List UpstreamNode)
    → All (λ c. Chosen p base ns c.0) (candidates p base ns)
unfolding candidates
candidates-Chosen p base [] = tt
candidates-Chosen p base (n ∷ ns) = elim (Bool-cases (p n)) [
  | inl good ↦ rw good (
    (n, 0, omega arith, refl, good),
    later (candidates p (suc base) ns) (candidates-Chosen p (suc base) ns),
  )
  | inr bad ↦ rw bad (later (candidates p (suc base) ns) (candidates-Chosen p (suc base) ns))
]
  where
    later :
        (cs : List (ℕ × ℕ))
        → All (λ c. Chosen p (suc base) ns c.0) cs
        → All (λ c. Chosen p base (n ∷ ns) c.0) cs
    later [] h = tt
    later (c ∷ cs) h = (Chosen-later p base n ns c.0 h.0, later cs h.1)

pick_from-All :
    (P : ℕ → Type 0) (last : ℕ) (cs : List (ℕ × ℕ)) (r : ℕ)
    → P last
    → All (λ c. P c.0) cs
    → P (pick_from last cs r)
unfolding pick_from
pick_from-All P last [] r h a = h
pick_from-All P last ((i, w) ∷ cs) r h a = elim (Bool-cases (ltb r w)) [
  | inl hit ↦ rw (hit, pick_from) a.0
  | inr miss ↦ rw (miss, pick_from) (pick_from-All P i cs (r - w) a.0 a.1)
]

pick-All :
    (P : ℕ → Type 0) (cs : List (ℕ × ℕ)) (r : ℕ)
    → All (λ c. P c.0) cs
    → ((i : ℕ) × (pick cs r ≡ some i) × P i) ⊎ ((pick cs r ≡ none) × (cs ≡ []))
unfolding pick
pick-All P [] r a = inr (refl, refl)
pick-All P ((i, w) ∷ cs) r a = inl (_, refl, pick_from-All P i ((i, w) ∷ cs) r a.0 a)

no_candidates :
    (p : UpstreamNode → Bool) (base : ℕ) (ns : List UpstreamNode)
    → candidates p base ns ≡ []
    → All (λ n. p n ≡ false) ns
unfolding candidates
no_candidates p base [] e = tt
no_candidates p base (n ∷ ns) e = ground (arith, no_candidates p (suc base) ns, e)

-- For every draw, a selection by tier gives a node of the pool that is healthy and has the tier;
-- it gives none only when no node of the pool is both.
pub select_by_tier_lem :
    (pool : UpstreamPool) (tier : String) (r : ℕ)
    → ((i : ℕ) × (select_by_tier pool tier r ≡ some i) × Chosen (serves_tier tier) 0 pool.nodes i)
      ⊎ ((select_by_tier pool tier r ≡ none) × All (λ n. serves_tier tier n ≡ false) pool.nodes)
unfolding select_by_tier
select_by_tier_lem pool tier r =
    elim (pick-All (Chosen (serves_tier tier) 0 pool.nodes)
      (candidates (serves_tier tier) 0 pool.nodes) r
      (candidates-Chosen (serves_tier tier) 0 pool.nodes)) [
        | inl found ↦ inl found
        | inr (e, n) ↦ inr (e, no_candidates (serves_tier tier) 0 pool.nodes n)
      ]

-- For every draw, `SelectAny` gives a healthy node of the pool, and none only when no node of the
-- pool is healthy.
pub select_any_lem :
    (pool : UpstreamPool) (r : ℕ)
    → ((i : ℕ) × (select_any pool r ≡ some i) × Chosen (λ n. n.healthy) 0 pool.nodes i)
      ⊎ ((select_any pool r ≡ none) × All (λ n. n.healthy ≡ false) pool.nodes)
unfolding select_any
select_any_lem pool r =
    elim (pick-All (Chosen (λ n. n.healthy) 0 pool.nodes) (candidates (λ n. n.healthy) 0 pool.nodes)
      r (candidates-Chosen (λ n. n.healthy) 0 pool.nodes)) [
        | inl found ↦ inl found
        | inr (e, n) ↦ inr (e, no_candidates (λ n. n.healthy) 0 pool.nodes n)
      ]
