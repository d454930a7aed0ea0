-- ===== src/Chain/Served.antt =====
-- The tier that serves in pkg/uiauto/latency_budget.go.
use uiauto_framework.Tiers.{ModelTier}
use uiauto_framework.Prelude.{
  ℕ, ◌≡◌, refl, ap, ◌∙◌, inl, inr, Bool, Bool-cases, not, List, [], ◌∷◌, String, Option,
  Option-cases, none, some, if◌then◌else◌, arith,
}
use uiauto_framework.Chain.{
  LatencyBudget, FallbackChain, Answer, deadline, timed, record_latency, find, after_failure,
  Outcome, served, exhausted, execute_from, execute,
}

module _ (available : ModelTier → Bool) (tier_func : Option ℕ → ModelTier → Answer) where
  -- The first tier that is available and whose function, under its deadline, has no error.
  abbrev pub first_serving : Option LatencyBudget → Option String → List ModelTier → Outcome
  first_serving lb last [] = exhausted last
  first_serving lb last (t ∷ ts) =
      let skip = first_serving lb last ts in
      let next = first_serving lb (tier_func (deadline t lb) t).err ts in
      if not (available t)
      then skip
      else elim (tier_func (deadline t lb) t).err [ none ↦ served t | some e ↦ next ]

module _ (available : ModelTier → Bool) (tier_func : Option ℕ → ModelTier → Answer)
    (pattern : String) where
  abbrev serving : Option LatencyBudget → Option String → List ModelTier → Outcome
  serving lb last ts = first_serving available tier_func lb last ts

  -- Budgets that set the same deadlines.
  Alike : Option LatencyBudget → Option LatencyBudget → Type 0
  Alike a b = (t : ModelTier) → deadline t a ≡ deadline t b

  timed-Alike :
      (t : ModelTier) (elapsed : ℕ) (lb : Option LatencyBudget) → Alike (timed t elapsed lb) lb
  unfolding timed deadline record_latency Alike
  timed-Alike t elapsed none u = refl
  timed-Alike t elapsed (some lb) u = ap (find u) (ground arith)

  failure_budget :
      (t : ModelTier) (ts : List ModelTier) (fc : FallbackChain)
      → (after_failure pattern t ts fc).budget ≡ fc.budget
  unfolding after_failure
  failure_budget t [] fc = refl
  failure_budget t (u ∷ us) fc = refl

  from_serves :
      (lb : Option LatencyBudget) (last : Option String) (prev : Option ModelTier)
      (ts : List ModelTier) (fc : FallbackChain)
      → Alike fc.budget lb
      → (execute_from available tier_func pattern last prev ts fc).1 ≡ serving lb last ts
  unfolding execute_from Alike
  from_serves lb last prev [] fc h = refl
  from_serves lb last prev (t ∷ ts) fc h =
      let a = tier_func (deadline t fc.budget) t in
      let tried = record fc { budget = timed t a.elapsed fc.budget } in
      let same = ap (λ d. (tier_func d t).err) (h t) in
      elim (Bool-cases (available t)) [
        | inr away ↦ ground (arith, away, from_serves lb last (some t) ts fc h)
        | inl there ↦ elim (Option-cases a.err) [
          | inl well ↦ ground (arith, there, well, same)
          | inr (e, bad) ↦
              let failed = after_failure pattern t ts tried in
              let alike : Alike failed.budget lb = λ u.
                ap (deadline u) (failure_budget t ts tried)
                ∙ timed-Alike t a.elapsed fc.budget u
                ∙ h u in
              ground (
                arith,
                there,
                bad,
                same,
                from_serves lb a.err (some t) ts failed alike ∙ ap (λ l. serving lb l ts) same,
              )
        ]
      ]

  -- Whatever has happened, the chain serves with its first tier that is available and whose function,
  -- under the deadline of the tier's budget, has no error; it is exhausted when there is none, with
  -- the error of the last function that was tried. What is recorded on the way changes no deadline.
  pub execute_lem :
      (fc : FallbackChain)
      → (execute available tier_func pattern fc).1
        ≡ first_serving available tier_func fc.budget none fc.tiers
  unfolding execute Alike
  execute_lem fc = from_serves fc.budget none none fc.tiers fc (λ t. refl)
