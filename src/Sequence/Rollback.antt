-- ===== src/Sequence/Rollback.antt =====
-- How a sequence of pkg/uiauto/action/sequence.go ends.
use mathlib.Core.Path.{subst}
use uiauto_framework.Prelude.{
  ℕ, suc, ◌+◌, ◌≤◌, ◌≡◌, refl, sym, ◌∙◌, ap, ◌⊎◌, inl, inr, List, [], ◌∷◌, ◌++◌, String, Option,
  Option-cases, none, some, All, get_elem?, length, arith,
}
use uiauto_framework.Sequence.{
  Outcome, Step, completed, rolled_back, running, StepResult, Sequence, with_timeout, undo,
  rollback, result_of, run_from, run, failed_steps,
}

length-snoc : {A : Type 0} (xs : List A) (x : A) → length (xs ++ (x ∷ [])) ≡ suc (length xs)
length-snoc [] x = refl
length-snoc (y ∷ xs) x = omega (arith, length-snoc xs x)

failed-snoc :
    (rs : List StepResult) (r : StepResult)
    → failed_steps (rs ++ (r ∷ [])) ≡ failed_steps rs ++ failed_steps (r ∷ [])
unfolding failed_steps
failed-snoc [] r = refl
failed-snoc (x ∷ rs) r = elim (Option-cases x.err) [
  | inl ok ↦ rw ok (failed-snoc rs r)
  | inr (e, bad) ↦ rw bad (ap (λ l. x ∷ l) (failed-snoc rs r))
]

module _ {W : Type 0} where
  abbrev pub act : Step W → W → Outcome W
  act step w = step.action (with_timeout step.timeout) w

  abbrev pub noted : Sequence W → Step W → W → Sequence W
  noted s step w = record s { results = s.results ++ (result_of step (act step w) ∷ []) }

  -- The step's rollback undoes its action, also one that failed.
  abbrev pub Undoes : Step W → Type 0
  Undoes step = (w : W) → undo (some step) (act step w).world ≡ w

  turn_ok :
      (s : Sequence W) (i : ℕ) (step : Step W) (rest : List (Step W)) (w : W)
      → (act step w).err ≡ none
      → run_from s i (step ∷ rest) w ≡ run_from (noted s step w) (suc i) rest (act step w).world
  unfolding run_from
  turn_ok s i step rest w h = rw (h, run_from) refl

  turn_failed :
      (s : Sequence W) (i : ℕ) (step : Step W) (rest : List (Step W)) (w : W) (e : String)
      → (act step w).err ≡ some e
      → run_from s i (step ∷ rest) w ≡ (
        record (noted s step w) { state = rolled_back },
        rollback s.steps (suc i) (act step w).world,
        some e,
      )
  unfolding run_from
  turn_failed s i step rest w e h = rw (h, run_from) refl

  Rest : List (Step W) → ℕ → List (Step W) → Type 0
  Rest steps i rest = (j : ℕ) → get_elem? steps (i + j) ≡ get_elem? rest j

  head_at :
      (steps : List (Step W)) (i : ℕ) (step : Step W) (rest : List (Step W))
      → Rest steps i (step ∷ rest)
      → get_elem? steps i ≡ some step
  unfolding Rest
  head_at steps i step rest h = subst (λ k. get_elem? steps k ≡ some step) (omega arith) (h 0)

  tail_at :
      (steps : List (Step W)) (i : ℕ) (step : Step W) (rest : List (Step W))
      → Rest steps i (step ∷ rest)
      → Rest steps (suc i) rest
  unfolding Rest
  tail_at steps i step rest h j =
      subst (λ k. get_elem? steps k ≡ get_elem? rest j) (omega arith) (h (suc j))

  unwinds :
      (steps : List (Step W)) (i : ℕ) (step : Step W) (w first : W)
      → get_elem? steps i ≡ some step
      → Undoes step
      → rollback steps i w ≡ first
      → rollback steps (suc i) (act step w).world ≡ first
  unfolding rollback
  unwinds steps i step w first at h back =
      ap (λ o. rollback steps i (undo o (act step w).world)) at ∙ ap (rollback steps i) (h w) ∙ back

  from_restores :
      (s : Sequence W) (i : ℕ) (rest : List (Step W)) (w first : W) (e : String)
      → Rest s.steps i rest
      → All Undoes rest
      → rollback s.steps i w ≡ first
      → (run_from s i rest w).2 ≡ some e
      → (run_from s i rest w).1 ≡ first
  unfolding run_from
  from_restores s i [] w first e at h back err = absurd (ground (arith, err))
  from_restores s i (step ∷ rest) w first e at h back err =
      let undone = unwinds s.steps i step w first (head_at s.steps i step rest at) h.0 back in
      elim (Option-cases (act step w).err) [
        | inl ok ↦
            let eq = turn_ok s i step rest w ok in
            ap (λ r. r.1) eq
            ∙ from_restores (noted s step w) (suc i) rest (act step w).world first e
                (tail_at s.steps i step rest at) h.1 undone (sym (ap (λ r. r.2) eq) ∙ err)
        | inr (e', failed) ↦ ap (λ r. r.1) (turn_failed s i step rest w e' failed) ∙ undone
      ]

  -- Where every step's rollback undoes its action, a run that fails leaves the world as it found it:
  -- exactly the steps that were started are rolled back, in reverse.
  pub run_restores :
      (s : Sequence W) (w : W) (e : String)
      → All Undoes s.steps
      → (run s w).2 ≡ some e
      → (run s w).1 ≡ w
  unfolding run rollback Rest
  run_restores s w e h err =
      from_restores (record s { state = running; results = [] }) 0 s.steps w w e
        (λ j. ap (get_elem? s.steps) (omega arith)) h refl err

  -- How a run ends, with the results it has and the steps that were left when it had none.
  abbrev pub Ended : Sequence W × W × Option String → ℕ → Type 0
  Ended r n =
      ((r.2 ≡ none)
        × (r.0.state ≡ completed)
        × (failed_steps r.0.results ≡ [])
        × (length r.0.results ≡ n))
      ⊎ ((r.0.state ≡ rolled_back)
          × (length (failed_steps r.0.results) ≡ 1)
          × (length r.0.results ≤ n))

  failed-noted :
      (s : Sequence W) (step : Step W) (w : W)
      → failed_steps s.results ≡ []
      → failed_steps (noted s step w).results ≡ failed_steps (result_of step (act step w) ∷ [])
  failed-noted s step w h =
      failed-snoc s.results (result_of step (act step w))
      ∙ ap (λ l. l ++ failed_steps (result_of step (act step w) ∷ [])) h

  failed_ok :
      (step : Step W) (w : W)
      → (act step w).err ≡ none
      → failed_steps (result_of step (act step w) ∷ []) ≡ []
  unfolding failed_steps result_of
  failed_ok step w h = rw h refl

  failed_bad :
      (step : Step W) (w : W) (e : String)
      → (act step w).err ≡ some e
      → length (failed_steps (result_of step (act step w) ∷ [])) ≡ 1
  unfolding failed_steps result_of
  failed_bad step w e h = rw h refl

  from-Ended :
      (s : Sequence W) (i : ℕ) (rest : List (Step W)) (w : W)
      → failed_steps s.results ≡ []
      → Ended (run_from s i rest w) (length s.results + length rest)
  unfolding run_from
  from-Ended s i [] w h = inl (refl, refl, h, omega arith)
  from-Ended s i (step ∷ rest) w h =
      let t = noted s step w in
      let longer = length-snoc s.results (result_of step (act step w)) in
      let last = failed-noted s step w h in
      elim (Option-cases (act step w).err) [
        | inl ok ↦
            let clean = last ∙ failed_ok step w ok in
            subst (λ r. Ended r (length s.results + length (step ∷ rest)))
              (sym (turn_ok s i step rest w ok))
              (subst (Ended (run_from t (suc i) rest (act step w).world)) (omega (arith, longer))
                (from-Ended t (suc i) rest (act step w).world clean))
        | inr (e, failed) ↦
            subst (λ r. Ended r (length s.results + length (step ∷ rest)))
              (sym (turn_failed s i step rest w e failed))
              (inr (refl, ap length last ∙ failed_bad step w e failed, omega (arith, longer)))
      ]

  -- A run either completes, with a result for each step and none that failed, or fails in the state
  -- `rolled_back`, with exactly one failed result and at most one result for each step.
  pub run-Ended : (s : Sequence W) (w : W) → Ended (run s w) (length s.steps)
  unfolding run failed_steps
  run-Ended s w =
      subst (Ended (run s w)) (omega arith)
        (from-Ended (record s { state = running; results = [] }) 0 s.steps w refl)
