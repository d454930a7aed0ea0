-- ===== src/Tiered/Complete.antt =====
-- Which provider of pkg/llm/router.go answers, and what becomes of the others.
use mathlib.Core.Path.{subst}
use uiauto_framework.Prelude.{
  ℕ, suc, ◌+◌, ◌≡◌, refl, ap, sym, ◌∙◌, ◌⊎◌, inl, inr, true, false, List, [], ◌∷◌, ◌++◌, Option,
  none, some, Option-cases, Bool-cases, if◌then◌else◌, arith, length,
}
use uiauto_framework.Tiered.{
  TieredProvider, is_available, record_success, record_failure, complete_from, complete,
}

-- The provider with number `i` is in its cooldown, or its call fails.
abbrev pub Refuses : {A : Type 0} → (ℕ → Option A) → ℕ → ℕ → TieredProvider → Type 0
Refuses answers now i p = ((is_available now p).1 ≡ false) ⊎ (answers i ≡ none)

-- So do all of these, counted from `i`.
abbrev pub AllRefuse : {A : Type 0} → (ℕ → Option A) → ℕ → ℕ → List TieredProvider → Type 0
AllRefuse answers now i [] = Unit {0}
AllRefuse answers now i (p ∷ ps) = Refuses answers now i p × AllRefuse answers now (suc i) ps

-- A provider that was asked records its failure; one in its cooldown is passed over.
abbrev pub refused : ℕ → TieredProvider → TieredProvider
refused now p =
    if (is_available now p).1
    then record_failure now (is_available now p).0
    else (is_available now p).0

abbrev pub refused_all : ℕ → List TieredProvider → List TieredProvider
refused_all now [] = []
refused_all now (p ∷ ps) = refused now p ∷ refused_all now ps

-- The first provider that is available and answers.
pub record Served {A : Type 0} (answers : ℕ → Option A) (now i : ℕ) (ps : List TieredProvider)
    (out : List TieredProvider × Option A) : Type 0 where
  before : List TieredProvider
  server : TieredProvider
  after : List TieredProvider
  answer : A
  split : ps ≡ before ++ server ∷ after
  refuse : AllRefuse answers now i before
  up : (is_available now server).1 ≡ true
  answers_so : answers (i + length before) ≡ some answer
  result :
      out
      ≡ (refused_all now before ++ record_success (is_available now server).0 ∷ after, some answer)

later :
    {A : Type 0} (answers : ℕ → Option A) (now i : ℕ) (p : TieredProvider)
    (ps : List TieredProvider) (out : List TieredProvider × Option A)
    → Refuses answers now i p
    → Served answers now (suc i) ps out
    → Served answers now i (p ∷ ps) (refused now p ∷ out.0, out.1)
later answers now i p ps out h s = record {
  before = p ∷ s.before;
  server = s.server;
  after = s.after;
  answer = s.answer;
  split = ap (λ qs. p ∷ qs) s.split;
  refuse = (h, s.refuse);
  up = s.up;
  answers_so = ap answers (omega arith) ∙ s.answers_so;
  result = ap (λ (o : List TieredProvider × Option _). (refused now p ∷ o.0, o.1)) s.result;
}

-- One provider of the loop.
complete_down :
    {A : Type 0} (answers : ℕ → Option A) (now i : ℕ) (p : TieredProvider)
    (ps : List TieredProvider)
    → (is_available now p).1 ≡ false
    → complete_from answers now i (p ∷ ps) ≡ (
      refused now p ∷ (complete_from answers now (suc i) ps).0,
      (complete_from answers now (suc i) ps).1,
    )
unfolding complete_from
complete_down answers now i p ps h = rw h refl

complete_fails :
    {A : Type 0} (answers : ℕ → Option A) (now i : ℕ) (p : TieredProvider)
    (ps : List TieredProvider)
    → (is_available now p).1 ≡ true
    → answers i ≡ none
    → complete_from answers now i (p ∷ ps) ≡ (
      refused now p ∷ (complete_from answers now (suc i) ps).0,
      (complete_from answers now (suc i) ps).1,
    )
unfolding complete_from
complete_fails answers now i p ps h e = rw h (rw e refl)

complete_serves :
    {A : Type 0} (answers : ℕ → Option A) (now i : ℕ) (p : TieredProvider)
    (ps : List TieredProvider) (r : A)
    → (is_available now p).1 ≡ true
    → answers i ≡ some r
    → complete_from answers now i (p ∷ ps) ≡ (record_success (is_available now p).0 ∷ ps, some r)
unfolding complete_from
complete_serves answers now i p ps r h e = rw h (rw e refl)

-- No provider answers.
abbrev Exhausted :
    {A : Type 0}
    → (ℕ → Option A)
    → ℕ
    → ℕ
    → List TieredProvider
    → List TieredProvider × Option A
    → Type 0
Exhausted answers now i ps out = AllRefuse answers now i ps × (out ≡ (refused_all now ps, none))

next :
    {A : Type 0} (answers : ℕ → Option A) (now i : ℕ) (p : TieredProvider)
    (ps : List TieredProvider)
    → Refuses answers now i p
    → complete_from answers now i (p ∷ ps) ≡ (
      refused now p ∷ (complete_from answers now (suc i) ps).0,
      (complete_from answers now (suc i) ps).1,
    )
    → Served answers now (suc i) ps (complete_from answers now (suc i) ps)
      ⊎ Exhausted answers now (suc i) ps (complete_from answers now (suc i) ps)
    → Served answers now i (p ∷ ps) (complete_from answers now i (p ∷ ps))
      ⊎ Exhausted answers now i (p ∷ ps) (complete_from answers now i (p ∷ ps))
next answers now i p ps h e (inl s) =
    inl (subst (Served answers now i (p ∷ ps)) (sym e) (later answers now i p ps _ h s))
next answers now i p ps h e (inr x) =
    inr ((h, x.0), e ∙ ap (λ (o : List TieredProvider × Option _). (refused now p ∷ o.0, o.1)) x.1)

complete_from_lem :
    {A : Type 0} (answers : ℕ → Option A) (now i : ℕ) (ps : List TieredProvider)
    → Served answers now i ps (complete_from answers now i ps)
      ⊎ Exhausted answers now i ps (complete_from answers now i ps)
complete_from_lem answers now i [] = inr (tt, unfold complete_from in refl)
complete_from_lem answers now i (p ∷ ps) =
    let ih = complete_from_lem answers now (suc i) ps in
    elim (Bool-cases (is_available now p).1) [
      | inr down ↦ next answers now i p ps (inl down) (complete_down answers now i p ps down) ih
      | inl up ↦ elim (Option-cases (answers i)) [
        | inl e ↦ next answers now i p ps (inr e) (complete_fails answers now i p ps up e) ih
        | inr (r, e) ↦ inl (record {
          before = [];
          server = p;
          after = ps;
          answer = r;
          split = refl;
          refuse = tt;
          up = up;
          answers_so = ap answers (omega arith) ∙ e;
          result = complete_serves answers now i p ps r up e;
        })
      ]
    ]

-- For any answers, `Complete` gives the answer of the first provider that is out of its cooldown and
-- whose call succeeds, records its success, records a failure of each provider that was asked
-- before it, and leaves those behind it untouched; or every provider is in its cooldown or failed,
-- the failures are recorded, and there is no answer.
pub complete_lem :
    {A : Type 0} (answers : ℕ → Option A) (now : ℕ) (ps : List TieredProvider)
    → Served answers now 0 ps (complete answers now ps)
      ⊎ (AllRefuse answers now 0 ps × (complete answers now ps ≡ (refused_all now ps, none)))
unfolding complete
complete_lem answers now ps = complete_from_lem answers now 0 ps
