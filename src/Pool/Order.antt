-- ===== src/Pool/Order.antt =====
-- What the pool of pkg/uiauto/parallel/pool.go does in every order of its workers.
use mathlib.Core.Path.{subst}
use mathlib.Core.List.{Perm, perm_middle}
use mathlib.Core.List.Perm
use mathlib.Mathlib.Data.Multiset.Defs.{Multiset, of_list, coe-eq-coe}
use uiauto_framework.Prelude.{
  ℕ, suc, ◌+◌, ◌*◌, ◌≤◌, ◌<◌, ◌≡◌, refl, sym, ap, ◌∙◌, ◌⊎◌, inl, inr, List, [], ◌∷◌, ◌++◌, String,
  Option, none, some, length, length-append, arith,
}
use uiauto_framework.Pool.{
  Task, TaskResult, PoolState, start, result_of, Step, takes, ends, Reaches, here, step, summarize,
}

pub task_ids : List Task → List String
task_ids [] = []
task_ids (t ∷ ts) = t.id ∷ task_ids ts

pub result_ids : List TaskResult → List String
result_ids [] = []
result_ids (r ∷ rs) = r.task_id ∷ result_ids rs

-- The identifiers of what is done, runs and waits.
abbrev present : PoolState → List String
present s = result_ids s.results ++ (task_ids s.running ++ task_ids s.queue)

task_ids-append : (xs ys : List Task) → task_ids (xs ++ ys) ≡ task_ids xs ++ task_ids ys
unfolding task_ids
task_ids-append [] ys = refl
task_ids-append (x ∷ xs) ys = ap (λ l. x.id ∷ l) (task_ids-append xs ys)

sent :
    (rs : List TaskResult) (t : Task) (answer : Option String) (elapsed : ℕ) (l : List String)
    → result_ids (rs ++ (result_of t answer elapsed ∷ [])) ++ l ≡ result_ids rs ++ (t.id ∷ l)
unfolding result_ids result_of
sent [] t none elapsed l = refl
sent [] t (some err) elapsed l = refl
sent (r ∷ rs) t answer elapsed l = ap (λ m. r.task_id ∷ m) (sent rs t answer elapsed l)

perm_between : (a b c d : List String) → a ≡ b → d ≡ c → Perm b c → Perm a d
perm_between a b c d e f p = subst (λ l. Perm l d) (sym e) (subst (Perm b) (sym f) p)

step-Perm : (s t : PoolState) → Step s t → Perm (present s) (present t)
unfolding task_ids
step-Perm s _ (takes t rest q free) =
    let done = result_ids s.results in
    let busy = task_ids s.running in
    subst
      (λ (u : List Task).
        Perm (done ++ (busy ++ task_ids u)) (done ++ ((t.id ∷ busy) ++ task_ids rest)))
      (sym q) (Perm.append (Perm.refl done) (perm_middle busy (task_ids rest)))
step-Perm s _ (ends before after t answer elapsed r) =
    let done = result_ids s.results in
    let left = task_ids before in
    let right = task_ids after in
    let wait = task_ids s.queue in
    let base =
      Perm.append (Perm.refl done)
        (Perm.append (perm_middle {a = t.id} left right) (Perm.refl wait)) in
    let old = ap (λ l. done ++ (l ++ wait)) (ap task_ids r ∙ task_ids-append before (t ∷ after)) in
    let new =
      sent s.results t answer elapsed (task_ids (before ++ after) ++ wait)
      ∙ ap (λ l. done ++ (t.id ∷ (l ++ wait))) (task_ids-append before after) in
    perm_between _ _ _ _ old new base

-- How far a pool is from its end.
pub remaining : PoolState → ℕ
remaining s = 2 * length s.queue + length s.running

step-remaining : (s t : PoolState) → Step s t → suc (remaining t) ≡ remaining s
unfolding remaining
step-remaining s _ (takes t rest q free) = omega (arith, ap length q)
step-remaining s _ (ends before after t answer elapsed r) =
    omega (arith, ap length r, length-append before (t ∷ after), length-append before after)

-- How many steps a run has made.
pub steps : {s t : PoolState} → Reaches s t → ℕ
steps (here _) = 0
steps (step r e) = suc (steps r)

steps-remaining : (s t : PoolState) (r : Reaches s t) → steps r + remaining t ≡ remaining s
unfolding steps
steps-remaining s _ (here _) = omega arith
steps-remaining s t (step {t = u} r e) = omega (arith, steps-remaining s u r, step-remaining u t e)

-- What every step keeps of a pool with `n` tasks.
record Sound (w n : ℕ) (s : PoolState) : Type 0 where
  few : length s.running ≤ s.slots
  within : (s.slots ≤ w) × (s.slots ≤ n)
  manned : 0 < length s.queue → 0 < s.slots
  counted : length s.results + (length s.running + length s.queue) ≡ n

step-Sound : (w n : ℕ) (s t : PoolState) → Step s t → Sound w n s → Sound w n t
step-Sound w n s _ (takes t rest q free) h = record {
  few = omega (arith, free);
  within = h.within;
  manned = λ l. omega (arith, free);
  counted = omega (arith, h.counted, ap length q);
}
step-Sound w n s _ (ends before after t answer elapsed r) h = record {
  few =
      omega
        (arith, h.few, ap length r, length-append before (t ∷ after), length-append before after);
  within = h.within;
  manned = h.manned;
  counted = omega (
    arith,
    h.counted,
    ap length r,
    length-append before (t ∷ after),
    length-append before after,
    length-append s.results (result_of t answer elapsed ∷ []),
  );
}

start-Sound : (w : ℕ) (tasks : List Task) → 0 < w → Sound w (length tasks) (start w tasks)
unfolding start
start-Sound w tasks pos = ground (arith, pos)

reaches-Sound : (w n : ℕ) (s t : PoolState) → Reaches s t → Sound w n s → Sound w n t
reaches-Sound w n s _ (here _) h = h
reaches-Sound w n s _ (step {t = t} r e) h = step-Sound w n t _ e (reaches-Sound w n s t r h)

reaches-Perm : (s t : PoolState) → Reaches s t → Perm (present s) (present t)
reaches-Perm s _ (here _) = Perm.refl (present s)
reaches-Perm s _ (step {t = t} r e) = Perm.trans (reaches-Perm s t r) (step-Perm t _ e)

-- The identifiers without their order.
abbrev pub bag : List String → Multiset String
bag l = of_list l

-- At every moment of every run with at least one worker, at most as many tasks run as there are workers
-- and as there are tasks, and the tasks that are done, run or wait are together, whatever their order,
-- the tasks that were given.
pub reaches_keeps :
    (w : ℕ) (tasks : List Task) (s : PoolState)
    → 0 < w
    → Reaches (start w tasks) s
    → (length s.running ≤ w)
      × (length s.running ≤ length tasks)
      × (bag (result_ids s.results ++ (task_ids s.running ++ task_ids s.queue))
          ≡ bag (task_ids tasks))
unfolding start result_ids task_ids
reaches_keeps w tasks s pos r =
    let h = reaches-Sound w (length tasks) _ s r (start-Sound w tasks pos) in
    (
      omega (arith, h.few, h.within),
      omega (arith, h.few, h.within),
      sym (coe-eq-coe.1 (reaches-Perm _ s r)),
    )

summary_total : (rs : List TaskResult) → (summarize rs).passed + (summarize rs).failed ≡ length rs
unfolding summarize
summary_total [] = omega arith
summary_total (r ∷ rs) = ground (arith, summary_total rs)

-- The end of a run.
pub record Done (tasks : List Task) (s : PoolState) : Type 0 where
  pub each_once : bag (result_ids s.results) ≡ bag (task_ids tasks)
  pub summary : (summarize s.results).passed + (summarize s.results).failed ≡ length tasks

List-cases : {A : Type 0} (xs : List A) → (xs ≡ []) ⊎ ((x : A) × (ys : List A) × (xs ≡ x ∷ ys))
List-cases [] = inl refl
List-cases (x ∷ xs) = inr (x, xs, refl)

-- Where a step is possible, something remains.
moves : (s t : PoolState) → Step s t → (0 < remaining s) × ((u : PoolState) × Step s u)
moves s t e = (omega (arith, step-remaining s t e), (t, e))

empty-Done :
    (tasks : List Task) (s : PoolState) (w : ℕ)
    → Sound w (length tasks) s
    → s.queue ≡ []
    → s.running ≡ []
    → bag (result_ids s.results ++ (task_ids s.running ++ task_ids s.queue)) ≡ bag (task_ids tasks)
    → Done tasks s
unfolding task_ids
empty-Done tasks s w h q r kept = record {
  each_once =
      ap bag
        (sym (append-nil (result_ids s.results)) ∙ ap (λ l. result_ids s.results ++ l) (sym all))
      ∙ kept;
  summary = omega (arith, summary_total s.results, h.counted, ap length q, ap length r);
}
  where
    append-nil : (l : List String) → l ++ [] ≡ l
    append-nil [] = refl
    append-nil (x ∷ l) = ap (λ m. x ∷ m) (append-nil l)

    all : task_ids s.running ++ task_ids s.queue ≡ []
    all = cc (ap task_ids q, ap task_ids r)

-- A run with at least one worker ends, whatever the order of its workers: the steps it has made and
-- what remains, twice the waiting tasks and once the running ones, are together twice the number of
-- tasks. At every moment either nothing remains and every task has exactly one result, passed or
-- failed, or something remains and some worker can make a step.
pub reaches_proceeds :
    (w : ℕ) (tasks : List Task) (s : PoolState)
    → 0 < w
    → (r : Reaches (start w tasks) s)
    → (steps r + remaining s ≡ 2 * length tasks)
      × (((remaining s ≡ 0) × Done tasks s) ⊎ ((0 < remaining s) × ((t : PoolState) × Step s t)))
unfolding start remaining
reaches_proceeds w tasks s pos r =
    let h = reaches-Sound w (length tasks) _ s r (start-Sound w tasks pos) in
    (
      omega (arith, steps-remaining _ s r),
      elim (List-cases s.running) [
        | inr (t, rest, busy) ↦ inr (moves s _ (ends [] rest t none 0 busy))
        | inl idle ↦ elim (List-cases s.queue) [
          | inl over ↦ inl (
            omega (arith, ap length over, ap length idle),
            empty-Done tasks s w h over idle (reaches_keeps w tasks s pos r).2,
          )
          | inr (t, rest, wait) ↦ inr (
              moves s _ (
                takes t rest wait
                  (ground (arith, ap length idle, h.manned (omega (arith, ap length wait))))))
        ]
      ],
    )
