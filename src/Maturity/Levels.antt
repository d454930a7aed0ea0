-- ===== src/Maturity/Levels.antt =====
-- What each pattern's record keeps, and how its level moves, in
-- pkg/uiauto/pattern_maturity_tracker.go.
use mathlib.Core.Path.{subst}
use text.Mathlib.TextEquality.{eq_iff}
use uiauto_framework.Prelude.{
  ℕ, ◌+◌, ◌≤◌, ◌<◌, ◌≡◌, refl, ap, sym, ◌∙◌, Bool, true, false, List, [], ◌∷◌, ◌++◌, String, str_eq,
  Option, none, some, inl, inr, ℤ, pos, leb_ℤ, lookup, insert, lookup-insert, if◌then◌else◌, arith,
  Bool-cases, Option-cases,
}
use uiauto_framework.Maturity.{
  MaturityLevel, new, testing, stable, trusted, degraded, level_eq, MaturityConfig, PatternMaturity,
  PatternMaturityTracker, new_pattern_maturity_tracker, fresh_pattern, found_or_fresh,
  get_or_create, succeed, fail, record_success, record_failure, get_maturity, Use, succeeded,
  failed, step, run,
}

-- What the counts of a pattern say of its level.
pub record Earned (c : MaturityConfig) (pm : PatternMaturity) : Type 0 where
  pub failures_le : pm.consecutive_failures ≤ pm.total_failures
  pub successes_le : pm.consecutive_successes ≤ pm.total_successes
  pub one_streak : 0 < pm.consecutive_failures → pm.consecutive_successes ≡ 0
  pub when_testing : pm.level ≡ testing → leb_ℤ c.testing_successes (pos pm.total_successes) ≡ true
  pub when_stable : pm.level ≡ stable → leb_ℤ c.stable_successes (pos pm.total_successes) ≡ true
  pub when_trusted : pm.level ≡ trusted → leb_ℤ c.trusted_successes (pos pm.total_successes) ≡ true
  pub when_degraded : pm.level ≡ degraded → 0 < pm.total_failures
  pub otherwise :
      level_eq pm.level degraded ≡ false
      → 0 < pm.consecutive_failures
      → leb_ℤ c.degraded_failures (pos pm.consecutive_failures) ≡ false

succeed-Earned :
    (c : MaturityConfig) (now : ℕ) (pm : PatternMaturity)
    → Earned c pm
    → Earned c (succeed c now pm)
unfolding succeed
succeed-Earned c now pm v = ground (arith, v)

fail-Earned :
    (c : MaturityConfig) (now : ℕ) (pm : PatternMaturity) → Earned c pm → Earned c (fail c now pm)
unfolding fail
fail-Earned c now pm v = ground (arith, v)

fresh-Earned : (c : MaturityConfig) (id : String) (now : ℕ) → Earned c (fresh_pattern id now)
unfolding fresh_pattern
fresh-Earned c id now = ground arith

abbrev pub AllEarned : MaturityConfig → List (String × PatternMaturity) → Type 0
AllEarned c m = (id : String) (pm : PatternMaturity) → lookup id m ≡ some pm → Earned c pm

found-Earned :
    (c : MaturityConfig) (id : String) (now : ℕ) (o : Option PatternMaturity)
    → ((pm : PatternMaturity) → o ≡ some pm → Earned c pm)
    → Earned c (found_or_fresh id now o)
found-Earned c id now none h = fresh-Earned c id now
found-Earned c id now (some pm) h = h pm refl

either-Earned :
    (c : MaturityConfig) (b : Bool) (used pm : PatternMaturity) (o : Option PatternMaturity)
    → Earned c used
    → (o ≡ some pm → Earned c pm)
    → (if b then some used else o) ≡ some pm
    → Earned c pm
either-Earned c true used pm o u h e = subst (Earned c) (ground (arith, e)) u
either-Earned c false used pm o u h e = h e

insert-AllEarned :
    (c : MaturityConfig) (id : String) (used : PatternMaturity)
    (m : List (String × PatternMaturity))
    → Earned c used
    → AllEarned c m
    → AllEarned c (insert id used m)
insert-AllEarned c id used m u h other pm e =
    either-Earned c (str_eq id other) used pm (lookup other m) u (h other pm)
      (sym (lookup-insert id other used m) ∙ e)

step-AllEarned :
    (t : PatternMaturityTracker) (u : Use)
    → AllEarned t.config t.patterns
    → AllEarned t.config (step t u).patterns
unfolding step record_success record_failure
step-AllEarned t (succeeded id now) h =
    insert-AllEarned t.config id _ t.patterns
      (succeed-Earned t.config now _ (found-Earned t.config id now (lookup id t.patterns) (h id))) h
step-AllEarned t (failed id now) h =
    insert-AllEarned t.config id _ t.patterns
      (fail-Earned t.config now _ (found-Earned t.config id now (lookup id t.patterns) (h id))) h

pub step_config : (t : PatternMaturityTracker) (u : Use) → (step t u).config ≡ t.config
unfolding step record_success record_failure
step_config t (succeeded id now) = refl
step_config t (failed id now) = refl

run-AllEarned :
    (c : MaturityConfig) (t : PatternMaturityTracker) (us : List Use)
    → t.config ≡ c
    → AllEarned c t.patterns
    → AllEarned c (run t us).patterns
unfolding run
run-AllEarned c t [] e h = h
run-AllEarned c t (u ∷ us) e h = run-AllEarned c (step t u) us (step_config t u ∙ e) (
    subst (λ k. AllEarned k (step t u).patterns) e
      (step-AllEarned t u (subst (λ k. AllEarned k t.patterns) (sym e) h)))

-- After any uses of any patterns, the record that a new tracker gives for a pattern is earned: the
-- streaks stay within the totals and at most one is running; a testing, stable or trusted pattern
-- has the successes its level asks for, a degraded one has failed; and a pattern that is not
-- degraded has no failures in a row, or fewer than degrade it.
pub run-new-Earned :
    (c : MaturityConfig) (us : List Use) (id : String) (pm : PatternMaturity)
    → get_maturity (run (new_pattern_maturity_tracker c) us) id ≡ some pm
    → Earned c pm
unfolding new_pattern_maturity_tracker get_maturity uiauto_framework.Prelude.Text.lookup
run-new-Earned c us =
    run-AllEarned c (new_pattern_maturity_tracker c) us refl (λ id pm e. absurd (ground (arith, e)))

abbrev pub level_or_new : Option PatternMaturity → MaturityLevel
level_or_new none = new
level_or_new (some pm) = pm.level

-- The level of a pattern, which is new before its first use.
unfoldable pub level_of : String → PatternMaturityTracker → MaturityLevel
level_of id t = level_or_new (lookup id t.patterns)

-- How a use moves the level of the pattern `id`.
pub data Edge (id : String) : MaturityLevel → Use → MaturityLevel → Type 0 where
  stay : {l : MaturityLevel} {u : Use} → Edge id l u l
  tested : (now : ℕ) → Edge id new (succeeded id now) testing
  stabilised : (now : ℕ) → Edge id testing (succeeded id now) stable
  entrusted : (now : ℕ) → Edge id stable (succeeded id now) trusted
  recovered : (now : ℕ) → Edge id degraded (succeeded id now) testing
  lost : {l : MaturityLevel} (now : ℕ) → Edge id l (failed id now) degraded

succeed-Edge :
    (c : MaturityConfig) (now : ℕ) (id : String) (pm : PatternMaturity)
    → Edge id pm.level (succeeded id now) (succeed c now pm).level
unfolding succeed
succeed-Edge c now id pm = grind (arith, stay, tested, stabilised, entrusted, recovered)

fail-Edge :
    (c : MaturityConfig) (now : ℕ) (id : String) (pm : PatternMaturity)
    → Edge id pm.level (failed id now) (fail c now pm).level
unfolding fail
fail-Edge c now id pm = grind (arith, stay, lost)

-- The level before a use is that of the record it starts from.
pub level_of_found :
    (id : String) (now : ℕ) (o : Option PatternMaturity)
    → (found_or_fresh id now o).level ≡ level_or_new o
unfolding fresh_pattern
level_of_found id now none = refl
level_of_found id now (some pm) = refl

moved :
    (id other : String) (t : PatternMaturityTracker) (u : Use) (used : PatternMaturity)
    → Edge id (level_of id t) u used.level
    → Edge other (level_of other t) u (level_or_new (lookup other (insert id used t.patterns)))
unfolding level_of
moved id other t u used e = elim (Bool-cases (str_eq id other)) [
  | inl same ↦
      rw (lookup-insert id other used t.patterns, same)
        (subst (λ (n : String). Edge n (level_of n t) u used.level) ((eq_iff id other).0 same) e)
  | inr differ ↦ rw (lookup-insert id other used t.patterns, differ) stay
]

-- A use moves the level of its own pattern only, and along an edge: a success by one level, up to
-- trusted, or from degraded back to testing; a failure to degraded.
pub step-MaturityEdge :
    (t : PatternMaturityTracker) (u : Use) (id : String)
    → Edge id (level_of id t) u (level_of id (step t u))
unfolding step record_success record_failure level_of
step-MaturityEdge t (succeeded used now) id =
    let after = succeed t.config now (get_or_create t used now) in
    moved used id t (succeeded used now) after (
      subst (λ l. Edge used l (succeeded used now) after.level)
        (level_of_found used now (lookup used t.patterns))
        (succeed-Edge t.config now used (get_or_create t used now)))
step-MaturityEdge t (failed used now) id =
    let after = fail t.config now (get_or_create t used now) in
    moved used id t (failed used now) after (
      subst (λ l. Edge used l (failed used now) after.level)
        (level_of_found used now (lookup used t.patterns))
        (fail-Edge t.config now used (get_or_create t used now)))
