-- ===== src/Maturity/Events.antt =====
-- What the listeners of pkg/uiauto/pattern_maturity_tracker.go are told.
use mathlib.Core.Path.{subst}
use mathlib.Core.List.{append-nil}
use text.Mathlib.TextEquality.{eq_iff}
use uiauto_framework.Prelude.{
  ℕ, ◌≡◌, refl, ap, sym, ◌∙◌, Bool, true, false, List, [], ◌∷◌, ◌++◌, String, str_eq, Option, none,
  some, inl, inr, lookup, insert, lookup-insert, if◌then◌else◌, arith, Bool-cases, keep_if,
}
use uiauto_framework.Maturity.{
  MaturityLevel, new, level_eq, MaturityConfig, MaturityChangeEvent, PatternMaturity,
  PatternMaturityTracker, new_pattern_maturity_tracker, get_or_create, succeed, fail, change,
  settle, record_success, record_failure, Use, succeeded, failed, step, run,
}
use uiauto_framework.Maturity.Levels.{level_of, level_of_found}

-- The events, one after the other, lead from the first level to the last.
abbrev pub Leads : MaturityLevel → List MaturityChangeEvent → MaturityLevel → Type 0
Leads a [] b = a ≡ b
Leads a (e ∷ es) b = (e.from ≡ a) × Leads e.to es b

Leads-append :
    (a b c : MaturityLevel) (es fs : List MaturityChangeEvent)
    → Leads a es b
    → Leads b fs c
    → Leads a (es ++ fs) c
Leads-append a b c [] fs h k = subst (λ l. Leads l fs c) (sym h) k
Leads-append a b c (e ∷ es) fs h k = (h.0, Leads-append e.to b c es fs h.1 k)

-- The events of one pattern.
pub events_of : String → List MaturityChangeEvent → List MaturityChangeEvent
events_of id = keep_if (λ e. str_eq e.pattern_id id)

events_of-append :
    (id : String) (es fs : List MaturityChangeEvent)
    → events_of id (es ++ fs) ≡ events_of id es ++ events_of id fs
unfolding events_of
events_of-append id [] fs = refl
events_of-append id (e ∷ es) fs = ground (arith, events_of-append id es fs)

level_eq→eq : (a b : MaturityLevel) → level_eq a b ≡ true → a ≡ b
level_eq→eq a b h = ground (arith, h)

own_change :
    (id : String) (from to : MaturityLevel) (reason : String) (now : ℕ)
    → Leads from (events_of id (change id from to reason now)) to
unfolding events_of change
own_change id from to reason now = elim (Bool-cases (level_eq to from)) [
  | inl same ↦ rw same (sym (level_eq→eq to from same))
  | inr differ ↦ rw (differ, (eq_iff id id).1 refl) (refl, refl)
]

other_change :
    (id other : String) (from to : MaturityLevel) (reason : String) (now : ℕ)
    → str_eq id other ≡ false
    → events_of other (change id from to reason now) ≡ []
unfolding events_of change
other_change id other from to reason now h = ground (arith, h)

-- The events of the pattern lead from new to its level.
abbrev pub Told : String → PatternMaturityTracker → Type 0
Told id t = Leads new (events_of id t.events) (level_of id t)

settle-Told :
    (t : PatternMaturityTracker) (id other : String) (pm used : PatternMaturity) (reason : String)
    (now : ℕ)
    → pm.level ≡ level_of id t
    → Told other t
    → Told other (settle t id pm used reason now)
unfolding settle level_of
settle-Told t id other pm used reason now e h = elim (Bool-cases (str_eq id other)) [
  | inl same ↦
      rw
        (
          events_of-append other t.events (change id pm.level used.level reason now),
          lookup-insert id other used t.patterns,
          same,
        )
        (Leads-append new (level_of other t) used.level (events_of other t.events) _ h (
          rw (sym ((eq_iff id other).0 same), sym e)
            (own_change id pm.level used.level reason now)))
  | inr differ ↦
      rw
        (
          events_of-append other t.events (change id pm.level used.level reason now),
          lookup-insert id other used t.patterns,
          differ,
          other_change id other pm.level used.level reason now differ,
          append-nil (events_of other t.events),
        )
        h
]

step-Told : (t : PatternMaturityTracker) (u : Use) (id : String) → Told id t → Told id (step t u)
unfolding step record_success record_failure level_of
step-Told t (succeeded used now) id h =
    let pm = get_or_create t used now in
    settle-Told t used id pm (succeed t.config now pm) "promotion_on_success" now
      (level_of_found used now (lookup used t.patterns)) h
step-Told t (failed used now) id h =
    let pm = get_or_create t used now in
    settle-Told t used id pm (fail t.config now pm) "degradation_on_failures" now
      (level_of_found used now (lookup used t.patterns)) h

run-Told :
    (t : PatternMaturityTracker) (us : List Use) (id : String) → Told id t → Told id (run t us)
unfolding run
run-Told t [] id h = h
run-Told t (u ∷ us) id h = run-Told (step t u) us id (step-Told t u id h)

-- After any uses of any patterns of a new tracker, the events about a pattern that the listeners
-- were told, one after the other, lead from new to the level that the pattern has.
pub run-new-Told :
    (c : MaturityConfig) (us : List Use) (id : String)
    → Told id (run (new_pattern_maturity_tracker c) us)
unfolding new_pattern_maturity_tracker level_of uiauto_framework.Prelude.Text.lookup events_of
run-new-Told c us id = run-Told (new_pattern_maturity_tracker c) us id refl
