-- ===== src/Phase/History.antt =====
-- The record of phase changes in pkg/uiauto/model_router.go.
use uiauto_framework.Prelude.{
  ℕ, ◌+◌, ◌≡◌, refl, sym, ◌∙◌, Bool, true, false, List, [], ◌∷◌, ◌++◌, ℤ, arith, length,
  if◌then◌else◌, count_if, String, length-append,
}
use uiauto_framework.Tiers.{light, smart, vlm}
use uiauto_framework.Phase.{
  PatternPhase, discovery, cruise, escalation, PhaseTransition, PhaseTracker, new_phase_tracker,
  phase_eq, transition, relearn, count_smart, succeed_heavy, clear_light, record_success,
  record_failure, phase_stats, Outcome, succeeded, failed, step, run,
}

-- Each change starts where the one before it ended, from `p` to `q`.
abbrev Linked : PatternPhase → List PhaseTransition → PatternPhase → Type 0
Linked p [] q = p ≡ q
Linked p (t ∷ ts) q = (t.from ≡ p) × Linked t.to ts q

Linked-append :
    (p : PatternPhase) (ts : List PhaseTransition) {q : PatternPhase} (t : PhaseTransition)
    → Linked p ts q
    → t.from ≡ q
    → Linked p (ts ++ t ∷ []) t.to
Linked-append p [] t l e = (e ∙ sym l, refl)
Linked-append p (s ∷ ts) t l e = (l.0, Linked-append s.to ts t l.1 e)

abbrev entries : PatternPhase → List PhaseTransition → ℕ
entries p = count_if (λ t. phase_eq t.to p)

entries-append :
    (p : PatternPhase) (ts : List PhaseTransition) (t : PhaseTransition)
    → entries p (ts ++ t ∷ []) ≡ entries p ts + (if phase_eq t.to p then 1 else 0)
entries-append p [] t = ground arith
entries-append p (s ∷ ts) t = ground (arith, entries-append p ts t)

pub record Faithful (pt : PhaseTracker) : Type 0 where
  linked : Linked discovery pt.phase_history pt.current_phase
  changes : (phase_stats pt).transition_count ≡ length pt.phase_history
  discoveries : (phase_stats pt).discovery_entries ≡ entries discovery pt.phase_history
  stables : (phase_stats pt).stable_entries ≡ entries cruise pt.phase_history
  escalations : (phase_stats pt).escalation_count ≡ entries escalation pt.phase_history
  total :
      (phase_stats pt).transition_count
      ≡ (phase_stats pt).discovery_entries
        + (phase_stats pt).stable_entries
        + (phase_stats pt).escalation_count

module _ (pt : PhaseTracker) (to : PatternPhase) (reason : String) (now : ℕ) (v : Faithful pt) where
  abbrev entry : PhaseTransition
  entry = record { from = pt.current_phase; to = to; reason = reason; timestamp = now }

  transition-Linked :
      Linked discovery
        (transition pt to reason now).phase_history
        (transition pt to reason now).current_phase
  unfolding transition
  transition-Linked =
      elim to
        as (λ to'.
          Linked discovery (transition pt to' reason now).phase_history
            (transition pt to' reason now).current_phase) [
              | discovery ↦
                  Linked-append discovery pt.phase_history (record entry { to = discovery })
                    v.linked refl
              | cruise ↦
                  Linked-append discovery pt.phase_history (record entry { to = cruise }) v.linked
                    refl
              | escalation ↦
                  Linked-append discovery pt.phase_history (record entry { to = escalation })
                    v.linked refl
            ]

  transition-Faithful : Faithful (transition pt to reason now)
  unfolding transition phase_stats
  transition-Faithful = record {
    changes = refl;
    linked = transition-Linked;
    discoveries = ground (arith, v.discoveries, entries-append discovery pt.phase_history entry);
    stables = ground (arith, v.stables, entries-append cruise pt.phase_history entry);
    escalations = ground (arith, v.escalations, entries-append escalation pt.phase_history entry);
    total = ground (arith, v.total, length-append pt.phase_history (entry ∷ []));
  }

-- What `Faithful` reads of a tracker.
abbrev SameRecord : PhaseTracker → PhaseTracker → Type 0
SameRecord pt pt' =
    (pt'.phase_history ≡ pt.phase_history)
    × (pt'.current_phase ≡ pt.current_phase)
    × (pt'.discovery_entries ≡ pt.discovery_entries)
    × (pt'.stable_entries ≡ pt.stable_entries)
    × (pt'.escalation_count ≡ pt.escalation_count)

same-Faithful : (pt pt' : PhaseTracker) → SameRecord pt pt' → Faithful pt → Faithful pt'
unfolding phase_stats
same-Faithful pt pt' s v = record {
  changes = refl;
  linked = rw (s.0, s.1) v.linked;
  discoveries = rw (s.0, s.2) v.discoveries;
  stables = rw (s.0, s.3) v.stables;
  escalations = rw (s.0, s.4) v.escalations;
  total = rw (s.0, s.2, s.3, s.4) v.total;
}

choose-Faithful :
    (b : Bool) (x y : PhaseTracker) → Faithful x → Faithful y → Faithful (if b then x else y)
choose-Faithful true x y vx vy = vx
choose-Faithful false x y vx vy = vy

relearn-Faithful :
    (pt : PhaseTracker) (reason : String) (now : ℕ) → Faithful pt → Faithful (relearn pt reason now)
unfolding relearn
relearn-Faithful pt reason now v =
    same-Faithful (transition pt discovery reason now) _ (refl, refl, refl, refl, refl)
      (transition-Faithful pt discovery reason now v)

count_smart-Faithful : (pt : PhaseTracker) (now : ℕ) → Faithful pt → Faithful (count_smart pt now)
unfolding count_smart
count_smart-Faithful pt now v =
    let counted =
      same-Faithful pt
        (record pt { consecutive_smart = pt.consecutive_smart + 1; last_light_failed = false })
        (refl, refl, refl, refl, refl) v in
    choose-Faithful _ _ _ (transition-Faithful _ cruise _ now counted) counted

succeed_heavy-Faithful :
    (p : PatternPhase) (pt counted : PhaseTracker) (now : ℕ)
    → Faithful pt
    → Faithful counted
    → Faithful (succeed_heavy p pt counted now)
unfolding succeed_heavy
succeed_heavy-Faithful escalation pt counted now v w = relearn-Faithful pt _ now v
succeed_heavy-Faithful cruise pt counted now v w =
    choose-Faithful pt.last_light_failed _ _ (relearn-Faithful pt _ now v) w
succeed_heavy-Faithful discovery pt counted now v w = w

clear_light-Faithful : (pt : PhaseTracker) → Faithful pt → Faithful (clear_light pt)
unfolding clear_light
clear_light-Faithful pt v = same-Faithful pt _ (refl, refl, refl, refl, refl) v

step-Faithful : (pt : PhaseTracker) (o : Outcome) → Faithful pt → Faithful (step pt o)
unfolding step record_success record_failure
step-Faithful pt (succeeded light now) v = same-Faithful pt _ (refl, refl, refl, refl, refl) v
step-Faithful pt (succeeded smart now) v =
    let w = clear_light-Faithful pt v in
    succeed_heavy-Faithful _ _ _ now w (count_smart-Faithful _ now w)
step-Faithful pt (succeeded vlm now) v =
    let w = clear_light-Faithful pt v in succeed_heavy-Faithful _ _ _ now w w
step-Faithful pt (succeeded _ now) v = v
step-Faithful pt (failed light now) v =
    let counted = same-Faithful pt _ (refl, refl, refl, refl, refl) v in
    choose-Faithful _ _ _ (transition-Faithful _ escalation _ now counted) counted
step-Faithful pt (failed smart now) v = same-Faithful pt _ (refl, refl, refl, refl, refl) v
step-Faithful pt (failed vlm now) v = same-Faithful pt _ (refl, refl, refl, refl, refl) v
step-Faithful pt (failed _ now) v = v

new-Faithful : (d c e : ℤ) → Faithful (new_phase_tracker d c e)
unfolding new_phase_tracker phase_stats
new-Faithful d c e = record {
  changes = refl;
  linked = refl;
  discoveries = refl;
  stables = refl;
  escalations = refl;
  total = omega arith;
}

run-Faithful : (pt : PhaseTracker) (os : List Outcome) → Faithful pt → Faithful (run pt os)
unfolding run
run-Faithful pt [] v = v
run-Faithful pt (o ∷ os) v = run-Faithful (step pt o) os (step-Faithful pt o v)

-- After any outcomes, the recorded changes form a path from discovery to the current phase, each
-- starting where the one before it ended, `Stats` reports the number of recorded changes, and its
-- three counters are the numbers of recorded entries into each phase and add up to that number.
pub phase_run-new-Faithful :
    (d c e : ℤ) (os : List Outcome) → Faithful (run (new_phase_tracker d c e) os)
phase_run-new-Faithful d c e os = run-Faithful _ os (new-Faithful d c e)
