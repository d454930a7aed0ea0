-- ===== src/Store/Fallback/Mirror.antt =====
-- What the fallback store of pkg/uiauto/store/fallback.go holds.
use uiauto_framework.Prelude.{
  ℕ, ◌≡◌, refl, ◌∙◌, ap, inl, inr, Bool, Option-cases, true, false, List, [], ◌∷◌, String, Option,
  none, some, if◌then◌else◌, arith,
}
use uiauto_framework.Store.{Pattern, PatternStore}
use uiauto_framework.Store.Fallback.{
  FallbackStore, found, should_use_primary, record_failure, record_success, on_primary, on_fallback,
  get_from, get, written, set_in, set,
}

-- The calls of `Set`, each at its time, and what they do to a store without a breaker.
pub set_all : {S : Type 0} → PatternStore S → List (ℕ × Pattern) → S → S
set_all f [] y = y
set_all f ((now, x) ∷ xs) y = set_all f xs (f.set x y).0

module _ {P F : Type 0} (p : PatternStore P) (f : PatternStore F) where
  pub set_each : List (ℕ × Pattern) → FallbackStore P F → FallbackStore P F
  set_each [] s = s
  set_each ((now, x) ∷ xs) s = set_each xs (set p f now x s).0

  choose_fallback :
      (now : ℕ) (s : FallbackStore P F) → (should_use_primary now s).0.fallback ≡ s.fallback
  unfolding should_use_primary
  choose_fallback now s = ground arith

  written_fallback :
      (now : ℕ) (x : Pattern) (r : FallbackStore P F × Option String)
      → (written p f now x r).0.fallback ≡ (f.set x r.0.fallback).0
  unfolding written on_fallback record_failure record_success
  written_fallback now x (s, none) = refl
  written_fallback now x (s, some err) = ground arith

  set_in_fallback :
      (now : ℕ) (x : Pattern) (r : FallbackStore P F × Bool)
      → (set_in p f now x r).0.fallback ≡ (f.set x r.0.fallback).0
  unfolding set_in on_primary on_fallback
  set_in_fallback now x (s, true) = written_fallback now x (on_primary (p.set x) s)
  set_in_fallback now x (s, false) = refl

  set_each_fallback :
      (xs : List (ℕ × Pattern)) (s : FallbackStore P F)
      → (set_each xs s).fallback ≡ set_all f xs s.fallback
  unfolding set_each set_all set
  set_each_fallback [] s = refl
  set_each_fallback ((now, x) ∷ xs) s =
      set_each_fallback xs (set p f now x s).0
      ∙ ap (set_all f xs) (
          set_in_fallback now x (should_use_primary now s)
          ∙ ap (λ y. (f.set x y).0) (choose_fallback now s))

  get_answer :
      (key : String) (r : FallbackStore P F × Bool)
      → (get_from p f key r).1
        ≡ (if r.1 then (p.get key r.0.primary).1 else (f.get key r.0.fallback).1)
  unfolding get_from found on_primary on_fallback
  get_answer key (s, true) = elim (Option-cases (p.get key s.primary).1) [
    | inl none_found ↦ rw none_found refl
    | inr (x, one_found) ↦ rw one_found refl
  ]
  get_answer key (s, false) = refl

  choose_primary :
      (now : ℕ) (s : FallbackStore P F) → (should_use_primary now s).0.primary ≡ s.primary
  unfolding should_use_primary
  choose_primary now s = ground arith

-- Whatever the primary store does and whenever the calls come, the calls of `Set` do to the fallback
-- store what they do to a store without a breaker, and a `Get` answers from that or, where the breaker
-- lets it use the primary store, from the primary store.
pub set_each_refines :
    {P F : Type 0} (p : PatternStore P) (f : PatternStore F) (xs : List (ℕ × Pattern))
    (s : FallbackStore P F) (now : ℕ) (key : String)
    → ((set_each p f xs s).fallback ≡ set_all f xs s.fallback)
      × ((get p f now key (set_each p f xs s)).1 ≡ (
          if (should_use_primary now (set_each p f xs s)).1
          then (p.get key (set_each p f xs s).primary).1
          else (f.get key (set_all f xs s.fallback)).1))
unfolding get
set_each_refines p f xs s now key =
    let t = set_each p f xs s in
    (
      set_each_fallback p f xs s,
      cc (
        get_answer p f key (should_use_primary now t),
        choose_fallback p f now t,
        choose_primary p f now t,
        set_each_fallback p f xs s,
      ),
    )
