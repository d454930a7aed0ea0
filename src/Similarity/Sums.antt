-- ===== src/Similarity/Sums.antt =====
-- Sums over lists of names, for the scores of pkg/domheal/fingerprint_matcher.go.
use text.Mathlib.TextEquality.{eq_iff}
use uiauto_framework.Names.{
  mem, Distinct, remove_first, mem-remove_first, str_eq_of_mem, mem_later, mem-append,
}
use uiauto_framework.Prelude.{
  ℕ, ◌+◌, ◌≤◌, ◌≡◌, refl, ap, sym, ◌∙◌, inl, inr, Bool, true, false, List, [], ◌∷◌, ◌++◌, String,
  str_eq, arith, Bool-cases, if◌then◌else◌, keep_if,
}
use uiauto_framework.Similarity.{sum_over}

pub sum_over-ext :
    (f g : String → ℕ)
    → ((k : String) → f k ≡ g k)
    → (ks : List String) → sum_over f ks ≡ sum_over g ks
unfolding sum_over
sum_over-ext f g h [] = refl
sum_over-ext f g h (k ∷ ks) = omega (arith, h k, sum_over-ext f g h ks)

pub sum_over-le :
    (f g : String → ℕ)
    → ((k : String) → f k ≤ g k)
    → (ks : List String) → sum_over f ks ≤ sum_over g ks
unfolding sum_over
sum_over-le f g h [] = omega arith
sum_over-le f g h (k ∷ ks) = omega (arith, h k, sum_over-le f g h ks)

sum_over-remove_first :
    (f : String → ℕ) (k : String) (ks : List String)
    → mem k ks ≡ true
    → sum_over f ks ≡ f k + sum_over f (remove_first k ks)
unfolding sum_over remove_first
sum_over-remove_first f k [] h = cc
sum_over-remove_first f k (j ∷ ks) h = elim (Bool-cases (str_eq k j)) [
  | inl same ↦ rw same (ap (λ (x : String). f x + sum_over f ks) (sym ((eq_iff k j).0 same)))
  | inr differ ↦ rw differ (omega (arith, sum_over-remove_first f k ks (ground (arith, h, differ))))
]

-- A sum over names that are all in the other list, those with a zero aside, is no larger.
sum_over_within :
    (f : String → ℕ) (xs ys : List String)
    → Distinct xs
    → ((v : String) → mem v xs ≡ true → mem v ys ≡ true)
    → sum_over f xs ≤ sum_over f ys
unfolding sum_over
sum_over_within f [] ys d sub = omega arith
sum_over_within f (x ∷ xs) ys d sub =
    let own : mem x ys ≡ true = sub x (ground (arith, eq_iff x x)) in
    omega (
      arith,
      sum_over-remove_first f x ys own,
      sum_over_within f xs (remove_first x ys) d.1 (λ v m.
          mem-remove_first v x ys (str_eq_of_mem x xs v d.0 m) (sub v (mem_later x xs v m))),
    )

-- A sum does not depend on the order of distinct names.
pub sum_over_same :
    (f : String → ℕ) (xs ys : List String)
    → Distinct xs
    → Distinct ys
    → ((v : String) → mem v xs ≡ mem v ys)
    → sum_over f xs ≡ sum_over f ys
sum_over_same f xs ys dx dy same = omega (
  arith,
  sum_over_within f xs ys dx (λ v m. sym (same v) ∙ m),
  sum_over_within f ys xs dy (λ v m. same v ∙ m),
)

-- Where a sum reaches one that is larger term by term, the terms are the same.
pub sum_over_tight :
    (f g : String → ℕ)
    → ((k : String) → f k ≤ g k)
    → (ks : List String) → sum_over f ks ≡ sum_over g ks
    → (k : String) → mem k ks ≡ true
    → f k ≡ g k
unfolding sum_over
sum_over_tight f g h [] e k m = cc
sum_over_tight f g h (j ∷ ks) e k m = elim (Bool-cases (str_eq k j)) [
  | inl same ↦
      ap f ((eq_iff k j).0 same)
      ∙ omega (arith, h j, e, sum_over-le f g h ks)
      ∙ sym (ap g ((eq_iff k j).0 same))
  | inr differ ↦
      sum_over_tight f g h ks (omega (arith, h j, e, sum_over-le f g h ks)) k
        (ground (arith, m, differ))
]

pub mem-keep_if :
    (p : String → Bool) (v : String) (xs : List String)
    → mem v (keep_if p xs) ≡ (if p v then mem v xs else false)
mem-keep_if p v [] = ground arith
mem-keep_if p v (x ∷ xs) = elim (Bool-cases (str_eq v x)) [
  | inl same ↦ ground (arith, mem-keep_if p v xs, ap p ((eq_iff v x).0 same), same)
  | inr differ ↦ ground (arith, mem-keep_if p v xs, differ)
]

pub Distinct-keep_if :
    (p : String → Bool) (xs : List String) → Distinct xs → Distinct (keep_if p xs)
Distinct-keep_if p [] d = tt
Distinct-keep_if p (x ∷ xs) d = ground (arith, Distinct-keep_if p xs d.1, mem-keep_if p x xs, d.0)

-- Two lists of distinct names with none in common.
pub Distinct-append_disjoint :
    (xs ys : List String)
    → Distinct xs
    → Distinct ys
    → ((v : String) → mem v xs ≡ true → mem v ys ≡ false)
    → Distinct (xs ++ ys)
Distinct-append_disjoint [] ys dx dy h = dy
Distinct-append_disjoint (x ∷ xs) ys dx dy h = (
  ground (arith, mem-append x xs ys, dx.0, h x, eq_iff x x),
  Distinct-append_disjoint xs ys dx.1 dy (λ v m. h v (mem_later x xs v m)),
)
