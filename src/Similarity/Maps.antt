-- ===== src/Similarity/Maps.antt =====
-- The Jaccard similarity of two maps of counts in pkg/domheal/fingerprint_matcher.go.
use mathlib.Core.Path.{subst}
use uiauto_framework.Names.{mem, Distinct, mem-append}
use uiauto_framework.Prelude.{
  ℕ, ◌+◌, ◌≤◌, ◌≡◌, refl, ◌∙◌, ◌↔◌, inl, inr, false, not, ◌||◌, [], ◌∷◌, String, arith, Bool-cases,
  keep_if, length, ◌==◌,
}
use uiauto_framework.Similarity.{
  Score, Counts, names, count, all_keys, min, max, sum_over, intersection, union, map_similarity,
}
use uiauto_framework.Similarity.Sums.{
  sum_over-ext, sum_over-le, sum_over_same, sum_over_tight, mem-keep_if, Distinct-keep_if,
  Distinct-append_disjoint,
}

-- Each name stands once.
abbrev pub IsMap : Counts → Type 0
IsMap m = Distinct (names m)

count_outside : (m : Counts) (k : String) → mem k (names m) ≡ false → count m k ≡ 0
unfolding count
count_outside [] k h = refl
count_outside ((j, n) ∷ m) k h = ground (arith, count_outside m k, h)

pub mem-all_keys :
    (a b : Counts) (k : String) → mem k (all_keys a b) ≡ (mem k (names a) || mem k (names b))
unfolding all_keys
mem-all_keys a b k = ground (
  arith,
  mem-append k (names a) (keep_if (λ j. not (mem j (names a))) (names b)),
  mem-keep_if (λ j. not (mem j (names a))) k (names b),
)

all_keys-Distinct : (a b : Counts) → IsMap a → IsMap b → Distinct (all_keys a b)
unfolding all_keys
all_keys-Distinct a b da db =
    Distinct-append_disjoint (names a) _ da
      (Distinct-keep_if (λ j. not (mem j (names a))) (names b) db)
      (λ v m. ground (arith, mem-keep_if (λ j. not (mem j (names a))) v (names b), m))

same_keys : (a b : Counts) (k : String) → mem k (all_keys a b) ≡ mem k (all_keys b a)
same_keys a b k = ground (arith, mem-all_keys a b k, mem-all_keys b a k)

sum_sym :
    (f g : String → ℕ)
    → ((k : String) → f k ≡ g k)
    → (a b : Counts) → IsMap a
    → IsMap b
    → sum_over f (all_keys a b) ≡ sum_over g (all_keys b a)
sum_sym f g h a b da db =
    sum_over-ext f g h (all_keys a b)
    ∙ sum_over_same g (all_keys a b) (all_keys b a) (all_keys-Distinct a b da db)
        (all_keys-Distinct b a db da) (same_keys a b)

pub intersection_sym : (a b : Counts) → IsMap a → IsMap b → intersection a b ≡ intersection b a
unfolding intersection
intersection_sym a b da db =
    sum_sym _ (λ k. min (count b k) (count a k)) (λ k. ground arith) a b da db

pub union_sym : (a b : Counts) → IsMap a → IsMap b → union a b ≡ union b a
unfolding union
union_sym a b da db = sum_sym _ (λ k. max (count b k) (count a k)) (λ k. ground arith) a b da db

pub intersection-le-union : (a b : Counts) → intersection a b ≤ union a b
unfolding intersection union
intersection-le-union a b = sum_over-le _ _ (λ k. ground arith) (all_keys a b)

count_either : (a b : Counts) → intersection a b ≡ union a b → (k : String) → count a k ≡ count b k
unfolding intersection union
count_either a b e k = elim (Bool-cases (mem k (all_keys a b))) [
  | inl inside ↦ ground (
    arith,
    sum_over_tight (λ j. min (count a j) (count b j)) (λ j. max (count a j) (count b j))
        (λ j. ground arith) (all_keys a b) e k inside,
  )
  | inr outside ↦ ground (arith, mem-all_keys a b k, outside, count_outside a k, count_outside b k)
]

pub both_sums :
    (a b : Counts) → ((k : String) → count a k ≡ count b k) → intersection a b ≡ union a b
unfolding intersection union
both_sums a b h = sum_over-ext _ _ (λ k. ground (arith, h k)) (all_keys a b)

length_zero : (m : Counts) → length m ≡ 0 → m ≡ []
length_zero [] h = refl
length_zero (x ∷ m) h = absurd (omega (arith, h))

abbrev pub jaccard : Counts → Counts → Score
jaccard a b = record { num = intersection a b; den = union a b }

pub jaccard_sym : (a b : Counts) → IsMap a → IsMap b → jaccard a b ≡ jaccard b a
jaccard_sym a b da db = cc (intersection_sym a b da db, union_sym a b da db)

-- What holds of a score of two maps.
abbrev pub Jaccard : Counts → Counts → Score → Score → Type 0
Jaccard a b s t =
    (s.num ≤ s.den) × (s ≡ t) × ((s.num ≡ s.den) ↔ ((k : String) → count a k ≡ count b k))

jaccard-Jaccard : (a b : Counts) → IsMap a → IsMap b → Jaccard a b (jaccard a b) (jaccard b a)
jaccard-Jaccard a b da db =
    (intersection-le-union a b, jaccard_sym a b da db, (count_either a b, both_sums a b))

pub map_filled :
    (a b : Counts) → (length a + length b == 0) ≡ false → jaccard a b ≡ map_similarity a b
unfolding map_similarity
map_filled a b h = rw (h, map_similarity) refl

-- The similarity of two maps lies between 0 and 1 and does not depend on their order, and it is 1
-- exactly when every name has the same count in both.
pub map_similarity_lem :
    (a b : Counts) → IsMap a → IsMap b → Jaccard a b (map_similarity a b) (map_similarity b a)
unfolding map_similarity
map_similarity_lem a b da db = elim (Bool-cases (length a + length b == 0)) [
  | inl empty ↦
      let ea = length_zero a (ground (arith, empty)) in
      let eb = length_zero b (ground (arith, empty)) in
      rw ea (rw eb (omega arith, refl, ((λ e k. refl), (λ h. refl))))
  | inr filled ↦
      subst (λ t. Jaccard a b (map_similarity a b) t) (map_filled b a (ground (arith, filled)))
        (subst (λ s. Jaccard a b s (jaccard b a)) (map_filled a b filled)
          (jaccard-Jaccard a b da db))
]
