-- ===== src/Similarity/Weighted.antt =====
-- The weighted similarity of two fingerprints in pkg/domheal/fingerprint_matcher.go.
use text.Mathlib.TextEquality.{eq_iff}
use uiauto_framework.Names.{mem}
use uiauto_framework.Prelude.{
  ℕ, ◌+◌, ◌*◌, ◌≤◌, ◌<◌, ◌≡◌, ap, inl, inr, true, List, [], ◌∷◌, String, str_eq, arith, Bool-cases,
  length, All,
}
use uiauto_framework.Similarity.{Score, Counts, count, all_keys, max, sum_over, union, weigh, plus}
use uiauto_framework.Similarity.Maps.{mem-all_keys}

-- A score that is a number from 0 to `w`.
abbrev pub Within : ℕ → Score → Type 0
Within w s = (0 < s.den) × (s.num ≤ w * s.den)

pub weigh-Within : (w : ℕ) (s : Score) → Within 1 s → Within w (weigh w s)
unfolding weigh
weigh-Within w s h = (h.0, grind (arith, h))

pos-mul : (a b : ℕ) → 0 < a → 0 < b → 0 < a * b
pos-mul a b h k = grind arith

pub plus-Within : (v w : ℕ) (s t : Score) → Within v s → Within w t → Within (v + w) (plus s t)
unfolding plus
plus-Within v w s t h k = (pos-mul s.den t.den h.0 k.0, sum_le s.num s.den t.num t.den h.1 k.1)
  where
    scaled : (a b c : ℕ) → a ≤ b → a * c ≤ b * c
    scaled a b c h = grind arith

    sum_le : (a b c d : ℕ) → a ≤ v * b → c ≤ w * d → a * d + c * b ≤ (v + w) * (b * d)
    sum_le a b c d h k = grind (arith, scaled a (v * b) d h, scaled c (w * d) b k)

sum_over_term :
    (f : String → ℕ) (k : String) (ks : List String) → mem k ks ≡ true → f k ≤ sum_over f ks
unfolding sum_over
sum_over_term f k [] m = absurd (ground (arith, m))
sum_over_term f k (j ∷ ks) m = elim (Bool-cases (str_eq k j)) [
  | inl own ↦ omega (arith, ap f ((eq_iff k j).0 own))
  | inr other ↦ omega (arith, sum_over_term f k ks (ground (arith, m, other)))
]

-- Every count is positive.
abbrev pub Positive : Counts → Type 0
Positive = All (λ (kn : String × ℕ). 0 < kn.1)

pub union_pos : (a b : Counts) → Positive a → 0 < length a → 0 < union a b
unfolding union count
union_pos [] b h l = absurd (omega (arith, l))
union_pos ((k, n) ∷ m) b h l =
    let a = (k, n) ∷ m in
    let term =
      sum_over_term (λ j. max (count a j) (count b j)) k (all_keys a b)
        (ground (arith, mem-all_keys a b k, eq_iff k k)) in
    ground (arith, term, h.0, eq_iff k k)
