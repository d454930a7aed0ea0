-- ===== src/Similarity/Sets.antt =====
-- The overlap of two sets of names in pkg/domheal/fingerprint_matcher.go.
use text.Mathlib.TextEquality.{eq_iff}
use uiauto_framework.Names.{mem, Distinct, length-le_of_mem}
use uiauto_framework.Prelude.{
  ◌≤◌, ◌<◌, ◌≡◌, refl, ap, sym, ◌∙◌, inl, inr, true, List, [], ◌∷◌, String, str_eq, arith,
  Bool-cases, keep_if, length,
}
use uiauto_framework.Similarity.{set_of, shared, string_similarity, text_pattern_overlap}
use uiauto_framework.Similarity.Sums.{mem-keep_if, Distinct-keep_if}

mem-set_of : (v : String) (xs : List String) → mem v (set_of xs) ≡ mem v xs
unfolding set_of
mem-set_of v [] = refl
mem-set_of v (x ∷ xs) = elim (Bool-cases (mem x (set_of xs))) [
  | inl old ↦ rw old (elim (Bool-cases (str_eq v x)) [
    | inl own ↦
        mem-set_of v xs
        ∙ rw own (ap (λ (w : String). mem w xs) ((eq_iff v x).0 own) ∙ sym (mem-set_of x xs) ∙ old)
    | inr other ↦ rw other (mem-set_of v xs)
  ])
  | inr fresh ↦ ground (arith, mem-set_of v xs, fresh)
]

pub set_of-Distinct : (xs : List String) → Distinct (set_of xs)
unfolding set_of
set_of-Distinct [] = tt
set_of-Distinct (x ∷ xs) = ground (arith, set_of-Distinct xs)

shared-length : (a b : List String) → shared a b ≡ length (keep_if (λ k. mem k b) a)
unfolding shared
shared-length [] b = refl
shared-length (x ∷ a) b = ground (arith, shared-length a b)

shared-le : (a b : List String) → Distinct a → shared a b ≤ shared b a
shared-le a b da =
    let le =
      length-le_of_mem (keep_if (λ k. mem k b) a) (keep_if (λ k. mem k a) b)
        (Distinct-keep_if (λ k. mem k b) a da)
        (λ v m.
          ground (arith, mem-keep_if (λ k. mem k b) v a, mem-keep_if (λ k. mem k a) v b, m)) in
    omega (arith, shared-length a b, shared-length b a, le)

pub shared_sym : (a b : List String) → Distinct a → Distinct b → shared a b ≡ shared b a
shared_sym a b da db = omega (arith, shared-le a b da, shared-le b a db)

pub shared-le-length : (a b : List String) → shared a b ≤ length a
unfolding shared
shared-le-length [] b = omega arith
shared-le-length (x ∷ a) b = ground (arith, shared-le-length a b)

pub shared_le_right : (a b : List String) → Distinct a → Distinct b → shared a b ≤ length b
shared_le_right a b da db = omega (arith, shared_sym a b da db, shared-le-length b a)

shared_within :
    (a b : List String) → ((v : String) → mem v a ≡ true → mem v b ≡ true) → shared a b ≡ length a
unfolding shared
shared_within [] b h = refl
shared_within (x ∷ a) b h =
    ground (arith, shared_within a b (λ v m. h v (ground (arith, m))), h x, eq_iff x x)

pub shared_self : (a : List String) → shared a a ≡ length a
shared_self a = shared_within a a (λ v m. m)

pub set_of-filled : (xs : List String) → 0 < length xs → 0 < length (set_of xs)
set_of-filled [] h = absurd (omega (arith, h))
set_of-filled (x ∷ xs) h =
    positive (set_of (x ∷ xs)) (ground (arith, mem-set_of x (x ∷ xs), eq_iff x x))
  where
    positive : (ys : List String) → mem x ys ≡ true → 0 < length ys
    positive [] m = absurd (ground (arith, m))
    positive (y ∷ ys) m = omega arith

-- The overlap of two lists of patterns without repetitions lies between 0 and 1, and does not depend
-- on their order.
pub text_pattern_overlap_lem :
    (a b : List String)
    → Distinct a
    → Distinct b
    → ((text_pattern_overlap a b).num ≤ (text_pattern_overlap a b).den)
      × (text_pattern_overlap a b ≡ text_pattern_overlap b a)
unfolding text_pattern_overlap
text_pattern_overlap_lem a b da db =
    ground (arith, shared_sym a b da db, shared-le-length a b, shared-le-length b a)

-- So does the similarity of two class lists, however they are split.
pub string_similarity_lem :
    (parts : String → List String) (a b : String)
    → ((string_similarity parts a b).num ≤ (string_similarity parts a b).den)
      × (string_similarity parts a b ≡ string_similarity parts b a)
unfolding string_similarity
string_similarity_lem parts a b =
    let da = set_of-Distinct (parts a) in
    let db = set_of-Distinct (parts b) in
    ground (
      arith,
      shared_sym (set_of (parts a)) (set_of (parts b)) da db,
      shared-le-length (set_of (parts a)) (set_of (parts b)),
      shared-le-length (set_of (parts b)) (set_of (parts a)),
      eq_iff a b,
      eq_iff b a,
    )
