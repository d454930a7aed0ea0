-- ===== src/Similarity.antt =====
-- The similarity of page fingerprints in pkg/domheal/structural_matcher.go and
-- pkg/domheal/fingerprint_matcher.go. A score, which the source keeps as a floating-point number, is
-- a fraction. A map from names to counts is a list with each name once. The parts that the
-- fingerprints' regular expressions and `strings.Split` find are arguments.
pub mod Sums
mod Maps
mod Sets
mod Weighted
pub mod Prints
mod Tests
use uiauto_framework.Names.{mem}
use uiauto_framework.Prelude.{
  ℕ, zero, suc, ◌+◌, ◌-◌, ◌*◌, Bool, true, false, not, ◌&&◌, ◌||◌, List, [], ◌∷◌, ◌++◌, String,
  str_eq, Option, none, some, lookup, ◌==◌, ltb, leb, if◌then◌else◌, length, keep_if, count_if,
}

-- num / den
pub record Score : Type 0 where
  pub num : ℕ
  pub den : ℕ

abbrev pub Counts : Type 0
Counts = List (String × ℕ)

abbrev one : Score
one = record { num = 1; den = 1 }

abbrev none_of : Score
none_of = record { num = 0; den = 1 }

abbrev pub names : Counts → List String
names [] = []
names ((k, n) ∷ m) = k ∷ names m

-- `m[k]`
pub count : Counts → String → ℕ
count [] k = 0
count ((j, n) ∷ m) k = let rest = count m k in if str_eq k j then n else rest

-- `allTags`, `allKeys`: the names of both maps.
pub all_keys : Counts → Counts → List String
all_keys a b = names a ++ keep_if (λ k. not (mem k (names a))) (names b)

abbrev pub min : ℕ → ℕ → ℕ
min x y = if ltb x y then x else y

abbrev pub max : ℕ → ℕ → ℕ
max x y = if ltb x y then y else x

-- A sum over the keys.
pub sum_over : (String → ℕ) → List String → ℕ
sum_over f [] = 0
sum_over f (k ∷ ks) = f k + sum_over f ks

pub intersection : Counts → Counts → ℕ
intersection a b = sum_over (λ k. min (count a k) (count b k)) (all_keys a b)

pub union : Counts → Counts → ℕ
union a b = sum_over (λ k. max (count a k) (count b k)) (all_keys a b)

-- `MapSimilarity`
pub map_similarity : Counts → Counts → Score
map_similarity a b =
    if length a + length b == 0 then one else record { num = intersection a b; den = union a b }

-- The set of the list, as a list with each name once.
pub set_of : List String → List String
set_of [] = []
set_of (x ∷ xs) = let rest = set_of xs in if mem x rest then rest else x ∷ rest

pub shared : List String → List String → ℕ
shared a b = count_if (λ k. mem k b) a

-- `StringSimilarity`, with the parts that `strings.Split` and `strings.TrimSpace` give.
pub string_similarity : (String → List String) → String → String → Score
string_similarity parts a b =
    if str_eq a b
    then one
    else if str_eq a "" || str_eq b ""
    then none_of
    else let both = shared (set_of (parts a)) (set_of (parts b)) in
      record { num = both; den = length (set_of (parts a)) + length (set_of (parts b)) - both }

-- `TextPatternOverlap`
pub text_pattern_overlap : List String → List String → Score
text_pattern_overlap a b =
    if length a + length b == 0
    then one
    else if length a == 0 || length b == 0
    then none_of
    else let both = shared b a in record { num = both; den = length a + length b - both }

pub record DomFingerprint : Type 0 where
  pub tag_counts : Counts
  pub total_nodes : ℕ
  pub class_fingerprint : String
  pub text_patterns : List String
  pub data_attrs : Counts
  pub role_map : Counts

-- `StructuralSimilarity`
pub structural_similarity : DomFingerprint → DomFingerprint → Score
structural_similarity a b = if a.total_nodes + b.total_nodes == 0 then one else record {
  num = intersection a.tag_counts b.tag_counts;
  den = union a.tag_counts b.tag_counts;
}

-- A score times a weight, and the sum of two scores.
pub weigh : ℕ → Score → Score
weigh w s = record { num = w * s.num; den = s.den }

pub plus : Score → Score → Score
plus s t = record { num = s.num * t.den + t.num * s.den; den = s.den * t.den }

-- `DOMFingerprintSimilarity`, in twentieths: the weights 0.40, 0.15, 0.15, 0.10 and 0.20.
pub dom_fingerprint_similarity : (String → List String) → DomFingerprint → DomFingerprint → Score
dom_fingerprint_similarity parts a b = plus (weigh 8 (structural_similarity a b)) (
    plus (weigh 3 (string_similarity parts a.class_fingerprint b.class_fingerprint)) (
      plus (weigh 3 (map_similarity a.data_attrs b.data_attrs)) (
        plus (weigh 2 (map_similarity a.role_map b.role_map))
          (weigh 4 (text_pattern_overlap a.text_patterns b.text_patterns)))))

-- What `DOMFingerprintSimilarity` returns, between 0 and 1.
pub fingerprint_score : (String → List String) → DomFingerprint → DomFingerprint → Score
fingerprint_score parts a b =
    let twentieths = dom_fingerprint_similarity parts a b in
    record { num = twentieths.num; den = 20 * twentieths.den }
