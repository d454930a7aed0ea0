-- ===== src/Similarity/Prints.antt =====
-- The weighted similarity of two whole fingerprints in pkg/domheal/fingerprint_matcher.go.
use text.Mathlib.TextEquality.{eq_iff}
use uiauto_framework.Names.{Distinct}
use uiauto_framework.Prelude.{ℕ, ◌+◌, ◌*◌, ◌<◌, ◌≡◌, refl, List, [], ◌∷◌, String, arith, length}
use uiauto_framework.Similarity.{
  Score, Counts, union, map_similarity, set_of, string_similarity, text_pattern_overlap,
  DomFingerprint, structural_similarity, weigh, plus, dom_fingerprint_similarity, fingerprint_score,
}
use uiauto_framework.Similarity.Maps.{
  IsMap, jaccard_sym, intersection-le-union, map_similarity_lem, both_sums, union_sym,
}
use uiauto_framework.Similarity.Sets.{
  shared_self, shared_le_right, set_of-filled, shared-le-length, text_pattern_overlap_lem,
  string_similarity_lem, set_of-Distinct,
}
use uiauto_framework.Similarity.Weighted.{Within, weigh-Within, plus-Within, Positive, union_pos}

-- What the matcher makes of a page: maps with positive counts, a tag for each element counted, and
-- no pattern twice.
pub record IsPrint (f : DomFingerprint) : Type 0 where
  pub tags : IsMap f.tag_counts
  pub tags_pos : Positive f.tag_counts
  pub tagged : 0 < f.total_nodes → 0 < length f.tag_counts
  pub attrs : IsMap f.data_attrs
  pub attrs_pos : Positive f.data_attrs
  pub roles : IsMap f.role_map
  pub roles_pos : Positive f.role_map
  pub texts : Distinct f.text_patterns

-- A score at its weight.
abbrev pub Full : ℕ → Score → Type 0
Full w s = s.num ≡ w * s.den

weigh-Full : (w : ℕ) (s : Score) → Full 1 s → Full w (weigh w s)
unfolding weigh
weigh-Full w s h = grind (arith, h)

plus-Full : (v w : ℕ) (s t : Score) → Full v s → Full w t → Full (v + w) (plus s t)
unfolding plus
plus-Full v w s t h k = rw h (rw k (grind arith))

union_pos_either :
    (a b : Counts)
    → IsMap a
    → IsMap b
    → Positive a
    → Positive b
    → 0 < length a + length b
    → 0 < union a b
union_pos_either [] b da db pa pb l =
    ground (arith, union_sym [] b da db, union_pos b [] pb (omega (arith, l)))
union_pos_either (x ∷ a) b da db pa pb l = union_pos (x ∷ a) b pa (omega arith)

map-Within :
    (a b : Counts) → IsMap a → IsMap b → Positive a → Positive b → Within 1 (map_similarity a b)
unfolding map_similarity
map-Within a b da db pa pb =
    ground (arith, union_pos_either a b da db pa pb, intersection-le-union a b)

map-Full : (a : Counts) → Full 1 (map_similarity a a)
unfolding map_similarity
map-Full a = ground (arith, both_sums a a (λ k. refl))

structural-Within :
    (a b : DomFingerprint) → IsPrint a → IsPrint b → Within 1 (structural_similarity a b)
unfolding structural_similarity
structural-Within a b pa pb = ground (
  arith,
  pa.tagged,
  pb.tagged,
  union_pos_either a.tag_counts b.tag_counts pa.tags pb.tags pa.tags_pos pb.tags_pos,
  intersection-le-union a.tag_counts b.tag_counts,
)

structural_sym :
    (a b : DomFingerprint)
    → IsPrint a
    → IsPrint b
    → structural_similarity a b ≡ structural_similarity b a
unfolding structural_similarity
structural_sym a b pa pb = ground (arith, jaccard_sym a.tag_counts b.tag_counts pa.tags pb.tags)

structural-Full : (a : DomFingerprint) → Full 1 (structural_similarity a a)
unfolding structural_similarity
structural-Full a = ground (arith, both_sums a.tag_counts a.tag_counts (λ k. refl))

string-Within :
    (parts : String → List String)
    → ((s : String) → 0 < length (parts s))
    → (a b : String) → Within 1 (string_similarity parts a b)
unfolding string_similarity
string-Within parts filled a b = ground (
  arith,
  set_of-filled (parts a) (filled a),
  shared-le-length (set_of (parts a)) (set_of (parts b)),
  shared_le_right (set_of (parts a)) (set_of (parts b)) (set_of-Distinct (parts a))
      (set_of-Distinct (parts b)),
  set_of-filled (parts b) (filled b),
)

string-Full : (parts : String → List String) (a : String) → Full 1 (string_similarity parts a a)
unfolding string_similarity
string-Full parts a = ground (arith, eq_iff a a)

text-Within : (a b : List String) → Distinct a → Distinct b → Within 1 (text_pattern_overlap a b)
unfolding text_pattern_overlap
text-Within a b da db = ground (arith, shared-le-length b a, shared_le_right b a db da)

text-Full : (a : List String) → Full 1 (text_pattern_overlap a a)
unfolding text_pattern_overlap
text-Full a = ground (arith, shared_self a)

-- However class lists are split into at least one part, two well-formed fingerprints have a
-- similarity between 0 and 20 twentieths with a positive denominator; it does not depend on their
-- order; and a fingerprint has the whole 20 twentieths with itself.
pub dom_fingerprint_similarity_lem :
    (parts : String → List String)
    → ((s : String) → 0 < length (parts s))
    → (a b : DomFingerprint) → IsPrint a
    → IsPrint b
    → Within 20 (dom_fingerprint_similarity parts a b)
      × (dom_fingerprint_similarity parts a b ≡ dom_fingerprint_similarity parts b a)
      × Full 20 (dom_fingerprint_similarity parts a a)
unfolding dom_fingerprint_similarity
dom_fingerprint_similarity_lem parts filled a b pa pb = (bounds, same, full)
  where
    bounds : Within 20 (dom_fingerprint_similarity parts a b)
    bounds = plus-Within 8 12 _ _ (weigh-Within 8 _ (structural-Within a b pa pb)) (
        plus-Within 3 9 _ _
          (weigh-Within 3 _ (string-Within parts filled a.class_fingerprint b.class_fingerprint))
          (plus-Within 3 6 _ _
            (weigh-Within 3 _
              (map-Within a.data_attrs b.data_attrs pa.attrs pb.attrs pa.attrs_pos pb.attrs_pos))
            (plus-Within 2 4 _ _
              (weigh-Within 2 _
                (map-Within a.role_map b.role_map pa.roles pb.roles pa.roles_pos pb.roles_pos))
              (weigh-Within 4 _ (text-Within a.text_patterns b.text_patterns pa.texts pb.texts)))))

    same : dom_fingerprint_similarity parts a b ≡ dom_fingerprint_similarity parts b a
    same = cc (
      structural_sym a b pa pb,
      (string_similarity_lem parts a.class_fingerprint b.class_fingerprint).1,
      (map_similarity_lem a.data_attrs b.data_attrs pa.attrs pb.attrs).1,
      (map_similarity_lem a.role_map b.role_map pa.roles pb.roles).1,
      (text_pattern_overlap_lem a.text_patterns b.text_patterns pa.texts pb.texts).1,
    )

    full : Full 20 (dom_fingerprint_similarity parts a a)
    full = plus-Full 8 12 _ _ (weigh-Full 8 _ (structural-Full a)) (
        plus-Full 3 9 _ _ (weigh-Full 3 _ (string-Full parts a.class_fingerprint)) (
          plus-Full 3 6 _ _ (weigh-Full 3 _ (map-Full a.data_attrs)) (
            plus-Full 2 4 _ _ (weigh-Full 2 _ (map-Full a.role_map))
              (weigh-Full 4 _ (text-Full a.text_patterns)))))

-- What the matcher compares with its threshold is a fraction between 0 and 1.
pub fingerprint_score-Within :
    (parts : String → List String)
    → ((s : String) → 0 < length (parts s))
    → (a b : DomFingerprint) → IsPrint a
    → IsPrint b
    → Within 1 (fingerprint_score parts a b)
unfolding fingerprint_score
fingerprint_score-Within parts filled a b pa pb =
    let w = (dom_fingerprint_similarity_lem parts filled a b pa pb).0 in
    (omega (arith, w.0), omega (arith, w.1))
