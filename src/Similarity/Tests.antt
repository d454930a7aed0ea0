-- ===== src/Similarity/Tests.antt =====
-- The theorems about pkg/domheal/fingerprint_matcher.go at small pages.
use uiauto_framework.Prelude.{◌≡◌, refl, List, [], ◌∷◌, String, arith}
use uiauto_framework.Similarity.{Counts, DomFingerprint, dom_fingerprint_similarity}
use uiauto_framework.Similarity.Weighted.{Within}
use uiauto_framework.Similarity.Prints.{IsPrint, Full, dom_fingerprint_similarity_lem}

abbrev form : Counts
form = ("input", 2) ∷ ("button", 1) ∷ []

abbrev list_page : Counts
list_page = ("input", 1) ∷ ("li", 4) ∷ []

abbrev page : Counts → String → DomFingerprint
page tags class = record {
  tag_counts = tags;
  total_nodes = 3;
  class_fingerprint = class;
  text_patterns = class ∷ [];
  data_attrs = [];
  role_map = [];
}

form-IsPrint : IsPrint (page form "login")
form-IsPrint = record {
  tags = (refl, (refl, tt));
  tags_pos = (omega arith, (omega arith, tt));
  tagged = λ h. omega arith;
  attrs = tt;
  attrs_pos = tt;
  roles = tt;
  roles_pos = tt;
  texts = (refl, tt);
}

list-IsPrint : IsPrint (page list_page "items")
list-IsPrint = record {
  tags = (refl, (refl, tt));
  tags_pos = (omega arith, (omega arith, tt));
  tagged = λ h. omega arith;
  attrs = tt;
  attrs_pos = tt;
  roles = tt;
  roles_pos = tt;
  texts = (refl, tt);
}

abbrev whole : String → List String
whole s = s ∷ []

dom_fingerprint_similarity_lem_example :
    Within 20 (dom_fingerprint_similarity whole (page form "login") (page list_page "items"))
    × (dom_fingerprint_similarity whole (page form "login") (page list_page "items")
        ≡ dom_fingerprint_similarity whole (page list_page "items") (page form "login"))
    × Full 20 (dom_fingerprint_similarity whole (page form "login") (page form "login"))
dom_fingerprint_similarity_lem_example =
    dom_fingerprint_similarity_lem whole (λ s. omega arith) (page form "login")
      (page list_page "items") form-IsPrint list-IsPrint
