-- ===== src/Matcher/Tests.antt =====
-- The theorem about the fingerprint matcher of pkg/domheal at two known pages.
use uiauto_framework.Similarity.{DomFingerprint, fingerprint_score}
use uiauto_framework.Similarity.Prints.{IsPrint}
use uiauto_framework.Prelude.{ℕ, ◌+◌, ◌≡◌, refl, List, [], ◌∷◌, String, arith}
use uiauto_framework.Matcher.{Matcher, find_closest_match}
use uiauto_framework.Matcher.Closest.{AllAtMost, ReportsAny, any_reaches}
use uiauto_framework.Matcher.Prints.{closest_print_lem}

abbrev page : ℕ → String → DomFingerprint
page inputs class = record {
  tag_counts = ("form", 1) ∷ ("input", inputs + 1) ∷ [];
  total_nodes = inputs + 2;
  class_fingerprint = class;
  text_patterns = class ∷ [];
  data_attrs = [];
  role_map = [];
}

page-IsPrint : (inputs : ℕ) (class : String) → IsPrint (page inputs class)
page-IsPrint inputs class = record {
  tags = (refl, (refl, tt));
  tags_pos = (omega arith, (omega arith, tt));
  tagged = λ h. omega arith;
  attrs = tt;
  attrs_pos = tt;
  roles = tt;
  roles_pos = tt;
  texts = (refl, tt);
}

abbrev two : Matcher DomFingerprint
two = record {
  known = ("login", page 2 "login") ∷ ("search", page 1 "search") ∷ [];
  threshold = record { num = 7; den = 10 };
}

abbrev unsplit : String → List String
unsplit s = s ∷ []

closest_print_lem_example :
    AllAtMost
      (fingerprint_score unsplit)
      (page 3 "login")
      two.known
      (find_closest_match (fingerprint_score unsplit) (page 3 "login") two).similarity
    × ((find_closest_match (fingerprint_score unsplit) (page 3 "login") two).found
        ≡ any_reaches (fingerprint_score unsplit) (page 3 "login") two.threshold two.known)
    × ReportsAny
        (fingerprint_score unsplit)
        (page 3 "login")
        two.known
        (find_closest_match (fingerprint_score unsplit) (page 3 "login") two)
closest_print_lem_example =
    closest_print_lem unsplit (λ s. omega arith) two (page 3 "login") (page-IsPrint 3 "login")
      (page-IsPrint 2 "login", (page-IsPrint 1 "search", tt)) (omega arith)
