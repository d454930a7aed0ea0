-- ===== src/Matcher/Prints.antt =====
-- FindClosestMatch of pkg/domheal/fingerprint_matcher.go over the similarity of fingerprints.
use uiauto_framework.Prelude.{◌<◌, ◌≡◌, List, [], ◌∷◌, String, length, All}
use uiauto_framework.Similarity.{DomFingerprint, fingerprint_score}
use uiauto_framework.Similarity.Prints.{IsPrint, fingerprint_score-Within}
use uiauto_framework.Matcher.{Matcher, find_closest_match}
use uiauto_framework.Matcher.Closest.{
  AllAtMost, Proper, ReportsAny, any_reaches, find_closest_match_lem,
}

module _ (parts : String → List String) (filled : (s : String) → 0 < length (parts s)) where
  prints-Proper :
      (current : DomFingerprint)
      → IsPrint current
      → (known : List (String × DomFingerprint))
      → All (λ (ps : String × DomFingerprint). IsPrint ps.1) known
      → Proper (fingerprint_score parts) current known
  prints-Proper current p [] ps = tt
  prints-Proper current p ((page, sig) ∷ known) ps = (
    (fingerprint_score-Within parts filled current sig p ps.0).0,
    prints-Proper current p known ps.1,
  )

  -- However class lists are split into at least one part: for a well-formed page, well-formed known
  -- pages and a positive threshold, FindClosestMatch gives a known page with its similarity, or no page with the similarity 0; no known page has a larger similarity, in
  -- whatever order they are visited; and it says that it found one exactly when the similarity of
  -- some known page reaches the threshold.
  pub closest_print_lem :
      (m : Matcher DomFingerprint) (current : DomFingerprint)
      → IsPrint current
      → All (λ (ps : String × DomFingerprint). IsPrint ps.1) m.known
      → 0 < m.threshold.num
      → AllAtMost
          (fingerprint_score parts)
          current
          m.known
          (find_closest_match (fingerprint_score parts) current m).similarity
        × ((find_closest_match (fingerprint_score parts) current m).found
            ≡ any_reaches (fingerprint_score parts) current m.threshold m.known)
        × ReportsAny
            (fingerprint_score parts)
            current
            m.known
            (find_closest_match (fingerprint_score parts) current m)
  closest_print_lem m current p ps pos =
      find_closest_match_lem (fingerprint_score parts) current m
        (prints-Proper current p m.known ps) pos
