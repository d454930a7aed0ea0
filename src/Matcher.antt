-- ===== src/Matcher.antt =====
-- pkg/domheal/structural_matcher.go and fingerprint_matcher.go: the matchers that remember a signature
-- for each page. Both are the same code over their own signature and similarity, which are arguments,
-- as is the signature that is parsed from a page. A similarity is a fraction between 0 and 1, as the
-- threshold is: for fingerprints, `fingerprint_score`.
mod Closest
mod Prints
mod Tests
use uiauto_framework.Similarity.{Score}
use uiauto_framework.Prelude.{
  ℕ, ◌*◌, Bool, true, false, not, List, [], ◌∷◌, String, Option, none, some, ltb, ◌==◌,
  if◌then◌else◌, insert, lookup,
}

pub record Matcher (S : Type 0) : Type 0 where
  pub known : List (String × S)
  pub threshold : Score

pub record StructuralMatchResult : Type 0 where
  pub page_id : String
  pub similarity : Score
  pub drifted : Bool
  pub is_new : Bool

pub record ClosestMatchResult : Type 0 where
  pub page_id : String
  pub similarity : Score
  pub found : Bool

pub less : Score → Score → Bool
less s t = ltb (s.num * t.den) (t.num * s.den)

abbrev whole : Score
whole = record { num = 1; den = 1 }

module _ {S : Type 0} where
  -- A threshold that is not positive is replaced by 0.7.
  pub new_matcher : Score → Matcher S
  new_matcher threshold = record {
    known = [];
    threshold = if threshold.num == 0 then record { num = 7; den = 10 } else threshold;
  }

  module _ (sim : S → S → Score) where
    pub compared : String → S → Score → Option S → StructuralMatchResult
    compared page current threshold none = record {
      page_id = page;
      similarity = whole;
      drifted = false;
      is_new = true;
    }
    compared page current threshold (some prev) = record {
      page_id = page;
      similarity = sim prev current;
      drifted = less (sim prev current) threshold;
      is_new = false;
    }

    -- `CheckAndUpdate`
    pub check_and_update : String → S → Matcher S → Matcher S × StructuralMatchResult
    check_and_update page current m = (
      record m { known = insert page current m.known },
      compared page current m.threshold (lookup page m.known),
    )

    -- The loop of `FindClosestMatch`.
    pub closest_from : S → ClosestMatchResult → List (String × S) → ClosestMatchResult
    closest_from current best [] = best
    closest_from current best ((page, sig) ∷ rest) =
        let take =
          closest_from current
            (record { page_id = page; similarity = sim current sig; found = true }) rest in
        let skip = closest_from current best rest in
        if less best.similarity (sim current sig) then take else skip

    -- `FindClosestMatch`
    pub find_closest_match : S → Matcher S → ClosestMatchResult
    find_closest_match current m =
        let best =
          closest_from current
            (record { page_id = ""; similarity = record { num = 0; den = 1 }; found = false })
            m.known in
        if less best.similarity m.threshold then record best { found = false } else best
