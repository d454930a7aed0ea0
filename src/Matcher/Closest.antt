-- ===== src/Matcher/Closest.antt =====
-- The page that FindClosestMatch of pkg/domheal finds.
use mathlib.Core.List.{Memᴰ}
use mathlib.Core.List.Memᴰ.{head, tail}
use native.Mathlib.Nat.{mul-le-mul_right, le_of_mul-le-mul_right}
use uiauto_framework.Similarity.{Score}
use uiauto_framework.Prelude.{
  ◌*◌, ◌≤◌, ◌<◌, ◌≡◌, refl, ap, ◌⊎◌, inl, inr, Bool, Bool-cases, true, false, not, ◌||◌, List, [],
  ◌∷◌, String, if◌then◌else◌, All, arith,
}
use uiauto_framework.Matcher.{Matcher, ClosestMatchResult, less, closest_from, find_closest_match}

-- The order of fractions, on positive denominators.
abbrev pub AtMost : Score → Score → Type 0
AtMost s t = s.num * t.den ≤ t.num * s.den

AtMost-trans : (r s t : Score) → 0 < s.den → AtMost r s → AtMost s t → AtMost r t
AtMost-trans r s t pos h k =
    le_of_mul-le-mul_right {k = s.den}
      (grind (arith, mul-le-mul_right t.den h, mul-le-mul_right r.den k)) pos

less-AtMost : (s t : Score) → less s t ≡ true → AtMost s t
unfolding less
less-AtMost s t h = ground (arith, h)

not-less-AtMost : (s t : Score) → less s t ≡ false → AtMost t s
unfolding less
not-less-AtMost s t h = ground (arith, h)

AtMost-not-less : (s t : Score) → AtMost t s → less s t ≡ false
unfolding less
AtMost-not-less s t h = ground (arith, h)

-- What reaches the threshold is reached by what is larger.
reaches_up : (r s t : Score) → 0 < r.den → AtMost r s → less r t ≡ false → less s t ≡ false
reaches_up r s t pos h k = AtMost-not-less s t (AtMost-trans t r s pos (not-less-AtMost r t k) h)

module _ {S : Type 0} (sim : S → S → Score) (current : S) where
  -- Some known page reaches the threshold.
  abbrev pub any_reaches : Score → List (String × S) → Bool
  any_reaches t [] = false
  any_reaches t ((page, sig) ∷ known) = not (less (sim current sig) t) || any_reaches t known

  abbrev pub Proper : List (String × S) → Type 0
  Proper = All (λ (ps : String × S). 0 < (sim current ps.1).den)

  abbrev pub AllAtMost : List (String × S) → Score → Type 0
  AllAtMost known t = All (λ (ps : String × S). AtMost (sim current ps.1) t) known

  -- A result that reports a known page and its similarity.
  abbrev pub Reports : List (String × S) → ClosestMatchResult → Type 0
  Reports known r = (sig : S) × Memᴰ (r.page_id, sig) known × (r.similarity ≡ sim current sig)

  -- A result that reports no page.
  abbrev pub ReportsNone : ClosestMatchResult → Type 0
  ReportsNone r = (r.page_id ≡ "") × (r.similarity ≡ record { num = 0; den = 1 })

  -- The best of the pages so far, against one page more and the rest.
  record Best (best : ClosestMatchResult) (known : List (String × S)) (t : Score)
      (r : ClosestMatchResult) : Type 0 where
    more : AtMost best.similarity r.similarity
    all : AllAtMost known r.similarity
    proper : 0 < r.similarity.den
    reaches : not (less r.similarity t) ≡ (not (less best.similarity t) || any_reaches t known)
    origin : (r ≡ best) ⊎ Reports known r
    honest : r.found ≡ false → (best.found ≡ false) × (r.similarity ≡ best.similarity)

  AtMost-refl : (s : Score) → AtMost s s
  AtMost-refl s = omega arith

  taken-Best :
      (best r : ClosestMatchResult) (page : String) (sig : S) (known : List (String × S))
      (t : Score)
      → 0 < best.similarity.den
      → 0 < (sim current sig).den
      → AtMost best.similarity (sim current sig)
      → Best (record { page_id = page; similarity = sim current sig; found = true }) known t r
      → Best best ((page, sig) ∷ known) t r
  taken-Best best r page sig known t d p le b = record {
    more = AtMost-trans best.similarity (sim current sig) r.similarity p le b.more;
    all = (b.more, b.all);
    proper = b.proper;
    reaches = ground (arith, b.reaches, reaches_up best.similarity (sim current sig) t d le);
    origin = inr (elim b.origin [
      | inl same ↦ (
        sig,
        head (ap (λ (x : ClosestMatchResult). (x.page_id, sig)) same),
        ap (λ (x : ClosestMatchResult). x.similarity) same,
      )
      | inr (other, m, e) ↦ (other, tail m, e)
    ]);
    honest = λ h. absurd (ground (arith, (b.honest h).0));
  }

  skipped-Best :
      (best r : ClosestMatchResult) (page : String) (sig : S) (known : List (String × S))
      (t : Score)
      → 0 < best.similarity.den
      → 0 < (sim current sig).den
      → AtMost (sim current sig) best.similarity
      → Best best known t r
      → Best best ((page, sig) ∷ known) t r
  skipped-Best best r page sig known t d p le b = record {
    more = b.more;
    all = (AtMost-trans (sim current sig) best.similarity r.similarity d le b.more, b.all);
    proper = b.proper;
    reaches = ground (arith, b.reaches, reaches_up (sim current sig) best.similarity t p le);
    origin = elim b.origin [ inl same ↦ inl same | inr (other, m, e) ↦ inr (other, tail m, e) ];
    honest = b.honest;
  }

  closest-Best :
      (best : ClosestMatchResult) (known : List (String × S)) (t : Score)
      → 0 < best.similarity.den
      → Proper known
      → Best best known t (closest_from sim current best known)
  unfolding closest_from
  closest-Best best [] t d p = record {
    more = AtMost-refl best.similarity;
    all = tt;
    proper = d;
    reaches = ground arith;
    origin = inl refl;
    honest = λ h. (h, refl);
  }
  closest-Best best ((page, sig) ∷ known) t d p =
      let here : ClosestMatchResult = record {
        page_id = page;
        similarity = sim current sig;
        found = true;
      } in
      elim (Bool-cases (less best.similarity (sim current sig))) [
        | inl larger ↦
            rw (larger, if◌then◌else◌)
              (taken-Best best _ page sig known t d p.0
                (less-AtMost best.similarity (sim current sig) larger)
                (closest-Best here known t p.0 p.1))
        | inr smaller ↦
            rw (smaller, if◌then◌else◌)
              (skipped-Best best _ page sig known t d p.0
                (not-less-AtMost best.similarity (sim current sig) smaller)
                (closest-Best best known t d p.1))
      ]

  -- A known page or none, whatever is said of it having been found.
  abbrev pub ReportsAny : List (String × S) → ClosestMatchResult → Type 0
  ReportsAny known r = ReportsNone r ⊎ Reports known r

  trimmed-ReportsAny :
      (b : Bool) (known : List (String × S)) (r : ClosestMatchResult)
      → ReportsAny known r
      → ReportsAny known (if b then record r { found = false } else r)
  trimmed-ReportsAny true known r h = h
  trimmed-ReportsAny false known r h = h

  -- Where no similarity has the denominator 0 and the threshold is positive, FindClosestMatch gives a
  -- known page with its similarity, or no page with the similarity 0; no known page has a larger
  -- similarity, in whatever order they are visited; and it says that it found one exactly when the
  -- similarity of some known page reaches the threshold.
  pub find_closest_match_lem :
      (m : Matcher S)
      → Proper m.known
      → 0 < m.threshold.num
      → AllAtMost m.known (find_closest_match sim current m).similarity
        × ((find_closest_match sim current m).found ≡ any_reaches m.threshold m.known)
        × ReportsAny m.known (find_closest_match sim current m)
  unfolding find_closest_match less
  find_closest_match_lem m p pos =
      let nothing : ClosestMatchResult = record {
        page_id = "";
        similarity = record { num = 0; den = 1 };
        found = false;
      } in
      let b = closest-Best nothing m.known m.threshold (omega arith) p in
      (
        ground (arith, b.all),
        ground (arith, b.reaches, b.honest, pos),
        trimmed-ReportsAny (less (closest_from sim current nothing m.known).similarity m.threshold)
            m.known (closest_from sim current nothing m.known)
            (elim b.origin [
              | inl same ↦ inl (
                ap (λ (x : ClosestMatchResult). x.page_id) same,
                ap (λ (x : ClosestMatchResult). x.similarity) same,
              )
              | inr known ↦ inr known
            ]),
      )
