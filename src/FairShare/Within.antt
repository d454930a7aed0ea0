-- ===== src/FairShare/Within.antt =====
-- Lists of request numbers, for the queues of pkg/llm/fairshare.go.
use uiauto_framework.Prelude.{
  ℕ, ◌+◌, ◌≤◌, ◌<◌, ◌≡◌, refl, Bool, true, false, List, [], ◌∷◌, ◌++◌, ◌==◌, if◌then◌else◌, length,
  arith, All, Bool-cases, inl, inr,
}
use uiauto_framework.FairShare.{remove_pointer}

-- The first list is part of the second, in order.
pub data Within : List ℕ → List ℕ → Type 0 where
  nothing : {qs : List ℕ} → Within [] qs
  skip : {ps qs : List ℕ} (q : ℕ) → Within ps qs → Within ps (q ∷ qs)
  keep : {ps qs : List ℕ} (p : ℕ) → Within ps qs → Within (p ∷ ps) (p ∷ qs)

pub length-le_of_Within : {ps qs : List ℕ} → Within ps qs → length ps ≤ length qs
length-le_of_Within nothing = omega arith
length-le_of_Within (skip q w) = omega (arith, length-le_of_Within w)
length-le_of_Within (keep p w) = omega (arith, length-le_of_Within w)

pub Within-append : {ps qs : List ℕ} (rs : List ℕ) → Within ps qs → Within ps (qs ++ rs)
Within-append rs nothing = nothing
Within-append rs (skip q w) = skip q (Within-append rs w)
Within-append rs (keep p w) = keep p (Within-append rs w)

pub Within-refl : (qs : List ℕ) → Within qs qs
Within-refl [] = nothing
Within-refl (q ∷ qs) = keep q (Within-refl qs)

abbrev pub mem : ℕ → List ℕ → Bool
mem p [] = false
mem p (q ∷ qs) = if q == p then true else mem p qs

pub Within-remove_pointer :
    {ps qs : List ℕ} (p : ℕ) → mem p ps ≡ false → Within ps qs → Within ps (remove_pointer p qs)
unfolding remove_pointer
Within-remove_pointer p n nothing = nothing
Within-remove_pointer p n (skip q w) = elim (Bool-cases (q == p)) [
  | inl e ↦ rw e w
  | inr d ↦ rw d (skip q (Within-remove_pointer p n w))
]
Within-remove_pointer p n (keep q w) = elim (Bool-cases (q == p)) [
  | inl e ↦ absurd (ground (arith, e, n))
  | inr d ↦ rw d (keep q (Within-remove_pointer p (ground (arith, d, n)) w))
]

pub not-mem_of_old : (ps : List ℕ) (n : ℕ) → All (λ p. p < n) ps → mem n ps ≡ false
not-mem_of_old [] n h = refl
not-mem_of_old (p ∷ ps) n h = ground (arith, not-mem_of_old ps n h.1, h.0)

pub older : (ps : List ℕ) (n : ℕ) → All (λ p. p < n) ps → All (λ p. p < n + 1) ps
older [] n h = tt
older (p ∷ ps) n h = (omega (arith, h.0), older ps n h.1)
