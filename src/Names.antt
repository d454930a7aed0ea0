-- ===== src/Names.antt =====
-- Membership and distinctness in lists of names.
use mathlib.Core.Bool.{false≢true}
use text.Mathlib.TextEquality.{eq_iff}
use uiauto_framework.Prelude.{
  suc, ◌≤◌, ◌≡◌, refl, ap, sym, ◌∙◌, inl, inr, Bool, true, false, ◌||◌, List, [], ◌∷◌, ◌++◌, String,
  str_eq, arith, if◌then◌else◌, length, Bool-cases,
}

abbrev pub mem : String → List String → Bool
mem v [] = false
mem v (w ∷ ws) = if str_eq v w then true else mem v ws

abbrev pub Distinct : List String → Type 0
Distinct [] = Unit {0}
Distinct (w ∷ ws) = (mem w ws ≡ false) × Distinct ws

pub mem-append : (v : String) (xs ys : List String) → mem v (xs ++ ys) ≡ (mem v xs || mem v ys)
mem-append v [] ys = refl
mem-append v (x ∷ xs) ys = ground (arith, mem-append v xs ys)

pub Distinct-append :
    (xs : List String) (v : String) → Distinct xs → mem v xs ≡ false → Distinct (xs ++ v ∷ [])
Distinct-append [] v d h = (refl, tt)
Distinct-append (x ∷ xs) v d h =
    ground (arith, mem-append x xs (v ∷ []), Distinct-append xs v d.1, eq_iff v x, eq_iff x v)

-- The list without its first `v`.
unfoldable pub remove_first : String → List String → List String
remove_first v [] = []
remove_first v (w ∷ ws) = let rest = remove_first v ws in if str_eq v w then ws else w ∷ rest

length-remove_first :
    (v : String) (ws : List String) → mem v ws ≡ true → suc (length (remove_first v ws)) ≡ length ws
unfolding remove_first
length-remove_first v [] h = cc
length-remove_first v (w ∷ ws) h = ground (arith, length-remove_first v ws)

pub mem-remove_first :
    (v w : String) (ws : List String)
    → str_eq v w ≡ false
    → mem v ws ≡ true
    → mem v (remove_first w ws) ≡ true
unfolding remove_first
mem-remove_first v w [] n h = cc
mem-remove_first v w (x ∷ ws) n h =
    ground (arith, mem-remove_first v w ws n, eq_iff v x, eq_iff w x, eq_iff v w)

pub str_eq_of_mem :
    (x : String) (xs : List String) (v : String)
    → mem x xs ≡ false
    → mem v xs ≡ true
    → str_eq v x ≡ false
str_eq_of_mem x xs v a b = elim (Bool-cases (str_eq v x)) [
  | inl e ↦ absurd (false≢true (sym a ∙ ap (λ (w : String). mem w xs) (sym ((eq_iff v x).0 e)) ∙ b))
  | inr n ↦ n
]

pub mem_later :
    (x : String) (xs : List String) (v : String) → mem v xs ≡ true → mem v (x ∷ xs) ≡ true
mem_later x xs v b = ground arith

-- A list of distinct names is no longer than a list that has them all.
pub length-le_of_mem :
    (xs ys : List String)
    → Distinct xs
    → ((v : String) → mem v xs ≡ true → mem v ys ≡ true)
    → length xs ≤ length ys
length-le_of_mem [] ys d sub = omega arith
length-le_of_mem (x ∷ xs) ys d sub =
    let here : mem x ys ≡ true = sub x (ground (arith, eq_iff x x)) in
    omega (
      arith,
      length-remove_first x ys here,
      length-le_of_mem xs (remove_first x ys) d.1 (λ v h.
          mem-remove_first v x ys (str_eq_of_mem x xs v d.0 h) (sub v (mem_later x xs v h))),
    )
