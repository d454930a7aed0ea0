-- ===== src/Prelude/Text.antt =====
-- Go's `map[string]V` as an association list. A key stands in it once if every write is by `insert`.
use Prim.Native.String.{String, ◌++◌}
use mathlib.Core.Path.{◌≡◌, refl}
use mathlib.Core.Bool.{Bool}
use mathlib.Core.List.{List, [], ◌∷◌}
use mathlib.Core.Option.{Option, none, some}
use native.Mathlib.Omega.{arith}
use text.Mathlib.Text.{◌==◌}
use text.Mathlib.TextEquality.{eq_iff}
use uiauto_framework.Prelude.Tests.{if◌then◌else◌}

abbrev pub str_eq : String → String → Bool
str_eq s t = s == t

abbrev pub str_append : String → String → String
str_append s t = s ++ t

module _ {ℓ} {V : Type ℓ} where
  -- `m[k] = v`: a new key comes last.
  unfoldable pub insert : String → V → List (String × V) → List (String × V)
  insert key value [] = (key, value) ∷ []
  insert key value ((k, v) ∷ entries) =
      let rest = insert key value entries in
      if str_eq k key then (key, value) ∷ entries else (k, v) ∷ rest

  -- `v, ok := m[k]`
  unfoldable pub lookup : String → List (String × V) → Option V
  lookup key [] = none
  lookup key ((k, v) ∷ entries) =
      let rest = lookup key entries in if str_eq k key then some v else rest

  pub lookup-insert :
      (key other : String) (value : V) (entries : List (String × V))
      → lookup other (insert key value entries)
        ≡ (if str_eq key other then some value else lookup other entries)
  unfolding insert lookup
  lookup-insert key other value [] = refl
  lookup-insert key other value ((k, v) ∷ entries) =
      ground (
        arith,
        eq_iff k key,
        eq_iff k other,
        eq_iff key other,
        lookup-insert key other value entries,
      )
