-- ===== src/Prelude/Table.antt =====
-- Go's `map[string]V` as an association list with unique use of keys: a write replaces the entry of
-- its key in place, a delete drops every entry of its key. The order of the list stands for one
-- possible iteration order.
use Prim.Native.String.{String}
use mathlib.Core.Path.{◌≡◌, refl}
use mathlib.Core.Bool.{Bool}
use mathlib.Core.Option.{Option, none, some}
use mathlib.Core.List.{List, [], ◌∷◌}
use native.Mathlib.Omega.{arith}
use text.Mathlib.Text.{◌==◌}
use text.Mathlib.TextEquality.{eq_iff}
use kubeport.Prelude.Tests.{if◌then◌else◌, is_some}

abbrev pub Table {ℓ} : Type ℓ → Type ℓ
Table V = List (String × V)

module _ {ℓ} {V : Type ℓ} where
  unfoldable pub empty : Table V
  empty = []

  -- v, ok := m[k]
  unfoldable pub lookup : String → Table V → Option V
  lookup k [] = none
  lookup k ((j, v) ∷ m) = if j == k then some v else lookup k m

  -- m[k] = v
  unfoldable pub insert : String → V → Table V → Table V
  insert name new [] = (name, new) ∷ []
  insert name new ((entry, old) ∷ others) =
      if entry == name then (name, new) ∷ others else (entry, old) ∷ insert name new others

  -- delete(m, k)
  unfoldable pub delete : String → Table V → Table V
  delete k [] = []
  delete k ((j, w) ∷ m) = let rest = delete k m in if j == k then rest else (j, w) ∷ rest

  abbrev pub has : String → Table V → Bool
  has k m = is_some (lookup k m)

  abbrev pub keys : Table V → List String
  keys [] = []
  keys ((j, v) ∷ m) = j ∷ keys m

  pub lookup-delete :
      (gone asked : String) (table : Table V)
      → lookup asked (delete gone table) ≡ (if gone == asked then none else lookup asked table)
  unfolding delete lookup
  lookup-delete gone asked [] = ground arith
  lookup-delete gone asked ((name, old) ∷ others) = ground (
    arith,
    lookup-delete gone asked others,
    eq_iff name asked,
    eq_iff name gone,
    eq_iff gone asked,
  )

  pub lookup-insert :
      (written asked : String) (new : V) (table : Table V)
      → lookup asked (insert written new table)
        ≡ (if written == asked then some new else lookup asked table)
  unfolding insert lookup
  lookup-insert written asked new [] = refl
  lookup-insert written asked new ((name, old) ∷ others) = ground (
    arith,
    lookup-insert written asked new others,
    eq_iff name asked,
    eq_iff name written,
    eq_iff written asked,
  )

pub lookup-empty {ℓ} : {V : Type ℓ} (k : String) → lookup k (empty {V = V}) ≡ none
unfolding lookup empty
lookup-empty k = refl

pub ruleset table_laws = (lookup-empty, lookup-insert, lookup-delete)
