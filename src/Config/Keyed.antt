-- ===== src/Config/Keyed.antt =====
-- The list merge that mergeServices and mergeHooks of pkg/config/merge.go share: entries of the
-- base are replaced by the override's entry of the same key, override-only entries follow, and
-- entries without a key are always kept.
pub mod Laws
pub mod Assoc
use kubeport.Prelude.{
  String, Bool, true, false, Option, none, some, List, [], ◌∷◌, ◌++◌, map, any, str_eq,
  if◌then◌else◌,
}
use kubeport.Prelude.Table.{Table, empty, insert, lookup}

module _ {A : Type 0} (key : A → Option String) where
  abbrev pub has_key : String → A → Bool
  has_key n x = elim (key x) [ none ↦ false | some m ↦ str_eq m n ]

  -- `overrideByName`: a later entry overwrites an earlier one
  unfoldable pub index : Table A → List A → Table A
  index t [] = t
  index t (x ∷ xs) = elim (key x) [ none ↦ index t xs | some n ↦ index (insert n x t) xs ]

  -- the loop over the base
  unfoldable pub replace : Table A → A → A
  replace by_name x = elim (key x) [
    | none ↦ x
    | some n ↦ elim (lookup n by_name) [ some ov ↦ ov | none ↦ x ]
  ]

  -- `seen[name]` after the loop over the base
  abbrev pub seen : String → List A → Bool
  seen n base = any (has_key n) base

  -- the loop over the override
  unfoldable pub fresh : List A → List A → List A
  fresh base [] = []
  fresh base (x ∷ xs) =
      let rest = fresh base xs in
      elim (key x) [ none ↦ x ∷ rest | some n ↦ if seen n base then rest else x ∷ rest ]

  unfoldable pub merge : List A → List A → List A
  unfolding index replace fresh
  merge base over = map (replace (index empty over)) base ++ fresh base over
