-- ===== src/Addresses/Registry.antt =====
-- What the registry's operations do to the entry of one address.
use kubeport.Prelude.{
  ◌≡◌, ◌∙◌, refl, sym, String, false, Option, none, some, [], ◌∷◌, arith, str_eq, str_eq_iff,
  if◌then◌else◌, Option-cases, inl, inr,
}
use kubeport.Prelude.Table.{lookup, has, lookup-insert, lookup-delete}
use kubeport.Addresses.{
  Addrs, copy_addrs, delete_matching, merge_addrs, remove_addrs, drop_absent, swap_addrs,
}

-- no key occurs twice, as in a Go map
unfoldable pub IsMap : Addrs → Type 0
IsMap [] = Unit {0}
IsMap ((k, v) ∷ rest) = (has k rest ≡ false) × IsMap rest

-- the entry of an address in a contribution, or what was there
abbrev pub or_else : Option String → Option String → Option String
or_else none old = old
or_else (some v) old = some v

-- what is left of an entry when a contribution is withdrawn: nothing if it is the contributed one
abbrev pub withdrawn : Option String → Option String → Option String
withdrawn none old = old
withdrawn (some v) none = none
withdrawn (some v) (some w) = if str_eq w v then none else some w

pub lookup-merge_addrs :
    (k : String) (r addrs : Addrs)
    → lookup k (merge_addrs r addrs) ≡ or_else (lookup k addrs) (lookup k r)
unfolding merge_addrs copy_addrs lookup
lookup-merge_addrs k r [] = refl
lookup-merge_addrs k r ((j, v) ∷ rest) =
    ground (arith, lookup-merge_addrs k r rest, lookup-insert j k v (copy_addrs r rest))

lookup-delete_matching :
    (k j v : String) (r : Addrs)
    → lookup k (delete_matching r j v)
      ≡ (if str_eq j k then withdrawn (some v) (lookup k r) else lookup k r)
unfolding delete_matching
lookup-delete_matching k j v r = elim (Option-cases (lookup j r)) [
  | inl e ↦ ground (arith, e, str_eq_iff j k)
  | inr (w, e) ↦ ground (arith, e, str_eq_iff j k, lookup-delete j k r)
]

pub lookup-remove_addrs :
    (k : String) (r addrs : Addrs)
    → IsMap addrs
    → lookup k (remove_addrs r addrs) ≡ withdrawn (lookup k addrs) (lookup k r)
unfolding remove_addrs lookup IsMap
lookup-remove_addrs k r [] u = refl
lookup-remove_addrs k r ((j, v) ∷ rest) u = ground (
  arith,
  lookup-remove_addrs k r rest u.1,
  lookup-delete_matching k j v (remove_addrs r rest),
  u.0,
  str_eq_iff j k,
)

lookup-drop_absent :
    (k : String) (new r old : Addrs)
    → IsMap old
    → lookup k (drop_absent new r old)
      ≡ (if has k new then lookup k r else withdrawn (lookup k old) (lookup k r))
unfolding drop_absent lookup IsMap
lookup-drop_absent k new r [] u = ground arith
lookup-drop_absent k new r ((j, v) ∷ rest) u = ground (
  arith,
  lookup-drop_absent k new r rest u.1,
  lookup-delete_matching k j v (drop_absent new r rest),
  u.0,
  str_eq_iff j k,
)

-- Swapping a client's old addresses for its new ones under one lock leaves the registry's entry of
-- every address as removing the old ones and then merging the new ones would: the new entry where
-- there is one, nothing where the old entry was still in place, and else what was there.
pub swap-merge-remove :
    (k : String) (r old new : Addrs)
    → IsMap old
    → (lookup k (swap_addrs r old new) ≡ lookup k (merge_addrs (remove_addrs r old) new))
      × (lookup k (swap_addrs r old new)
          ≡ or_else (lookup k new) (withdrawn (lookup k old) (lookup k r)))
unfolding swap_addrs merge_addrs
swap-merge-remove k r old new u = (swapped ∙ sym merged, swapped)
  where
    merged :
        lookup k (merge_addrs (remove_addrs r old) new)
        ≡ or_else (lookup k new) (withdrawn (lookup k old) (lookup k r))
    merged =
        ground (arith, lookup-merge_addrs k (remove_addrs r old) new, lookup-remove_addrs k r old u)

    swapped :
        lookup k (swap_addrs r old new)
        ≡ or_else (lookup k new) (withdrawn (lookup k old) (lookup k r))
    swapped =
        ground
          (arith, lookup-drop_absent k new (copy_addrs r new) old u, lookup-merge_addrs k r new)
