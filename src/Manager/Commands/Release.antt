-- ===== src/Manager/Commands/Release.antt =====
-- ReleaseBySource seen from one name of the manager.
use kubeport.Prelude.{
  ◌≡◌, refl, ap, String, Bool, true, false, ◌&&◌, ◌||◌, none, some, List, [], ◌∷◌, any, str_eq,
  str_eq_iff, str_eq_refl, arith, Option-cases, Bool-cases, inl, inr, if◌then◌else◌,
}
use kubeport.Prelude.Table.{Table, empty, lookup, insert, has, keys}
use kubeport.Manager.{Manager, PortForward, do_remove}
use kubeport.Manager.Remove.{
  among, lookup-remove_single, children-remove_single, lookup-do_remove_parent,
}
use kubeport.Manager.Commands.{remove_stale, parent_of, top_of, contributed, release_by_source}

-- no parent has two lists, as in a Go map
abbrev pub Distinct : Table (List String) → Type 0
Distinct [] = Unit {0}
Distinct ((parent, names) ∷ rest) = (has parent rest ≡ false) × Distinct rest

-- `n` is the name or a child of it
abbrev pub under : Table (List String) → String → String → Bool
under children name n =
    str_eq n name || elim (lookup name children) [ none ↦ false | some names ↦ among n names ]

-- `n` is in the family of `name`: the parent that lists the name with all its children; a name that
-- no parent lists, with its own children
abbrev pub in_family : Table (List String) → Table (List String) → String → String → Bool
in_family children [] name n = under children name n
in_family children ((parent, names) ∷ rest) name n =
    if among name names then str_eq n parent || among n names else in_family children rest name n

-- some forward of the source has `n` in its family
abbrev pub has_relative : Table (List String) → String → String → Table PortForward → Bool
has_relative children source n [] = false
has_relative children source n ((name, pf) ∷ rest) =
    (str_eq pf.source_config source && in_family children children name n)
    || has_relative children source n rest

-- one removal
lookup-do_remove :
    (n : String) (m : Manager) (name : String)
    → lookup n (do_remove m name).0.forwards
      ≡ (if under m.children name n then none else lookup n m.forwards)
unfolding do_remove
lookup-do_remove n m name = elim (Option-cases (lookup name m.children)) [
  | inl single ↦ ground (arith, single, lookup-remove_single n m name)
  | inr (cs, e) ↦ ground (arith, e, lookup-do_remove_parent m name cs n e)
]

children-do_remove :
    (y : String) (m : Manager) (name : String)
    → lookup y (do_remove m name).0.children ≡ (if str_eq name y then none else lookup y m.children)
unfolding do_remove
children-do_remove y m name = elim (Option-cases (lookup name m.children)) [
  | inl single ↦ ground (arith, single, children-remove_single m name, str_eq_iff name y)
  | inr (cs, e) ↦ ground (arith, e, lookup-do_remove_parent m name cs y e)
]

-- what the later removals of a loop take, with the first one
under_later :
    (n : String) (m : Manager) (name : String) (rest : List String)
    → (under m.children name n || any (λ x. under (do_remove m name).0.children x n) rest)
      ≡ (under m.children name n || any (λ x. under m.children x n) rest)
under_later n m name [] = refl
under_later n m name (y ∷ rest) =
    ground (arith, under_later n m name rest, children-do_remove y m name, str_eq_iff name y)

lookup-remove_stale :
    (n : String) (m : Manager) (names : List String)
    → lookup n (remove_stale (λ x. true) m names).0.forwards
      ≡ (if any (λ x. under m.children x n) names then none else lookup n m.forwards)
unfolding remove_stale
lookup-remove_stale n m [] = refl
lookup-remove_stale n m (name ∷ rest) = ground (
  arith,
  lookup-remove_stale n (do_remove m name).0 rest,
  lookup-do_remove n m name,
  under_later n m name rest,
)

-- the removal of a forward's parent, or of a forward without one, takes its family
module _ (children : Table (List String)) (name n : String) where
  family_from :
      (rest : Table (List String))
      → Distinct rest
      → ((p : String) (cs : List String) → lookup p rest ≡ some cs → lookup p children ≡ some cs)
      → (elim (parent_of rest name) [
        | none ↦ under children name n
        | some parent ↦ under children parent n
      ])
        ≡ in_family children rest name n
  unfolding parent_of lookup
  family_from [] d whole = refl
  family_from ((parent, names) ∷ rest) d whole =
      let listed : lookup parent children ≡ some names =
        whole parent names (ground (arith, str_eq_refl parent)) in
      let later : (p : String) (cs : List String)
          → lookup p rest ≡ some cs
          → lookup p children ≡ some cs =
        λ p cs e. whole p cs (ground (arith, d.0, e, str_eq_iff parent p)) in
      elim (Bool-cases (among name names)) [
        | inl here ↦ ground (arith, here, listed)
        | inr elsewhere ↦ ground (arith, elsewhere, family_from rest d.1 later)
      ]

  under-top_of :
      Distinct children
      → under children (top_of children name) n ≡ in_family children children name n
  under-top_of d = elim (Option-cases (parent_of children name)) [
    | inl e ↦ ground (arith, e, family_from children d (λ p cs h. h))
    | inr (p, e) ↦ ground (arith, e, family_from children d (λ p cs h. h))
  ]

any-keys-insert :
    (p : String → Bool) (name : String) (t : Table Bool)
    → any p (keys (insert name true t)) ≡ (p name || any p (keys t))
unfolding insert
any-keys-insert p name [] = ground arith
any-keys-insert p name ((k, b) ∷ rest) = elim (Bool-cases (str_eq k name)) [
  | inl e ↦ let same : k ≡ name = (str_eq_iff k name).0 e in ground (arith, e, ap p same)
  | inr e ↦ ground (arith, e, any-keys-insert p name rest)
]

any-contributed :
    (children : Table (List String)) (source n : String) (t : Table Bool) (fs : Table PortForward)
    → Distinct children
    → any (λ x. under children x n) (keys (contributed children source t fs))
      ≡ (any (λ x. under children x n) (keys t) || has_relative children source n fs)
unfolding contributed
any-contributed children source n t [] d = ground arith
any-contributed children source n t ((name, pf) ∷ rest) d =
    elim (Bool-cases (str_eq pf.source_config source)) [
      | inl e ↦ ground (
        arith,
        e,
        any-contributed children source n (insert (top_of children name) true t) rest d,
        any-keys-insert (λ x. under children x n) (top_of children name) t,
        under-top_of children name n d,
      )
      | inr e ↦ ground (arith, e, any-contributed children source n t rest d)
    ]

-- ReleaseBySource unregisters exactly the forwards that are in the family of some forward of the
-- source, where the family of a child is its parent with all its children and the family of any
-- other name is the name with its own children, and leaves every other forward as it was.
pub lookup-release_by_source :
    (m : Manager) (source n : String)
    → Distinct m.children
    → lookup n (release_by_source m source).0.forwards
      ≡ (if has_relative m.children source n m.forwards then none else lookup n m.forwards)
unfolding release_by_source empty
lookup-release_by_source m source n d = ground (
  arith,
  lookup-remove_stale n m (keys (contributed m.children source empty m.forwards)),
  any-contributed m.children source n empty m.forwards d,
)
