-- ===== src/Manager/Remove.antt =====
-- Removal of a multi-port parent, and the race between a removal and a resolution that is still
-- under way.
use kubeport.Prelude.{
  ◌≡◌, refl, ◌∙◌, String, Bool, true, false, ◌||◌, none, some, List, [], ◌∷◌, arith, any, map,
  str_eq, str_eq_refl, str_eq_iff, if◌then◌else◌,
}
use kubeport.Prelude.Table.{lookup, insert, lookup-insert, lookup-delete}
use kubeport.Config.{ServiceConfig}
use kubeport.Manager.{
  Manager, register, unregister, remove_single, remove_all, take_parent, do_remove, placeholder,
}
use kubeport.Manager.Expand.{register_one, register_each, register_children}

-- the name is one of the list
abbrev pub among : String → List String → Bool
among n names = any (str_eq n) names

module _ (n : String) where
  pub lookup-remove_single :
      (m : Manager) (name : String)
      → lookup n (remove_single m name).0.forwards
        ≡ (if str_eq n name then none else lookup n m.forwards)
  unfolding remove_single unregister
  lookup-remove_single m name =
      ground (
        arith,
        lookup-delete name n m.forwards,
        str_eq_iff n name,
        str_eq_iff name n,
        str_eq_refl n,
      )

  lookup-remove_all :
      (m : Manager) (names : List String)
      → lookup n (remove_all m names).0.forwards
        ≡ (if among n names then none else lookup n m.forwards)
  unfolding remove_all
  lookup-remove_all m [] = refl
  lookup-remove_all m (name ∷ rest) =
      ground (arith, lookup-remove_all (remove_single m name).0 rest, lookup-remove_single m name)

pub children-remove_single :
    (m : Manager) (name : String) → (remove_single m name).0.children ≡ m.children
unfolding remove_single unregister
children-remove_single m name = ground arith

pub children-remove_all :
    (m : Manager) (names : List String) → (remove_all m names).0.children ≡ m.children
unfolding remove_all
children-remove_all m [] = refl
children-remove_all m (name ∷ rest) =
    children-remove_all (remove_single m name).0 rest ∙ children-remove_single m name

lookup-take_parent :
    (m : Manager) (parent n : String)
    → (lookup n (take_parent m parent).forwards
        ≡ (if str_eq n parent then none else lookup n m.forwards))
      × (lookup n (take_parent m parent).children
          ≡ (if str_eq parent n then none else lookup n m.children))
unfolding take_parent unregister
lookup-take_parent m parent n = ground (
  arith,
  lookup-delete parent n m.forwards,
  lookup-delete parent n m.children,
  str_eq_iff n parent,
  str_eq_iff parent n,
  str_eq_refl n,
)

-- Removing a multi-port parent unregisters the parent's own entry and all its children, whatever error it reports, leaves every other forward as it was, and takes the parent off the table of parents.
pub lookup-do_remove_parent :
    (m : Manager) (parent : String) (cs : List String) (n : String)
    → lookup parent m.children ≡ some cs
    → (lookup n (do_remove m parent).0.forwards
        ≡ (if str_eq n parent || among n cs then none else lookup n m.forwards))
      × (lookup n (do_remove m parent).0.children
          ≡ (if str_eq parent n then none else lookup n m.children))
unfolding do_remove
lookup-do_remove_parent m parent cs n h = ground (
  arith,
  h,
  lookup-take_parent m parent n,
  lookup-remove_all n (take_parent m parent) cs,
  children-remove_all (take_parent m parent) cs,
)

lookup-register_one :
    (n : String) (m : Manager) (c : ServiceConfig)
    → str_eq n c.name ≡ false
    → lookup n (register_one m c).forwards ≡ lookup n m.forwards
unfolding register_one register
lookup-register_one n m c h = ground (
  arith,
  lookup-insert c.name n (placeholder m.cfg c) m.forwards,
  str_eq_iff n c.name,
  str_eq_iff c.name n,
)

lookup-register_each :
    (n : String) (m : Manager) (cs : List ServiceConfig)
    → among n (map (λ c. c.name) cs) ≡ false
    → lookup n (register_each m cs).forwards ≡ lookup n m.forwards
unfolding register_each
lookup-register_each n m [] h = refl
lookup-register_each n m (c ∷ rest) h =
    ground (arith, lookup-register_each n (register_one m c) rest, lookup-register_one n m c)

-- If a parent with a reservation is removed while its ports are being resolved, the registered forwards end up the same whether the removal or the resolution comes first, as long as neither the parent nor a child name was registered before.
pub removal_race :
    (m : Manager) (parent : String) (cs : List ServiceConfig) (n : String)
    → lookup parent m.children ≡ some []
    → (str_eq n parent || among n (map (λ c. c.name) cs) ≡ true → lookup n m.forwards ≡ none)
    → lookup n (do_remove (register_children m parent cs) parent).0.forwards
      ≡ lookup n (register_children (do_remove m parent).0 parent cs).forwards
unfolding register_children
removal_race m parent cs n reserved new =
    let names = map (λ (c : ServiceConfig). c.name) cs in
    let late = lookup-do_remove_parent m parent [] in
    ground (
      arith,
      reserved,
      new,
      late n reserved,
      late parent reserved,
      str_eq_refl parent,
      lookup-register_each n m cs,
      lookup-insert parent parent names (register_each m cs).children,
      lookup-do_remove_parent
          (record (register_each m cs) {
            children = insert parent names (register_each m cs).children;
          })
          parent names n,
    )
