-- ===== src/Manager/Commands/Stale.antt =====
-- What the removals and additions of a Reload do to one name that is no child of a parent.
use kubeport.Prelude.{
  ◌≡◌, refl, String, Bool, true, false, ◌&&◌, none, some, List, [], ◌∷◌, any-append, str_eq,
  str_eq_iff, arith, Bool-cases, Option-cases, inl, inr, if◌then◌else◌, ◌⊎◌,
}
use kubeport.Prelude.Table.{Table, lookup, insert, delete, has, lookup-insert}
use kubeport.Config.{ServiceConfig}
use kubeport.Manager.{
  Manager, do_remove, do_add, reserve_forward, take_parent, unregister, register, placeholder,
}
use kubeport.Manager.Remove.{
  among, lookup-remove_single, children-remove_single, children-remove_all, lookup-do_remove_parent,
}
use kubeport.Manager.Commands.{remove_stale, child_names}

-- no parent lists the name
abbrev pub NoChild : String → Table (List String) → Type 0
NoChild n t = among n (child_names t) ≡ false

NoChild-lookup :
    (n parent : String) (t : Table (List String)) (cs : List String)
    → NoChild n t
    → lookup parent t ≡ some cs
    → among n cs ≡ false
unfolding child_names lookup
NoChild-lookup n parent [] cs h e = cc
NoChild-lookup n parent ((p, names) ∷ rest) cs h e =
    ground (arith, any-append (str_eq n) names (child_names rest), NoChild-lookup n parent rest cs)

NoChild-delete :
    (n parent : String) (t : Table (List String)) → NoChild n t → NoChild n (delete parent t)
unfolding child_names delete
NoChild-delete n parent [] h = h
NoChild-delete n parent ((p, names) ∷ rest) h = ground (
  arith,
  any-append (str_eq n) names (child_names rest),
  any-append (str_eq n) names (child_names (delete parent rest)),
  NoChild-delete n parent rest,
)

NoChild-insert :
    (n parent : String) (t : Table (List String)) → NoChild n t → NoChild n (insert parent [] t)
unfolding child_names insert
NoChild-insert n parent [] h = refl
NoChild-insert n parent ((p, names) ∷ rest) h = ground (
  arith,
  any-append (str_eq n) names (child_names rest),
  any-append (str_eq n) names (child_names (insert parent [] rest)),
  NoChild-insert n parent rest,
)

-- a removal at a name that is no child
pub lookup-do_remove :
    (n : String) (m : Manager) (name : String)
    → NoChild n m.children
    → lookup n (do_remove m name).0.forwards ≡ (if str_eq n name then none else lookup n m.forwards)
unfolding do_remove
lookup-do_remove n m name h = elim (Option-cases (lookup name m.children)) [
  | inl single ↦ rw (single, do_remove) (lookup-remove_single n m name)
  | inr (cs, e) ↦
      ground (arith, lookup-do_remove_parent m name cs n e, NoChild-lookup n name m.children cs h e)
]

children-take_parent :
    (m : Manager) (name : String) → (take_parent m name).children ≡ delete name m.children
unfolding take_parent unregister
children-take_parent m name = ground arith

pub NoChild-do_remove :
    (n : String) (m : Manager) (name : String)
    → NoChild n m.children
    → NoChild n (do_remove m name).0.children
unfolding do_remove
NoChild-do_remove n m name h = elim (Option-cases (lookup name m.children)) [
  | inl single ↦ rw (single, do_remove, children-remove_single m name) h
  | inr (cs, e) ↦
      rw (e, do_remove, children-remove_all (take_parent m name) cs, children-take_parent m name)
        (NoChild-delete n name m.children h)
]

-- a removal loop at a name that is no child
pub remove_stale-effect :
    (n : String) (stale : String → Bool) (m : Manager) (names : List String)
    → NoChild n m.children
    → (lookup n (remove_stale stale m names).0.forwards
        ≡ (if among n names && stale n then none else lookup n m.forwards))
      × NoChild n (remove_stale stale m names).0.children
unfolding remove_stale
remove_stale-effect n stale m [] h = (refl, h)
remove_stale-effect n stale m (name ∷ rest) h = elim (Bool-cases (stale name)) [
  | inl e ↦ ground (
    arith,
    e,
    str_eq_iff n name,
    lookup-do_remove n m name h,
    remove_stale-effect n stale (do_remove m name).0 rest (NoChild-do_remove n m name h),
  )
  | inr e ↦ ground (arith, e, str_eq_iff n name, remove_stale-effect n stale m rest h)
]

-- an addition changes nothing at another name, nor at a name that is registered
pub do_add-steady :
    (n : String) (m : Manager) (s : ServiceConfig)
    → (has n m.forwards ≡ true) ⊎ (str_eq s.name n ≡ false)
    → lookup n (do_add m s).0.forwards ≡ lookup n m.forwards
unfolding do_add reserve_forward register
do_add-steady n m s h =
    ground (arith, h, lookup-insert s.name n (placeholder m.cfg s) m.forwards, str_eq_iff s.name n)

pub do_add-NoChild :
    (n : String) (m : Manager) (s : ServiceConfig)
    → NoChild n m.children
    → NoChild n (do_add m s).0.children
unfolding do_add reserve_forward register
do_add-NoChild n m s h = ground (arith, NoChild-insert n s.name m.children h)
