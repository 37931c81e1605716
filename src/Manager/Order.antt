-- ===== src/Manager/Order.antt =====
-- The order list of the manager names each registered forward exactly once, so that Status and
-- Mappings, which look every name of it up, never meet a missing forward.
use Prim.Native.Nat.{pred}
use kubeport.Prelude.{
  ℕ, ◌+◌, ◌≡◌, String, Bool, false, some, List, [], ◌∷◌, ◌++◌, arith, str_eq, str_eq_iff,
  if◌then◌else◌, Bool-cases, Option-cases, inl, inr,
}
use kubeport.Prelude.Table.{lookup, has, lookup-insert, lookup-delete}
use kubeport.Config.{ServiceConfig}
use kubeport.Prelude.Result.{ok, Result-cases}
use kubeport.Manager.Expand.{register_one, register_each, register_children, register_failed}
use kubeport.Manager.{
  failed, Manager, PortForward, ManagerError, register, unregister, remove_first, remove_single,
  remove_all, take_parent, do_remove, reserve_forward, do_add, placeholder,
}

-- how often a name stands in a list
unfoldable pub occurrences : String → List String → ℕ
occurrences n [] = 0
occurrences n (x ∷ xs) = (if str_eq x n then 1 else 0) + occurrences n xs

occurrences-append :
    (n : String) (xs ys : List String)
    → occurrences n (xs ++ ys) ≡ occurrences n xs + occurrences n ys
unfolding occurrences
occurrences-append n [] ys = omega arith
occurrences-append n (x ∷ xs) ys = omega (arith, occurrences-append n xs ys)

occurrences-remove_first :
    (n name : String) (xs : List String)
    → occurrences n (remove_first name xs)
      ≡ (if str_eq name n then pred (occurrences n xs) else occurrences n xs)
unfolding occurrences remove_first
occurrences-remove_first n name [] = ground arith
occurrences-remove_first n name (x ∷ xs) = ground (
  arith,
  occurrences-remove_first n name xs,
  str_eq_iff x name,
  str_eq_iff x n,
  str_eq_iff name n,
)

abbrev pub tally : Bool → ℕ
tally b = if b then 1 else 0

-- Every registered name is in the order once, and no other name is in it.
pub record IsListed (m : Manager) : Type 0 where
  pub once : (n : String) → occurrences n m.order ≡ tally (has n m.forwards)

register-IsListed :
    (m : Manager) (name : String) (pf : PortForward)
    → has name m.forwards ≡ false
    → IsListed m
    → IsListed (register m name pf)
unfolding register occurrences
register-IsListed m name pf absent v = record {
  once = λ n. ground (
    arith,
    occurrences-append n m.order (name ∷ []),
    lookup-insert name n pf m.forwards,
    v.once n,
    absent,
    str_eq_iff name n,
  );
}

unregister-IsListed : (m : Manager) (name : String) → IsListed m → IsListed (unregister m name)
unfolding unregister
unregister-IsListed m name v = record {
  once = λ n. ground (
    arith,
    occurrences-remove_first n name m.order,
    lookup-delete name n m.forwards,
    v.once n,
    str_eq_iff name n,
  );
}

pub reserve_forward-IsListed :
    (m m' : Manager) (s : ServiceConfig) → reserve_forward m s ≡ ok m' → IsListed m → IsListed m'
unfolding reserve_forward
reserve_forward-IsListed m m' s h v =
    ground (arith, register-IsListed m s.name (placeholder m.cfg s), v.once)

pub do_add-IsListed : (m : Manager) (s : ServiceConfig) → IsListed m → IsListed (do_add m s).0
unfolding do_add
do_add-IsListed m s v = elim (Result-cases (reserve_forward m s)) [
  | inl (e, h) ↦ rw (h, do_add) v
  | inr (m', h) ↦ rw (h, do_add) (record { once = (reserve_forward-IsListed m m' s h v).once })
]

pub remove_single-IsListed :
    (m : Manager) (name : String) → IsListed m → IsListed (remove_single m name).0
unfolding remove_single
remove_single-IsListed m name v = elim (Option-cases (lookup name m.forwards)) [
  | inl h ↦ rw (h, remove_single) v
  | inr (pf, h) ↦ rw (h, remove_single) (record { once = (unregister-IsListed m name v).once })
]

remove_all-IsListed :
    (m : Manager) (names : List String) → IsListed m → IsListed (remove_all m names).0
unfolding remove_all
remove_all-IsListed m [] v = v
remove_all-IsListed m (name ∷ rest) v =
    remove_all-IsListed (remove_single m name).0 rest (remove_single-IsListed m name v)

take_parent-IsListed : (m : Manager) (name : String) → IsListed m → IsListed (take_parent m name)
unfolding take_parent
take_parent-IsListed m name v = elim (Bool-cases (has name m.forwards)) [
  | inl h ↦ rw h (unregister-IsListed (record m { children = _ }) name (record { once = v.once }))
  | inr h ↦ rw h (record { once = v.once })
]

pub do_remove-IsListed : (m : Manager) (name : String) → IsListed m → IsListed (do_remove m name).0
unfolding do_remove
do_remove-IsListed m name v = elim (Option-cases (lookup name m.children)) [
  | inl h ↦ rw (h, do_remove) (remove_single-IsListed m name v)
  | inr (cs, h) ↦
      rw (h, do_remove)
        (remove_all-IsListed (take_parent m name) cs (take_parent-IsListed m name v))
]

register_one-IsListed : (m : Manager) (c : ServiceConfig) → IsListed m → IsListed (register_one m c)
unfolding register_one
register_one-IsListed m c v = elim (Bool-cases (has c.name m.forwards)) [
  | inl h ↦ rw h v
  | inr h ↦ rw h (register-IsListed m c.name (placeholder m.cfg c) h v)
]

register_each-IsListed :
    (m : Manager) (cs : List ServiceConfig) → IsListed m → IsListed (register_each m cs)
unfolding register_each
register_each-IsListed m [] v = v
register_each-IsListed m (c ∷ rest) v =
    register_each-IsListed (register_one m c) rest (register_one-IsListed m c v)

pub register_children-IsListed :
    (m : Manager) (parent : String) (cs : List ServiceConfig)
    → IsListed m
    → IsListed (register_children m parent cs)
unfolding register_children
register_children-IsListed m parent cs v = elim (Bool-cases (has parent m.children)) [
  | inl h ↦ rw h (record { once = (register_each-IsListed m cs v).once })
  | inr h ↦ rw h v
]

pub register_failed-IsListed :
    (m : Manager) (s : ServiceConfig) (e : ManagerError)
    → IsListed m
    → IsListed (register_failed m s e)
unfolding register_failed
register_failed-IsListed m s e v = ground (
  arith,
  register-IsListed m s.name (record (placeholder m.cfg s) { state = failed; error = some e }),
  v.once,
)
