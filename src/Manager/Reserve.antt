-- ===== src/Manager/Reserve.antt =====
-- The add gate: what a successful reservation establishes, and that removing the service again
-- restores the manager.
use kubeport.Prelude.{
  ◌≡◌, ◌≢◌, refl, ap, String, Bool, true, false, Option, none, some, List, [], ◌∷◌, ◌++◌, arith,
  str_eq, str_eq_refl, str_eq_iff, if◌then◌else◌, inl, inr, Bool-cases,
}
use kubeport.Prelude.Int.{ℤ, pos, eq_ℤ_iff}
use kubeport.Prelude.Result.{ok, Result-cases}
use kubeport.Prelude.Table.{Table, lookup, insert, delete, has, lookup-insert}
use kubeport.Config.{ServiceConfig, is_multi_port}
use kubeport.Manager.{
  Manager, ManagerError, PortForward, Fired, service_added, register, unregister, remove_first,
  remove_single, remove_all, take_parent, do_remove, reserve_forward, do_add, conflict, port_holder,
  held_port, placeholder,
}
use kubeport.Manager.Order.{IsListed, occurrences}

module _ {V : Type 0} where
  delete_absent : (n : String) (t : Table V) → lookup n t ≡ none → delete n t ≡ t
  unfolding lookup delete
  delete_absent n [] h = refl
  delete_absent n ((j, w) ∷ t) h = ground (arith, delete_absent n t)

  delete-insert :
      (n : String) (v : V) (t : Table V) → lookup n t ≡ none → delete n (insert n v t) ≡ t
  unfolding lookup insert delete
  delete-insert n v [] h = ground (arith, str_eq_refl n)
  delete-insert n v ((j, w) ∷ t) h = ground (arith, delete-insert n v t)

remove_first-append :
    (n : String) (xs : List String) → occurrences n xs ≡ 0 → remove_first n (xs ++ n ∷ []) ≡ xs
unfolding occurrences remove_first
remove_first-append n [] h = ground (arith, str_eq_refl n)
remove_first-append n (x ∷ xs) h = ground (arith, remove_first-append n xs)

-- nobody who has the port is left out of the search
port_holder-free :
    (port : ℤ) (t : Table PortForward) (n : String) (pf : PortForward)
    → port ≢ pos 0
    → port_holder port t ≡ none
    → lookup n t ≡ some pf
    → (pf.svc.local_port ≢ port) × (pf.svc.local_port ≡ pos 0 → pf.actual_port ≢ port)
unfolding port_holder held_port lookup
port_holder-free port [] n pf fixed h l = absurd (ground arith)
port_holder-free port ((j, w) ∷ t) n pf fixed h l = elim (Bool-cases (str_eq j n)) [
  | inr other ↦ port_holder-free port t n pf fixed (ground (arith, h)) (ground (arith, l, other))
  | inl same ↦
      let e : w ≡ pf = ground (arith, l, same) in
      (
        λ p. ground (
          arith,
          h,
          e,
          p,
          fixed,
          eq_ℤ_iff w.svc.local_port (pos 0),
          eq_ℤ_iff w.svc.local_port port,
        ),
        λ z p.
            ground
              (arith, h, e, z, p, eq_ℤ_iff w.svc.local_port (pos 0), eq_ℤ_iff w.actual_port port),
      )
]

-- the four facts behind a reservation
reserved :
    (m m' : Manager) (s : ServiceConfig)
    → reserve_forward m s ≡ ok m'
    → (has s.name m.forwards ≡ false)
      × (has s.name m.children ≡ false)
      × (conflict m s ≡ none)
      × (m' ≡ (
          if is_multi_port s
          then record m { children = insert s.name [] m.children }
          else register m s.name (placeholder m.cfg s)))
unfolding reserve_forward
reserved m m' s h = ground arith

-- After a single-port service with a fixed local port has been reserved, no other registered forward
-- is configured for that port, and none that leaves its port to the system has been assigned it.
pub reserved_port_exclusive :
    (m m' : Manager) (s : ServiceConfig) (n : String) (pf : PortForward)
    → reserve_forward m s ≡ ok m'
    → is_multi_port s ≡ false
    → s.local_port ≢ pos 0
    → lookup n m'.forwards ≡ some pf
    → n ≢ s.name
    → (pf.svc.local_port ≢ s.local_port)
      × (pf.svc.local_port ≡ pos 0 → pf.actual_port ≢ s.local_port)
unfolding conflict register
reserved_port_exclusive m m' s n pf h single fixed l other =
    let (a, b, c, e) = reserved m m' s h in
    let here : lookup n m.forwards ≡ some pf = ground (
      arith,
      ap (λ (x : Manager). lookup n x.forwards) e,
      single,
      lookup-insert s.name n (placeholder m.cfg s) m.forwards,
      str_eq_iff s.name n,
    ) in
    let free : port_holder s.local_port m.forwards ≡ none =
      ground (arith, single, eq_ℤ_iff s.local_port (pos 0)) in
    port_holder-free s.local_port m.forwards n pf fixed free here

has-none : {V : Type 0} (n : String) (t : Table V) → has n t ≡ false → lookup n t ≡ none
has-none n t h = ground arith

-- a removal that succeeded and left the tables of `m`
abbrev Restores : Manager → Manager × Option ManagerError → Type 0
Restores m (r, e) =
    (e ≡ none) × (r.forwards ≡ m.forwards) × (r.order ≡ m.order) × (r.children ≡ m.children)

single_restored :
    (m : Manager) (name : String) (pf : PortForward) (log : List Fired)
    → has name m.forwards ≡ false
    → has name m.children ≡ false
    → IsListed m
    → Restores m (do_remove (record (register m name pf) { fired = log }) name)
unfolding do_remove remove_single unregister register
single_restored m name pf log a b v =
    let absent = has-none name m.forwards a in
    ground (
      arith,
      has-none name m.children b,
      lookup-insert name name pf m.forwards,
      str_eq_refl name,
      delete-insert name pf m.forwards absent,
      remove_first-append name m.order,
      v.once name,
    )

multi_restored :
    (m : Manager) (name : String) (log : List Fired)
    → has name m.forwards ≡ false
    → has name m.children ≡ false
    → Restores m (do_remove (record m { children = insert name [] m.children; fired = log }) name)
unfolding do_remove remove_all take_parent
multi_restored m name log a b = ground (
  arith,
  lookup-insert name name [] m.children,
  str_eq_refl name,
  delete-insert name [] m.children (has-none name m.children b),
)

reserved_restored :
    (multi : Bool) (m : Manager) (name : String) (pf : PortForward) (log : List Fired)
    → has name m.forwards ≡ false
    → has name m.children ≡ false
    → IsListed m
    → Restores m (
        do_remove
          (record (if multi
            then record m { children = insert name [] m.children }
            else register m name pf) { fired = log })
          name)
reserved_restored true m name pf log a b v = multi_restored m name log a b
reserved_restored false m name pf log a b v = single_restored m name pf log a b v

-- If the order names each registered forward exactly once, removing a service right after it was
-- added succeeds and restores the registered forwards, their order and the parents as they were, for
-- a single-port and for a multi-port service.
pub do_remove-do_add :
    (m m' : Manager) (s : ServiceConfig)
    → IsListed m
    → do_add m s ≡ (m', none)
    → ((do_remove m' s.name).1 ≡ none)
      × ((do_remove m' s.name).0.forwards ≡ m.forwards)
      × ((do_remove m' s.name).0.order ≡ m.order)
      × ((do_remove m' s.name).0.children ≡ m.children)
unfolding do_add
do_remove-do_add m m' s v h = elim (Result-cases (reserve_forward m s)) [
  | inl (e, q) ↦ ground (arith, q)
  | inr (m₁, q) ↦
      let (a, b, c, e) = reserved m m₁ s q in
      let added : m' ≡ record m₁ { fired = m₁.fired ++ service_added s.name ∷ [] } =
        ground (arith, q) in
      rw (added, e) (reserved_restored (is_multi_port s) m s.name (placeholder m.cfg s) _ a b v)
]
