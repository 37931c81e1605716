-- ===== src/Manager/Steps.antt =====
-- The manager as a state machine: commands in any order, resolutions that finish whenever they do,
-- and supervisors that write to their forwards in between.
use kubeport.Prelude.{
  ℕ, ◌≡◌, ◌≢◌, refl, String, Bool, true, false, none, List, [], ◌∷◌, arith, str_eq_refl, str_eq_iff,
  Option-cases, Bool-cases, inl, inr,
}
use kubeport.Prelude.Table.{Table, lookup, has, lookup-insert}
use kubeport.Prelude.GoLib.{GoLib}
use kubeport.Prelude.Result.{Result-cases}
use kubeport.Config.{ServiceConfig, Config}
use kubeport.Manager.{
  Manager, ManagerError, PortForward, ExternalForward, do_add, do_remove, reserve_forward,
}
use kubeport.Manager.Commands.{start_one}
use kubeport.Manager.Expand.{ResolvedPort, finish_resolution, register_failed}
use kubeport.Manager.Chaos.{update_forward}
use kubeport.Manager.Status.{stop, mark_stopped}
use kubeport.Manager.Mappings.{mappings, mappings_along}
use kubeport.Manager.Order.{
  IsListed, occurrences, tally, do_add-IsListed, do_remove-IsListed, register_children-IsListed,
  register_failed-IsListed, reserve_forward-IsListed,
}

-- NewManager
unfoldable pub new_manager : Config → Manager
new_manager c = record {
  cfg = c;
  forwards = [];
  order = [];
  children = [];
  external_forwards = [];
  fired = [];
}

has-mark_stopped : (name : String) (t : Table PortForward) → has name (mark_stopped t) ≡ has name t
unfolding mark_stopped lookup
has-mark_stopped name [] = refl
has-mark_stopped name ((n, pf) ∷ rest) = ground (arith, has-mark_stopped name rest)

stop-IsListed : (m : Manager) → IsListed m → IsListed (stop m)
unfolding stop
stop-IsListed m v = record { once = λ n. rw (has-mark_stopped n m.forwards) (v.once n) }

module _ (lib : GoLib) where
  pub data Step (m : Manager) : Manager → Type 0 where
    add : (s : ServiceConfig) → Step m (do_add m s).0
    remove : (name : String) → Step m (do_remove m name).0
    resolved :
        (s : ServiceConfig) (ports : List ResolvedPort) → Step m (finish_resolution lib m s ports)
    unresolved : (s : ServiceConfig) (e : ManagerError) → Step m (register_failed m s e)
    configured : (s : ServiceConfig) → Step m (start_one m s)
    externals : (t : Table ExternalForward) → Step m (record m { external_forwards = t })
    supervise : (name : String) (f : PortForward → PortForward) → Step m (update_forward m name f)
    stops : Step m (stop m)

  pub data Reach (c : Config) : Manager → Type 0 where
    start : Reach c (new_manager c)
    next : {m n : Manager} → Reach c m → Step m n → Reach c n

  update-IsListed :
      (m : Manager) (name : String) (f : PortForward → PortForward)
      → IsListed m
      → IsListed (update_forward m name f)
  unfolding update_forward
  update-IsListed m name f v = elim (Option-cases (lookup name m.forwards)) [
    | inl h ↦ rw (h, update_forward) v
    | inr (pf, h) ↦
        rw (h, update_forward)
          (record {
            once = λ n.
                ground
                  (arith, v.once n, lookup-insert name n (f pf) m.forwards, h, str_eq_iff name n);
          })
  ]

  start_one-IsListed : (m : Manager) (s : ServiceConfig) → IsListed m → IsListed (start_one m s)
  unfolding start_one
  start_one-IsListed m s v = elim (Bool-cases (has s.name m.external_forwards)) [
    | inl owned ↦ rw (owned, start_one) v
    | inr ours ↦ elim (Result-cases (reserve_forward m s)) [
      | inl (e, h) ↦ rw (ours, h, start_one) v
      | inr (m', h) ↦ rw (ours, h, start_one) (reserve_forward-IsListed m m' s h v)
    ]
  ]

  Step-IsListed : {m n : Manager} → Step m n → IsListed m → IsListed n
  unfolding finish_resolution
  Step-IsListed {m} (add s) v = do_add-IsListed m s v
  Step-IsListed {m} (remove name) v = do_remove-IsListed m name v
  Step-IsListed {m} (resolved s ports) v = register_children-IsListed m s.name _ v
  Step-IsListed {m} (unresolved s e) v = register_failed-IsListed m s e v
  Step-IsListed {m} (configured s) v = start_one-IsListed m s v
  Step-IsListed {m} (externals t) v = record { once = v.once }
  Step-IsListed {m} (supervise name f) v = update-IsListed m name f v
  Step-IsListed {m} stops v = stop-IsListed m v

  -- In every state that the manager can reach, the order list names each registered forward exactly once and nothing else.
  pub Reach-IsListed : (c : Config) (m : Manager) → Reach c m → IsListed m
  unfolding new_manager occurrences lookup
  Reach-IsListed c m start = record { once = λ n. refl }
  Reach-IsListed c m (next r st) = Step-IsListed st (Reach-IsListed c _ r)

  -- a list whose names are all registered
  mappings_along_total :
      (m : Manager) (domain : String) (names : List String)
      → ((n : String) → occurrences n names ≢ 0 → has n m.forwards ≡ true)
      → mappings_along lib m domain names ≢ none
  unfolding mappings_along occurrences
  mappings_along_total m domain [] h = λ p. cc
  mappings_along_total m domain (name ∷ rest) h = ground (
    arith,
    h name,
    str_eq_refl name,
    mappings_along_total m domain rest (λ n q. h n (λ z. q (omega (arith, z)))),
  )

  -- a name in the order of a reachable state is registered
  pub registered_once :
      (c : Config) (m : Manager)
      → Reach c m
      → (n : String) → occurrences n m.order ≢ 0
      → has n m.forwards ≡ true
  registered_once c m r n q =
      registered (has n m.forwards) (occurrences n m.order) ((Reach-IsListed c m r).once n) q
    where
      registered : (b : Bool) (k : ℕ) → k ≡ tally b → k ≢ 0 → b ≡ true
      registered true k e q = refl
      registered false k e q = absurd (q e)

  -- In every reachable state Mappings finds the forward of each name in the order.
  pub mappings_total :
      (c : Config) (m : Manager) (domain : String) → Reach c m → mappings lib m domain ≢ none
  unfolding mappings
  mappings_total c m domain r = mappings_along_total m _ m.order (registered_once c m r)
