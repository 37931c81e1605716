-- ===== src/Manager/Commands/Runs.antt =====
-- Every run of a command is a sequence of the manager's steps.
use kubeport.Prelude.{
  String, Bool, ◌||◌, Option, none, some, List, [], ◌∷◌, Bool-cases, inl, inr, any, str_eq, ◌&&◌,
}
use kubeport.Prelude.Table.{Table, has}
use kubeport.Prelude.GoLib.{GoLib}
use kubeport.Prelude.Result.{Result-cases}
use kubeport.Config.{ServiceConfig, Config, is_multi_port}
use kubeport.Config.Validate.{validate_service}
use kubeport.Manager.{Manager, ExternalForward, do_remove}
use kubeport.Manager.Commands.{
  start_one, start_each, start_services, set_external_forwards, remove_each,
  refresh_external_forwards, remove_stale, add_service, apply, readd_one, readd_each, add_new,
  reload, release_by_source, failed_with,
}
use kubeport.Manager.Steps.{Reach, add, remove, configured, externals, next}

module _ (lib : GoLib) (c : Config) where
  start_each-Reach :
      (m : Manager) (ss : List ServiceConfig) → Reach lib c m → Reach lib c (start_each m ss)
  unfolding start_each
  start_each-Reach m [] r = r
  start_each-Reach m (s ∷ rest) r = start_each-Reach (start_one m s) rest (next r (configured s))

  remove_each-Reach :
      (m : Manager) (names : List String) → Reach lib c m → Reach lib c (remove_each m names)
  unfolding remove_each
  remove_each-Reach m [] r = r
  remove_each-Reach m (n ∷ rest) r = remove_each-Reach (do_remove m n).0 rest (next r (remove n))

  remove_stale-Reach :
      (stale : String → Bool) (m : Manager) (names : List String)
      → Reach lib c m
      → Reach lib c (remove_stale stale m names).0
  unfolding remove_stale
  remove_stale-Reach stale m [] r = r
  remove_stale-Reach stale m (n ∷ rest) r = elim (Bool-cases (stale n)) [
    | inl h ↦
        rw (h, remove_stale) (remove_stale-Reach stale (do_remove m n).0 rest (next r (remove n)))
    | inr h ↦ rw (h, remove_stale) (remove_stale-Reach stale m rest r)
  ]

  add_service-Reach :
      (m : Manager) (s : ServiceConfig) → Reach lib c m → Reach lib c (add_service lib m s).0
  unfolding add_service
  add_service-Reach m s r = elim (Result-cases (validate_service lib s)) [
    | inl (e, h) ↦ rw (h, add_service) r
    | inr (u, h) ↦ rw (h, add_service) (next r (add s))
  ]

  apply-Reach :
      (m : Manager) (ss : List ServiceConfig) → Reach lib c m → Reach lib c (apply lib m ss).0
  unfolding apply
  apply-Reach m [] r = r
  apply-Reach m (s ∷ rest) r =
      let later = apply-Reach (add_service lib m s).0 rest (add_service-Reach m s r) in
      elim (Bool-cases (failed_with (add_service lib m s).1)) [
        | inl h ↦ rw (h, apply) later
        | inr h ↦ rw (h, apply) later
      ]

  refresh-Reach :
      (m : Manager) (found : Option (List ExternalForward))
      → Reach lib c m
      → Reach lib c (refresh_external_forwards m found)
  unfolding refresh_external_forwards set_external_forwards
  refresh-Reach m none r = r
  refresh-Reach m (some found) r = remove_each-Reach _ _ (next r (externals _))

  readd_one-Reach :
      (parents : List String) (m : Manager) (s : ServiceConfig)
      → Reach lib c m
      → Reach lib c (readd_one lib parents m s)
  unfolding readd_one
  readd_one-Reach parents m s r =
      elim (Bool-cases (is_multi_port s && any (str_eq s.name) parents)) [
        | inl h ↦ elim (Bool-cases (failed_with (do_remove m s.name).1)) [
          | inl e ↦ rw (h, e, readd_one) (next r (remove s.name))
          | inr e ↦
              rw (h, e, readd_one)
                (add_service-Reach (do_remove m s.name).0 s (next r (remove s.name)))
        ]
        | inr h ↦ rw (h, readd_one) r
      ]

  readd_each-Reach :
      (parents : List String) (m : Manager) (desired : Table ServiceConfig)
      → Reach lib c m
      → Reach lib c (readd_each lib parents m desired)
  unfolding readd_each
  readd_each-Reach parents m [] r = r
  readd_each-Reach parents m ((n, s) ∷ rest) r =
      readd_each-Reach parents (readd_one lib parents m s) rest (readd_one-Reach parents m s r)

  add_new-Reach :
      (present : String → Bool) (m : Manager) (desired : Table ServiceConfig)
      → Reach lib c m
      → Reach lib c (add_new lib present m desired).0
  unfolding add_new
  add_new-Reach present m [] r = r
  add_new-Reach present m ((n, s) ∷ rest) r =
      elim (Bool-cases (present n || has n m.external_forwards)) [
        | inl h ↦ rw (h, add_new) (add_new-Reach present m rest r)
        | inr h ↦
            rw (h, add_new)
              (add_new-Reach present (add_service lib m s).0 rest (add_service-Reach m s r))
      ]

  reload-Reach :
      (m : Manager) (cfg : Config) (found : Option (List ExternalForward))
      → Reach lib c m
      → Reach lib c (reload lib m cfg found).0
  unfolding reload
  reload-Reach m cfg found r = add_new-Reach _ _ _ (
      next
        (readd_each-Reach _ _ _
          (remove_stale-Reach _ _ _ (remove_stale-Reach _ _ _ (refresh-Reach m found r))))
        (externals _))

  -- Starting the configured services, and on a running manager Apply, SetExternalForwards,
  -- ReleaseBySource and Reload, lead from a reachable state to a reachable state, so what holds in
  -- every reachable state holds after each of them.
  commands-Reach :
      (m : Manager)
      → Reach lib c m
      → Reach lib c (start_services m)
        × ((ss : List ServiceConfig) → Reach lib c (apply lib m ss).0)
        × ((found : List ExternalForward) → Reach lib c (set_external_forwards m found).0)
        × ((source : String) → Reach lib c (release_by_source m source).0)
        × ((cfg : Config) (found : Option (List ExternalForward))
            → Reach lib c (reload lib m cfg found).0)
  unfolding start_services set_external_forwards release_by_source
  commands-Reach m r = (
    start_each-Reach m _ r,
    λ ss. apply-Reach m ss r,
    λ found. next r (externals _),
    λ source. remove_stale-Reach _ m _ r,
    λ cfg found. reload-Reach m cfg found r,
  )
