-- ===== src/Manager/Commands.antt =====
-- Start, AddService, RemoveService, Apply, SetExternalForwards, ReleaseBySource and Reload of
-- internal/proxy/manager.go, as runs of the serial command path. A loop over a map takes the order
-- of its table.
pub mod Runs
pub mod Stale
pub mod Renewal
pub mod Reload
pub mod Release
pub mod Batch
mod Tests
use kubeport.Prelude.{
  ℕ, suc, ◌+◌, String, Bool, true, false, ◌&&◌, ◌||◌, not, Option, none, some, List, [], ◌∷◌, ◌++◌,
  any, str_eq, if◌then◌else◌,
}
use kubeport.Prelude.Result.{ok, err}
use kubeport.Prelude.Table.{Table, empty, lookup, insert, delete, has, keys}
use kubeport.Prelude.GoLib.{GoLib}
use kubeport.Config.{ServiceConfig, Config, is_multi_port}
use kubeport.Config.Validate.{validate_service}
use kubeport.Manager.{
  Manager, ManagerError, PortForward, ExternalForward, Outcome, invalid_service, service_not_found,
  reserve_forward, do_add, do_remove,
}

-- one round of the loop of Start over the configured services
unfoldable pub start_one : Manager → ServiceConfig → Manager
start_one m s =
    if has s.name m.external_forwards
    then m
    else elim (reserve_forward m s) [ err e ↦ m | ok m' ↦ m' ]

unfoldable pub start_each : Manager → List ServiceConfig → Manager
start_each m [] = m
start_each m (s ∷ rest) = start_each (start_one m s) rest

-- Start up to its event loop
unfoldable pub start_services : Manager → Manager
start_services m = start_each m m.cfg.services

-- `newMap`, and the names in it that were not there before
unfoldable pub external_table : Table ExternalForward → List ExternalForward → Table ExternalForward
external_table t [] = t
external_table t (ef ∷ rest) = external_table (insert ef.service.name ef t) rest

unfoldable pub newly_external : Table ExternalForward → List String → List String
newly_external old [] = []
newly_external old (name ∷ rest) =
    let others = newly_external old rest in if has name old then others else name ∷ others

-- SetExternalForwards
unfoldable pub set_external_forwards : Manager → List ExternalForward → Manager × List String
set_external_forwards m externals =
    let new = external_table empty externals in
    (record m { external_forwards = new }, newly_external m.external_forwards (keys new))

-- a loop that removes services and goes on after an error
unfoldable pub remove_each : Manager → List String → Manager
remove_each m [] = m
remove_each m (name ∷ rest) = remove_each (do_remove m name).0 rest

-- refreshExternalForwards; the detector's result is an argument, `none` is no detector
unfoldable pub refresh_external_forwards : Manager → Option (List ExternalForward) → Manager
refresh_external_forwards m none = m
refresh_external_forwards m (some externals) =
    let (m', names) = set_external_forwards m externals in remove_each m' names

abbrev pub failed_with : Option ManagerError → Bool
failed_with none = false
failed_with (some e) = true

-- the removal loops of Reload, with their count of removals without an error; `stale` are the
-- names that a loop takes
unfoldable pub remove_stale : (String → Bool) → Manager → List String → Manager × ℕ
remove_stale stale m [] = (m, 0)
remove_stale stale m (name ∷ rest) =
    let (m', e) = if stale name then do_remove m name else (m, some (service_not_found name)) in
    let (m₂, n) = remove_stale stale m' rest in (m₂, if failed_with e then n else suc n)

-- every name that some parent lists
unfoldable pub child_names : Table (List String) → List String
child_names [] = []
child_names ((parent, names) ∷ rest) = names ++ child_names rest

-- `desired`: a later service of a name overwrites an earlier one
unfoldable pub desired_services : Table ServiceConfig → List ServiceConfig → Table ServiceConfig
desired_services t [] = t
desired_services t (s ∷ rest) = desired_services (insert s.name s t) rest

-- the external forwards that the configuration still names
unfoldable pub prune_external : Table ServiceConfig → Table ExternalForward → Table ExternalForward
prune_external desired [] = []
prune_external desired ((name, ef) ∷ rest) =
    let others = prune_external desired rest in
    if has name desired then (name, ef) ∷ others else others

module _ (lib : GoLib) where
  -- AddService on a running manager
  unfoldable pub add_service : Manager → ServiceConfig → Outcome
  add_service m s = elim (validate_service lib s) [
    | err e ↦ (m, some (invalid_service e))
    | ok _ ↦ do_add m s
  ]

  -- Apply: the manager, how many were added, how many skipped, and the names warned about
  unfoldable pub apply : Manager → List ServiceConfig → Manager × ℕ × ℕ × List String
  apply m [] = (m, 0, 0, [])
  apply m (s ∷ rest) =
      let (m', e) = add_service m s in
      let (m₂, added, skipped, warnings) = apply m' rest in
      if failed_with e
      then (m₂, added, suc skipped, s.name ∷ warnings)
      else (m₂, suc added, skipped, warnings)

  -- the loop that resolves the ports of running multi-port services again
  unfoldable pub readd_one : List String → Manager → ServiceConfig → Manager
  readd_one parents m s =
      if is_multi_port s && any (str_eq s.name) parents
      then (let (m', e) = do_remove m s.name in if failed_with e then m' else (add_service m' s).0)
      else m

  unfoldable pub readd_each : List String → Manager → Table ServiceConfig → Manager
  readd_each parents m [] = m
  readd_each parents m ((name, s) ∷ rest) = readd_each parents (readd_one parents m s) rest

  -- the loop that adds the services that were not there
  unfoldable pub add_new : (String → Bool) → Manager → Table ServiceConfig → Manager × ℕ
  add_new present m [] = (m, 0)
  add_new present m ((name, s) ∷ rest) =
      let (m', e) =
        if present name || has name m.external_forwards
        then (m, some (service_not_found name))
        else add_service m s in
      let (m₂, n) = add_new present m' rest in (m₂, if failed_with e then n else suc n)

  -- Reload: the manager, how many services were added and how many removed
  unfoldable pub reload : Manager → Config → Option (List ExternalForward) → Manager × ℕ × ℕ
  reload m cfg externals =
      let m₁ = refresh_external_forwards m externals in
      let running = keys m₁.forwards in
      let parents = keys m₁.children in
      let desired = desired_services empty cfg.services in
      let (m₂, r₂) = remove_stale (λ n. not (has n desired)) m₁ parents in
      let children = child_names m₂.children in
      let (m₃, r₃) =
        remove_stale (λ n. not (has n desired) && not (any (str_eq n) children)) m₂ running in
      let m₄ = readd_each parents m₃ desired in
      let m₅ = record m₄ { external_forwards = prune_external desired m₄.external_forwards } in
      let (m₆, added) =
        add_new (λ n. any (str_eq n) running || any (str_eq n) parents) m₅ desired in
      (m₆, added, r₂ + r₃)

-- `childToParent`, as the parent whose list has the name
unfoldable pub parent_of : Table (List String) → String → Option String
parent_of [] name = none
parent_of ((parent, names) ∷ rest) name =
    if any (str_eq name) names then some parent else parent_of rest name

abbrev top_of : Table (List String) → String → String
top_of children name = elim (parent_of children name) [ none ↦ name | some parent ↦ parent ]

-- `toRemove`: the forwards of a source, a child by its parent
unfoldable pub contributed :
    Table (List String) → String → Table Bool → Table PortForward → Table Bool
contributed children source t [] = t
contributed children source t ((name, pf) ∷ rest) =
    let added = insert (top_of children name) true t in
    contributed children source (if str_eq pf.source_config source then added else t) rest

-- ReleaseBySource, with the count of services removed without an error
unfoldable pub release_by_source : Manager → String → Manager × ℕ
release_by_source m source =
    remove_stale (λ n. true) m (keys (contributed m.children source empty m.forwards))
