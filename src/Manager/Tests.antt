-- ===== src/Manager/Tests.antt =====
-- The theorems about the manager at concrete states.
use kubeport.Prelude.{◌≡◌, refl, ◌≢◌, ◌+◌, length, true, false, none, some, List, [], ◌∷◌, arith}
use kubeport.Prelude.Int.{pos}
use kubeport.Prelude.Result.{ok}
use kubeport.Prelude.Table.{lookup, insert}
use kubeport.Config.{is_multi_port}
use kubeport.Manager.{
  Manager, placeholder, reserve_forward, do_add, do_remove, register, conflict, port_holder,
}
use kubeport.Manager.Expand.{
  ResolvedPort, register_children, register_each, register_one, child_service, finish_resolution,
}
use kubeport.Manager.Mappings.{mappings}
use kubeport.Manager.Order.{IsListed}
use kubeport.Manager.Status.{ForwardStatus, status, no_gauges}
use kubeport.Manager.Status.Names.{views_total}
use kubeport.Manager.Steps.{new_manager, Reach, add, resolved, start, next, Reach-IsListed}
use kubeport.Manager.Reserve.{reserved_port_exclusive, do_remove-do_add}
use kubeport.Manager.Remove.{lookup-do_remove_parent}
use kubeport.Samples.{go_lib, web, db, platform, two_services}

abbrev http : ResolvedPort
http = record { name = "http"; remote_port = pos 80; local_port = pos 10_080 }

abbrev metrics : ResolvedPort
metrics = record { name = "metrics"; remote_port = pos 9090; local_port = pos 19_090 }

abbrev fresh_manager : Manager
fresh_manager = new_manager two_services

abbrev with_web : Manager
with_web = (do_add fresh_manager web).0

-- the parent is reserved, its ports are not resolved yet
abbrev reserved_platform : Manager
reserved_platform = (do_add with_web platform).0

abbrev after_resolution : Manager
after_resolution = finish_resolution go_lib reserved_platform platform (http ∷ metrics ∷ [])

web-reached : Reach go_lib two_services with_web
web-reached = next start (add web)

resolution-reached : Reach go_lib two_services after_resolution
resolution-reached =
    next (next web-reached (add platform)) (resolved platform (http ∷ metrics ∷ []))

Reach-IsListed_example : IsListed after_resolution
Reach-IsListed_example = Reach-IsListed go_lib two_services after_resolution resolution-reached

views_total_example :
    (mappings go_lib after_resolution "" ≢ none)
    × ((listed : List ForwardStatus) × (status go_lib (λ p. true) (λ n. no_gauges) after_resolution
          ≡ some listed)
        × (length listed
            ≡ length after_resolution.order + length after_resolution.external_forwards))
views_total_example =
    views_total go_lib (λ p. true) (λ n. no_gauges) two_services after_resolution ""
      resolution-reached

abbrev with_db : Manager
with_db = register with_web "db" (placeholder two_services db)

db-reserved : reserve_forward with_web db ≡ ok with_db
unfolding reserve_forward lookup do_add new_manager conflict is_multi_port port_holder register
    insert placeholder
db-reserved = refl

reserved_port_exclusive_example :
    (web.local_port ≢ db.local_port) × (web.local_port ≡ pos 0 → pos 0 ≢ db.local_port)
unfolding is_multi_port lookup register insert do_add reserve_forward new_manager conflict
    port_holder placeholder
reserved_port_exclusive_example =
    reserved_port_exclusive with_web with_db db "web" (placeholder two_services web) db-reserved
      single fixed registered other
  where
    single : is_multi_port db ≡ false
    single = refl

    fixed : db.local_port ≢ pos 0
    fixed = λ p. ground arith

    registered : lookup "web" with_db.forwards ≡ some (placeholder two_services web)
    registered = refl

    other : web.name ≢ db.name
    other = λ p. cc

platform-added : do_add with_web platform ≡ (reserved_platform, none)
unfolding do_add reserve_forward lookup new_manager conflict is_multi_port port_holder register
    insert
platform-added = refl

web-IsListed : IsListed with_web
web-IsListed = Reach-IsListed go_lib two_services with_web web-reached

do_remove-do_add_example :
    ((do_remove reserved_platform "platform").1 ≡ none)
    × ((do_remove reserved_platform "platform").0.forwards ≡ with_web.forwards)
    × ((do_remove reserved_platform "platform").0.order ≡ with_web.order)
    × ((do_remove reserved_platform "platform").0.children ≡ with_web.children)
do_remove-do_add_example =
    do_remove-do_add with_web reserved_platform platform web-IsListed platform-added

platform-children :
    lookup "platform" after_resolution.children ≡ some ("platform/http" ∷ "platform/metrics" ∷ [])
unfolding finish_resolution lookup register_children do_add reserve_forward new_manager conflict
    is_multi_port port_holder register insert register_each register_one child_service
platform-children = refl

lookup-do_remove_parent_example :
    (lookup "web" (do_remove after_resolution "platform").0.forwards
      ≡ lookup "web" after_resolution.forwards)
    × (lookup "web" (do_remove after_resolution "platform").0.children
        ≡ lookup "web" after_resolution.children)
lookup-do_remove_parent_example =
    lookup-do_remove_parent after_resolution "platform" ("platform/http" ∷ "platform/metrics" ∷ [])
      "web" platform-children
