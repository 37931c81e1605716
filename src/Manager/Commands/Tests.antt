-- ===== src/Manager/Commands/Tests.antt =====
-- Reload and Apply on a manager with one running service.
use kubeport.Prelude.{◌≡◌, refl, false, none, some, [], ◌∷◌}
use kubeport.Prelude.Table.{insert, lookup, has}
use kubeport.Config.{is_multi_port, Config}
use kubeport.Manager.{
  register, port_holder, conflict, reserve_forward, Manager, PortForward, placeholder, do_add,
}
use kubeport.Manager.Commands.{
  child_names, apply, reload, release_by_source, refresh_external_forwards,
}
use kubeport.Manager.Commands.Release.{lookup-release_by_source}
use kubeport.Manager.Commands.Stale.{NoChild}
use kubeport.Manager.Commands.Reload.{reload-drops, reload-keeps}
use kubeport.Manager.Commands.Batch.{Settled, apply-settles}
use kubeport.Manager.Steps.{new_manager}
use kubeport.Samples.{go_lib, web, db, platform, blank_config, two_services}

abbrev one_running : Manager
one_running = (do_add (new_manager two_services) web).0

abbrev only_db : Config
only_db = record blank_config { services = db ∷ [] }

web_is_NoChild : NoChild "web" (refresh_external_forwards one_running none).children
unfolding refresh_external_forwards child_names do_add reserve_forward lookup new_manager conflict
    is_multi_port port_holder register
web_is_NoChild = refl

reload-drops_example : lookup "web" (reload go_lib one_running only_db none).0.forwards ≡ none
reload-drops_example = reload-drops go_lib one_running only_db none "web" refl web_is_NoChild

web_is_single : has "web" (refresh_external_forwards one_running none).children ≡ false
unfolding refresh_external_forwards lookup do_add reserve_forward new_manager conflict is_multi_port
    port_holder register
web_is_single = refl

web_runs :
    lookup "web" (refresh_external_forwards one_running none).forwards
    ≡ some (placeholder two_services web)
unfolding refresh_external_forwards lookup do_add reserve_forward new_manager conflict is_multi_port
    port_holder register insert
web_runs = refl

reload-keeps_example :
    lookup "web" (reload go_lib one_running two_services none).0.forwards
    ≡ some (placeholder two_services web)
reload-keeps_example =
    reload-keeps go_lib one_running two_services none "web" (placeholder two_services web) refl
      web_is_NoChild web_is_single web_runs

apply-settles_example :
    Settled (apply go_lib one_running (web ∷ db ∷ platform ∷ [])) (web ∷ db ∷ platform ∷ [])
apply-settles_example = apply-settles go_lib one_running (web ∷ db ∷ platform ∷ [])

abbrev delegated : PortForward
delegated = record (placeholder two_services web) { source_config = "/other.yaml" }

-- two children of a parent, one of them from another file, and a service of this one
abbrev delegates : Manager
delegates = record (new_manager two_services) {
  forwards =
      ("platform/http", delegated)
      ∷ ("platform/metrics", placeholder two_services web)
      ∷ ("web", placeholder two_services web)
      ∷ [];
  order = "platform/http" ∷ "platform/metrics" ∷ "web" ∷ [];
  children = ("platform", "platform/http" ∷ "platform/metrics" ∷ []) ∷ [];
}

lookup-release_by_source_example :
    (lookup "platform/metrics" (release_by_source delegates "/other.yaml").0.forwards ≡ none)
    × (lookup "web" (release_by_source delegates "/other.yaml").0.forwards
        ≡ some (placeholder two_services web))
unfolding lookup placeholder
lookup-release_by_source_example = (
  lookup-release_by_source delegates "/other.yaml" "platform/metrics" (refl, tt),
  lookup-release_by_source delegates "/other.yaml" "web" (refl, tt),
)
