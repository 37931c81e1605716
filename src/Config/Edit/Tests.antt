-- ===== src/Config/Edit/Tests.antt =====
-- A service added to a configuration and removed again.
use kubeport.Prelude.{◌≡◌, refl, [], ◌∷◌, ◌++◌}
use kubeport.Prelude.Result.{ok}
use kubeport.Config.{Config}
use kubeport.Config.Edit.{add_service}
use kubeport.Samples.{platform, two_services}

abbrev three : Config
three = record two_services { services = two_services.services ++ platform ∷ [] }

platform-added : add_service two_services platform ≡ ok three
unfolding add_service
platform-added = refl
