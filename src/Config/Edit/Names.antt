-- ===== src/Config/Edit/Names.antt =====
-- Adding and removing services by name.
use kubeport.Prelude.{◌≡◌, String, false, some, List, [], ◌∷◌, ◌++◌, arith, str_eq_iff}
use kubeport.Prelude.Result.{ok}
use kubeport.Config.{ServiceConfig, Config}
use kubeport.Config.Edit.{has_service, add_service, without_service, remove_service}

without_service-append :
    (name : String) (services : List ServiceConfig) (s : ServiceConfig)
    → has_service name services ≡ false
    → s.name ≡ name
    → without_service name (services ++ s ∷ []) ≡ some services
unfolding without_service
without_service-append name [] s absent named = ground (arith, str_eq_iff s.name name)
without_service-append name (x ∷ rest) s absent named =
    ground (arith, without_service-append name rest s)

-- If AddService accepts a service, RemoveService by its name gives back the configuration that was
-- there before.
pub remove-add_service :
    (c c₁ : Config) (s : ServiceConfig) → add_service c s ≡ ok c₁ → remove_service c₁ s.name ≡ ok c
unfolding add_service remove_service
remove-add_service c c₁ s added = ground (arith, without_service-append s.name c.services s)
