-- ===== src/Manager/Mappings.antt =====
-- Manager.Mappings of internal/proxy/manager.go: the names under which a running forward is reached
-- inside the cluster, with its local address. `none` is the nil dereference that a name in the order
-- with no forward would cause.
use Prim.Native.String.{◌++◌ as cat}
use kubeport.Prelude.{
  String, Bool, true, false, ◌||◌, not, Option, none, some, List, [], ◌∷◌, ◌++◌, map, if◌then◌else◌,
}
use kubeport.Prelude.Int.{ℤ, pos, eq_ℤ, leb_ℤ}
use kubeport.Prelude.Table.{lookup}
use kubeport.Prelude.GoLib.{GoLib}
use kubeport.Config.{is_empty}
use kubeport.Manager.{Manager, PortForward, ForwardState, running, namespace_of}

pub record AddressMapping : Type 0 where
  pub internal_addr : String
  pub local_addr : String
  pub service_name : String

unfoldable pub is_running : ForwardState → Bool
is_running running = true
is_running _ = false

-- the port that clients use: the assigned one, or the configured one
unfoldable pub client_port : PortForward → ℤ
client_port pf = if eq_ℤ pf.actual_port (pos 0) then pf.svc.local_port else pf.actual_port

-- the DNS names of a service, or of a pod
unfoldable pub dns_names : PortForward → String → String → List String
dns_names pf ns domain =
    if not (is_empty pf.svc.service)
    then pf.svc.service
      ∷ cat pf.svc.service (cat "." ns)
      ∷ cat pf.svc.service (cat "." (cat ns ".svc"))
      ∷ cat pf.svc.service (cat "." (cat ns (cat ".svc." domain)))
      ∷ []
    else if not (is_empty pf.svc.pod)
    then pf.svc.pod ∷ cat pf.svc.pod (cat "." ns) ∷ []
    else []

module _ (lib : GoLib) where
  open lib use {itoa}

  unfoldable pub forward_mappings : Manager → String → String → PortForward → List AddressMapping
  forward_mappings m domain name pf =
      if not (is_running pf.state) || leb_ℤ (client_port pf) (pos 0)
      then []
      else map
          (λ dns. record {
            internal_addr = cat dns (cat ":" (itoa pf.svc.remote_port));
            local_addr = cat "localhost:" (itoa (client_port pf));
            service_name = name;
          })
          (dns_names pf (namespace_of m.cfg pf.svc) domain)

  -- the loop over the order
  unfoldable pub mappings_along : Manager → String → List String → Option (List AddressMapping)
  mappings_along m domain [] = some []
  mappings_along m domain (name ∷ rest) = elim (lookup name m.forwards) [
    | none ↦ none
    | some pf ↦ elim (mappings_along m domain rest) [
      | none ↦ none
      | some more ↦ some (forward_mappings m domain name pf ++ more)
    ]
  ]

  -- Mappings
  unfoldable pub mappings : Manager → String → Option (List AddressMapping)
  mappings m domain = mappings_along m (if is_empty domain then "cluster.local" else domain) m.order
