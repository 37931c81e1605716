-- ===== src/Ports.antt =====
-- resolveServicePorts, resolvePodPorts, buildPortMaps and computeLocalPort of
-- internal/proxy/manager.go. The answer of the Kubernetes API, a service's or a pod's list of ports,
-- is an argument.
pub mod Range
mod Tests
use kubeport.Prelude.{
  String, Bool, true, false, ◌&&◌, ◌||◌, not, Option, none, some, List, [], ◌∷◌, ◌++◌, any, str_eq,
  if◌then◌else◌,
}
use kubeport.Prelude.Int.{ℤ, pos, ltb_ℤ, eq_ℤ, ◌+ℤ◌, wrap64}
use kubeport.Prelude.Result.{Result, ok, err, ◌>>=◌}
use kubeport.Prelude.Table.{Table, empty, lookup}
use kubeport.Prelude.GoLib.{GoLib}
use kubeport.Config.{PortSelector, ServiceConfig, is_empty, nonempty, target}
use kubeport.Config.Keyed.{index}
use kubeport.Manager.{ManagerError, port_not_found, port_out_of_range, no_ports_resolved}
use kubeport.Manager.Expand.{ResolvedPort}

-- a port of a service or of a container: its name, or "", and its number
pub record KubePort : Type 0 where
  pub name : String
  pub port : ℤ

abbrev pub selector_key : PortSelector → Option String
selector_key sel = if is_empty sel.name then none else some sel.name

-- `excludeSet[name]` and `selectorOverrides` of buildPortMaps
unfoldable pub excluded : ServiceConfig → String → Bool
excluded s name = any (str_eq name) s.exclude_ports

unfoldable pub selector_overrides : ServiceConfig → Table PortSelector
selector_overrides s = index selector_key empty s.ports.selectors

-- the offset rule of computeLocalPort, with the sum of two Go ints
unfoldable pub offset_port : ℤ → ℤ → ℤ
offset_port remote_port offset =
    if ltb_ℤ (pos 0) offset then wrap64 (remote_port +ℤ offset) else pos 0

-- computeLocalPort
unfoldable pub compute_local_port : Table PortSelector → String → ℤ → ℤ → ℤ
compute_local_port overrides port_name remote_port offset = elim (lookup port_name overrides) [
  | none ↦ offset_port remote_port offset
  | some sel ↦
      if eq_ℤ sel.local_port (pos 0) then offset_port remote_port offset else sel.local_port
]

-- a selector names a port by its name or by its number
unfoldable pub selects : PortSelector → KubePort → Bool
selects sel p =
    (not (is_empty sel.name) && str_eq p.name sel.name)
    || (not (eq_ℤ sel.port (pos 0)) && eq_ℤ p.port sel.port)

-- the first port that a selector names
unfoldable pub find_port : PortSelector → List KubePort → Option KubePort
find_port sel [] = none
find_port sel (p ∷ rest) = if selects sel p then some p else find_port sel rest

-- the loop over the ports; `keep` are the tests that pass over a port
unfoldable pub resolve_each :
    (KubePort → Bool) → (KubePort → ℤ) → List KubePort → Result ManagerError (List ResolvedPort)
resolve_each keep local [] = ok []
resolve_each keep local (p ∷ rest) =
    let later = resolve_each keep local rest in
    if not (keep p)
    then later
    else if ltb_ℤ (local p) (pos 0) || ltb_ℤ (pos 65535) (local p)
    then err (port_out_of_range p.name)
    else do
      more ← later
      ok (record { name = p.name; remote_port = p.port; local_port = local p } ∷ more)

-- an empty result is an error
unfoldable pub some_resolved : String → List ResolvedPort → Result ManagerError (List ResolvedPort)
some_resolved target [] = err (no_ports_resolved target)
some_resolved target (r ∷ rs) = ok (r ∷ rs)

unfoldable pub local_port_of : ServiceConfig → KubePort → ℤ
local_port_of s p = compute_local_port (selector_overrides s) p.name p.port s.local_port_offset

module _ (lib : GoLib) where
  -- the loop over the selectors
  unfoldable pub select_ports :
      List PortSelector → List KubePort → Result ManagerError (List KubePort)
  select_ports [] spec = ok []
  select_ports (sel ∷ rest) spec =
      let later = select_ports rest spec in
      elim (find_port sel spec) [
        | none ↦ err (port_not_found (if is_empty sel.name then lib.itoa sel.port else sel.name))
        | some p ↦ do more ← later; ok (p ∷ more)
      ]

  -- the service's ports that the configuration asks for
  unfoldable pub selected_ports :
      ServiceConfig → List KubePort → Result ManagerError (List KubePort)
  selected_ports s spec = if s.ports.all then ok spec else select_ports s.ports.selectors spec

  -- resolveServicePorts for a service, from the ports of its spec
  unfoldable pub resolve_service_ports :
      ServiceConfig → List KubePort → Result ManagerError (List ResolvedPort)
  resolve_service_ports s spec = do
    ports ← selected_ports s spec
    resolved ← resolve_each (λ p. not (excluded s p.name)) (local_port_of s) ports
    some_resolved (target s) resolved

-- resolvePodPorts, from the ports of the pod's containers in order
unfoldable pub resolve_pod_ports :
    ServiceConfig → List KubePort → Result ManagerError (List ResolvedPort)
resolve_pod_ports s spec = do
  resolved ←
      resolve_each
        (λ p.
          not (excluded s p.name) && (s.ports.all || any (λ sel. selects sel p) s.ports.selectors))
        (local_port_of s) spec
  some_resolved (target s) resolved
