-- ===== src/Pods.antt =====
-- resolvePod of internal/proxy/manager.go: which pod of a service is forwarded to, and at which port.
-- The answers of the Kubernetes API are arguments.
pub mod Chosen
pub mod PortBounds
mod Tests
use kubeport.Prelude.{
  String, Bool, true, false, ◌&&◌, not, Option, none, some, List, [], ◌∷◌, str_eq, if◌then◌else◌,
}
use kubeport.Prelude.Int.{ℤ, pos, eq_ℤ}
use kubeport.Prelude.Result.{Result, ok, err}
use kubeport.Config.{ServiceConfig, is_empty, nonempty, is_pod, target}
use kubeport.Manager.{ManagerError, kubernetes}
use kubeport.Ports.{KubePort}

-- a pod: whether its phase is Running, whether it is marked for deletion, its conditions with
-- whether their status is True, and the ports of its containers in order
pub record Pod : Type 0 where
  pub name : String
  pub running : Bool
  pub terminating : Bool
  pub conditions : List (String × Bool)
  pub ports : List KubePort

-- what IntValue and String answer for the target port
pub record TargetPort : Type 0 where
  pub int_value : ℤ
  pub text : String

pub record ServicePort : Type 0 where
  pub port : ℤ
  pub target_port : TargetPort

pub record ServiceSpec : Type 0 where
  pub has_selector : Bool
  pub ports : List ServicePort

-- isPodReady
unfoldable pub is_ready : List (String × Bool) → Bool
is_ready [] = false
is_ready ((kind, status) ∷ rest) =
    let later = is_ready rest in if str_eq kind "Ready" then status else later

-- resolveNamedPort
unfoldable pub resolve_named_port : List KubePort → String → ℤ
resolve_named_port [] name = pos 0
resolve_named_port (p ∷ rest) name =
    let later = resolve_named_port rest name in if str_eq p.name name then p.port else later

-- the target of a service port: a number, or the name that the pod resolves
abbrev pub Wanted : Type 0
Wanted = ℤ × String

unfoldable pub wanted_by : ℤ → TargetPort → Wanted
wanted_by remote_port t =
    if not (eq_ℤ t.int_value (pos 0))
    then (t.int_value, "")
    else if not (is_empty t.text) && not (str_eq t.text "0")
    then (remote_port, t.text)
    else (remote_port, "")

-- the loop over the service's ports
unfoldable pub wanted_port : ℤ → List ServicePort → Wanted
wanted_port remote_port [] = (remote_port, "")
wanted_port remote_port (p ∷ rest) =
    let later = wanted_port remote_port rest in
    if eq_ℤ p.port remote_port then wanted_by remote_port p.target_port else later

-- the port of the chosen pod
unfoldable pub port_of : Wanted → Pod → ℤ
port_of (number_, name) pod =
    if is_empty name
    then number_
    else if eq_ℤ (resolve_named_port pod.ports name) (pos 0)
    then number_
    else resolve_named_port pod.ports name

-- the loop over the pods, with the fallback found so far
unfoldable pub choose_pod : Option Pod → List Pod → Option Pod
choose_pod fallback [] = fallback
choose_pod fallback (p ∷ rest) = elim (p.running && not p.terminating) [
  | false ↦ choose_pod fallback rest
  | true ↦ elim (is_ready p.conditions) [
    | true ↦ some p
    | false ↦ choose_pod (elim fallback [ none ↦ some p | some q ↦ some q ]) rest
  ]
]

-- what the API answers: the service (none without a client or on an error) and its pods (none on an
-- error)
pub record Answers : Type 0 where
  pub service : Option ServiceSpec
  pub pods : Option (List Pod)

unfoldable pub resolve_pod : ServiceConfig → Answers → Result ManagerError (String × ℤ)
resolve_pod s answers = if is_pod s then ok (target s, s.remote_port) else elim answers.service [
  | none ↦ err (kubernetes (target s))
  | some spec ↦ elim spec.has_selector [
    | false ↦ err (kubernetes (target s))
    | true ↦ elim answers.pods [
      | none ↦ err (kubernetes (target s))
      | some pods ↦ elim (choose_pod none pods) [
        | none ↦ err (kubernetes (target s))
        | some p ↦ ok (p.name, port_of (wanted_port s.remote_port spec.ports) p)
      ]
    ]
  ]
]
