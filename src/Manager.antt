-- ===== src/Manager.antt =====
-- internal/proxy/manager.go: the state of the manager of port forwards and the operations of its
-- serial command path. One command runs at a time (the event loop), so each operation is a function
-- of the whole state; the locks do not appear. What a supervising goroutine does to its own forward
-- is in Manager.Steps, what it does over time in Supervise.
pub mod Expand
pub mod Mappings
pub mod Status
pub mod Chaos
pub mod Commands
pub mod Order
pub mod Steps
pub mod Reserve
pub mod Remove
mod Tests
use kubeport.Prelude.{
  ℕ, String, Bool, true, false, ◌&&◌, not, Option, none, some, List, [], ◌∷◌, ◌++◌, str_eq,
  if◌then◌else◌,
}
use kubeport.Prelude.Int.{ℤ, pos, eq_ℤ}
use kubeport.Prelude.Result.{Result, ok, err}
use kubeport.Prelude.Table.{Table, lookup, insert, delete, has}
use kubeport.Config.{ServiceConfig, Config, is_empty, is_multi_port}
use kubeport.Config.Error.{ServiceError}
use kubeport.Config.Chaos.{ParsedChaosConfig}

pub data ForwardState : Type 0 where
  starting running failed stopped waiting external : ForwardState

pub data ManagerError : Type 0 where
  service_exists service_not_found : String → ManagerError
  port_in_use : ℤ → String → ManagerError
  invalid_service : ServiceError → ManagerError
  not_started manager_stopped : ManagerError
  port_not_found port_out_of_range no_ports_resolved : String → ManagerError
  kubernetes : String → ManagerError
  disconnected : String → ManagerError

-- portForward, without its channels and timers
pub record PortForward : Type 0 where
  pub svc : ServiceConfig
  pub namespace : String
  pub state : ForwardState
  pub error : Option ManagerError
  pub restarts : ℕ
  pub actual_port : ℤ
  pub source_config : String
  pub chaos_override : Option ParsedChaosConfig
  pub has_chaos_override : Bool

pub record ExternalForward : Type 0 where
  pub service : ServiceConfig
  pub instance_endpoint : String
  pub pid : ℤ
  pub config_file : String
  pub actual_port : ℤ

-- the two hook events of the command path, with the service that they name
pub data Fired : Type 0 where
  service_added service_removed : String → Fired

pub record Manager : Type 0 where
  pub cfg : Config
  pub forwards : Table PortForward
  pub order : List String
  pub children : Table (List String)
  pub external_forwards : Table ExternalForward
  pub fired : List Fired

-- the namespace of a service, or the configured one
unfoldable pub namespace_of : Config → ServiceConfig → String
namespace_of c s = if is_empty s.namespace then c.namespace else s.namespace

-- the placeholder that a reservation registers
unfoldable pub placeholder : Config → ServiceConfig → PortForward
unfolding namespace_of
placeholder c s = record {
  svc = s;
  namespace = namespace_of c s;
  state = starting;
  error = none;
  restarts = 0;
  actual_port = pos 0;
  source_config = s.source_config;
  chaos_override = none;
  has_chaos_override = false;
}

-- the local port that a forward holds: the configured one, or the one that the system assigned
unfoldable pub held_port : PortForward → ℤ
held_port pf = if eq_ℤ pf.svc.local_port (pos 0) then pf.actual_port else pf.svc.local_port

-- the loop over the forwards that looks for the port
unfoldable pub port_holder : ℤ → Table PortForward → Option String
unfolding held_port
port_holder port [] = none
port_holder port ((n, pf) ∷ rest) =
    if eq_ℤ (held_port pf) port then some pf.svc.name else port_holder port rest

-- `m.forwards[name] = pf; m.order = append(m.order, name)`
unfoldable pub register : Manager → String → PortForward → Manager
register m name pf = record m { forwards = insert name pf m.forwards; order = m.order ++ name ∷ [] }

unfoldable pub conflict : Manager → ServiceConfig → Option String
conflict m s =
    if not (is_multi_port s) && not (eq_ℤ s.local_port (pos 0))
    then port_holder s.local_port m.forwards
    else none

-- reserveForward: a multi-port service reserves its name among the parents, a single-port service
-- registers its placeholder
unfoldable pub reserve_forward : Manager → ServiceConfig → Result ManagerError Manager
reserve_forward m s =
    if has s.name m.forwards
    then err (service_exists s.name)
    else if has s.name m.children
    then err (service_exists s.name)
    else elim (conflict m s) [
      | some holder ↦ err (port_in_use s.local_port holder)
      | none ↦
          if is_multi_port s
          then ok (record m { children = insert s.name [] m.children })
          else ok (register m s.name (placeholder m.cfg s))
    ]

-- the loop that takes the first occurrence out of the order
unfoldable pub remove_first : String → List String → List String
remove_first name [] = []
remove_first name (n ∷ rest) =
    let others = remove_first name rest in if str_eq n name then rest else n ∷ others

-- `delete(m.forwards, name)` and the loop over the order
unfoldable pub unregister : Manager → String → Manager
unregister m name = record m {
  forwards = delete name m.forwards;
  order = remove_first name m.order;
}

-- an operation's error, if any, beside the state that it leaves
abbrev pub Outcome : Type 0
Outcome = Manager × Option ManagerError

-- removeSingle
unfoldable pub remove_single : Manager → String → Outcome
remove_single m name = elim (lookup name m.forwards) [
  | none ↦ (m, some (service_not_found name))
  | some pf ↦ (record (unregister m name) { fired = m.fired ++ service_removed name ∷ [] }, none)
]

abbrev first_error : Option ManagerError → Option ManagerError → Option ManagerError
first_error none e = e
first_error (some e) _ = some e

-- the loop over the children, which keeps the first error
unfoldable pub remove_all : Manager → List String → Outcome
unfolding remove_single
remove_all m [] = (m, none)
remove_all m (name ∷ rest) =
    let (m₁, e₁) = remove_single m name in
    let (m₂, e₂) = remove_all m₁ rest in (m₂, first_error e₁ e₂)

-- the parent's reservation and its own failed entry, if it has one
unfoldable pub take_parent : Manager → String → Manager
take_parent m name =
    let m₁ = record m { children = delete name m.children } in
    if has name m.forwards then unregister m₁ name else m₁

-- doRemove: a parent goes with its own failed entry, if it has one, and all its children. The event
-- loop calls it for a name that is not empty; it drops a removal without a name and never answers it.
unfoldable pub do_remove : Manager → String → Outcome
do_remove m name = elim (lookup name m.children) [
  | none ↦ remove_single m name
  | some child_names ↦ remove_all (take_parent m name) child_names
]

-- the case `cmd.add` of the event loop
unfoldable pub do_add : Manager → ServiceConfig → Outcome
do_add m s = elim (reserve_forward m s) [
  | err e ↦ (m, some e)
  | ok m₁ ↦ (record m₁ { fired = m₁.fired ++ service_added s.name ∷ [] }, none)
]
