-- ===== src/Handoff.antt =====
-- internal/cli/cmd_start.go: which services of a configuration clash with running instances, how the
-- others are handed to a running daemon, and when a daemon's forwards are ready.
pub mod Clash
pub mod Received
mod Tests
use kubeport.Prelude.{
  ℕ, suc, String, Bool, true, false, ◌&&◌, ◌||◌, not, Option, none, some, List, [], ◌∷◌, map,
  if◌then◌else◌,
}
use kubeport.Prelude.Int.{ℤ, pos, eq_ℤ, wrap32}
use kubeport.Prelude.Result.{Result, ok, err}
use kubeport.Prelude.GoLib.{GoLib}
use kubeport.Config.{
  PortSelector, PortsConfig, ServiceConfig, is_empty, is_multi_port, ports_is_set,
}
use kubeport.Instances.{Entry}
use kubeport.Manager.Status.{ForwardStatus}
use kubeport.Daemon.Convert.{
  ServiceInfo, PortSpec, ForwardStatusProto, ProtoState, state_running, state_waiting,
  state_external,
}
use kubeport.Daemon.{Server, AddServiceRequest, Surroundings, serve_add_service}

-- the names of the selectors that have one
unfoldable pub selector_names : List PortSelector → List String
selector_names [] = []
selector_names (s ∷ rest) =
    let later = selector_names rest in if is_empty s.name then later else s.name ∷ later

unfoldable pub port_spec : ServiceConfig → PortSpec
port_spec s = record {
  all = s.ports.all;
  port_names = if s.ports.all then [] else selector_names s.ports.selectors;
  exclude_ports = [];
  local_port_offset = wrap32 s.local_port_offset;
}

unfoldable pub service_info : ServiceConfig → ServiceInfo
service_info s = record {
  name = s.name;
  service = s.service;
  pod = s.pod;
  local_port = wrap32 s.local_port;
  remote_port = wrap32 s.remote_port;
  namespace = s.namespace;
  parent_name = "";
  port_name = "";
}

-- serviceConfigToProto
unfoldable pub service_config_to_proto : ServiceConfig → AddServiceRequest
service_config_to_proto s = record {
  service = some (service_info s);
  persist = false;
  ports = if ports_is_set s.ports then some (port_spec s) else none;
  source_config = "";
}

-- a reachable instance with the statuses of its forwards
pub record LiveInstance : Type 0 where
  pub entry : Entry
  pub forwards : List ForwardStatusProto

pub record ConflictEntry : Type 0 where
  pub port : ℤ
  pub service_name : String
  pub owned_by : String
  pub owner_pid : ℤ
  pub owner_config : String

-- `owner` of buildConflictReport
pub record Owner : Type 0 where
  pub service_name : String
  pub pid : ℤ
  pub config_file : String

-- the local port of a forward: the actual one, or the configured one
unfoldable pub forward_port : ForwardStatusProto → ℤ
forward_port fw = if eq_ℤ fw.actual_port (pos 0) then fw.service.local_port else fw.actual_port

-- `portOwner`, as a list of pairs with the latest first: the forwards of one instance
unfoldable pub owners_of : List (ℤ × Owner) → Entry → List ForwardStatusProto → List (ℤ × Owner)
owners_of t e [] = t
owners_of t e (fw ∷ rest) =
    let o : Owner = record {
      service_name = fw.service.name;
      pid = e.pid;
      config_file = e.config_file;
    } in
    owners_of (if eq_ℤ (forward_port fw) (pos 0) then t else (forward_port fw, o) ∷ t) e rest

unfoldable pub port_owners : List (ℤ × Owner) → List LiveInstance → List (ℤ × Owner)
port_owners t [] = t
port_owners t (inst ∷ rest) = port_owners (owners_of t inst.entry inst.forwards) rest

unfoldable pub find_owner : ℤ → List (ℤ × Owner) → Option Owner
find_owner port [] = none
find_owner port ((p, o) ∷ rest) =
    let later = find_owner port rest in if eq_ℤ p port then some o else later

abbrev pub Report : Type 0
Report = List ConflictEntry × List ServiceConfig

unfoldable pub conflict_with : ServiceConfig → Owner → ConflictEntry
conflict_with s o = record {
  port = s.local_port;
  service_name = s.name;
  owned_by = o.service_name;
  owner_pid = o.pid;
  owner_config = o.config_file;
}

-- the loop over the new services
unfoldable pub report_each : List (ℤ × Owner) → List ServiceConfig → Report
report_each owners [] = ([], [])
report_each owners (s ∷ rest) =
    let (conflicts, clean) = report_each owners rest in
    if eq_ℤ s.local_port (pos 0) || is_multi_port s
    then (conflicts, s ∷ clean)
    else elim (find_owner s.local_port owners) [
      | some o ↦ (conflict_with s o ∷ conflicts, clean)
      | none ↦ (conflicts, s ∷ clean)
    ]

-- buildConflictReport
unfoldable pub build_conflict_report : List ServiceConfig → List LiveInstance → Report
build_conflict_report services live = report_each (port_owners [] live) services

-- the instances that can take services over
unfoldable pub primary_candidates : List Entry → List Entry
primary_candidates [] = []
primary_candidates (e ∷ rest) =
    let later = primary_candidates rest in if e.delegate then later else e ∷ later

-- a state that waiting for readiness accepts
unfoldable pub is_ready_state : ProtoState → Bool
is_ready_state state_running = true
is_ready_state state_waiting = true
is_ready_state state_external = true
is_ready_state _ = false

unfoldable pub each_ready : List ForwardStatusProto → Bool
each_ready [] = true
each_ready (fw ∷ rest) =
    let later = each_ready rest in if is_ready_state fw.state then later else false

-- allForwardsReady of an answered Status, which is also the test of waitForReady
unfoldable pub all_forwards_ready : List ForwardStatusProto → Bool
all_forwards_ready [] = false
all_forwards_ready (fw ∷ rest) = each_ready (fw ∷ rest)

-- the loop of cmdStartDelegate that hands the services over, with the count of those accepted and of
-- those refused; `source` is the absolute path of the configuration
unfoldable pub hand_off :
    GoLib
    → Surroundings
    → List (List ForwardStatus)
    → String
    → Server
    → List ServiceConfig
    → Server × ℕ × ℕ
hand_off lib around polls source srv [] = (srv, 0, 0)
hand_off lib around polls source srv (s ∷ rest) =
    let (srv₁, answer) =
      serve_add_service lib around polls srv
        (record (service_config_to_proto s) { source_config = source }) in
    let (srv₂, accepted, refused) = hand_off lib around polls source srv₁ rest in
    elim answer [ ok port ↦ (srv₂, suc accepted, refused) | err e ↦ (srv₂, accepted, suc refused) ]
