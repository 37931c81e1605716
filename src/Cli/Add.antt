-- ===== src/Cli/Add.antt =====
-- cmdAdd of internal/cli/cmd_add.go up to the request that it sends.
pub mod Valid
mod Tests
use text.Mathlib.Text.{starts_with}
use kubeport.Prelude.{
  String, Bool, true, false, ◌&&◌, ◌||◌, not, Option, none, some, List, [], ◌∷◌, str_eq,
  if◌then◌else◌,
}
use kubeport.Prelude.Int.{ℤ, pos, ltb_ℤ, eq_ℤ, wrap32}
use kubeport.Prelude.Result.{Result, ok, err, ◌>>=◌, ◌>>◌}
use kubeport.Prelude.Table.{Table, lookup}
use kubeport.Config.{is_empty}
use kubeport.Daemon.{AddServiceRequest}
use kubeport.Daemon.Convert.{ServiceInfo, PortSpec}
use kubeport.Cli.ServiceFlag.{FlagLib}

pub record AddArgs : Type 0 where
  pub name : String
  pub service : String
  pub pod : String
  pub namespace : String
  pub local_port : ℤ
  pub remote_port : ℤ
  pub persist : Bool
  pub ports_flag : String
  pub exclude_ports : String
  pub local_port_offset : ℤ

abbrev pub no_add_args : AddArgs
no_add_args = record {
  name = "";
  service = "";
  pod = "";
  namespace = "";
  local_port = pos 0;
  remote_port = pos 0;
  persist = false;
  ports_flag = "";
  exclude_ports = "";
  local_port_offset = pos 0;
}

pub data AddFlag : Type 0 where
  add_name add_service_flag add_pod add_namespace add_local_port add_remote_port add_ports : AddFlag
  add_exclude_ports add_offset : AddFlag

-- how cmdAdd ends the program before it sends a request
pub data AddUsage : Type 0 where
  not_a_port : AddFlag → AddUsage
  unknown_add_flag : String → AddUsage
  name_missing target_missing two_targets : AddUsage
  port_with_ports remote_port_missing ports_missing : AddUsage

abbrev pub add_flags : Table AddFlag
add_flags =
    ("--name", add_name)
    ∷ ("--service", add_service_flag)
    ∷ ("--pod", add_pod)
    ∷ ("--namespace", add_namespace)
    ∷ ("-n", add_namespace)
    ∷ ("--local-port", add_local_port)
    ∷ ("--remote-port", add_remote_port)
    ∷ ("--ports", add_ports)
    ∷ ("--exclude-ports", add_exclude_ports)
    ∷ ("--local-port-offset", add_offset)
    ∷ []

abbrev pub is_port : ℤ → Bool
is_port p = not (ltb_ℤ p (pos 0)) && not (ltb_ℤ (pos 65535) p)

-- strconv.Atoi and the range of a port
unfoldable pub port_of_text : FlagLib → AddFlag → String → Result AddUsage ℤ
port_of_text f flag s = elim (f.atoi s) [
  | none ↦ err (not_a_port flag)
  | some p ↦ if is_port p then ok p else err (not_a_port flag)
]

unfoldable pub set_add_flag : FlagLib → AddFlag → String → AddArgs → Result AddUsage AddArgs
set_add_flag f add_name v a = ok (record a { name = v })
set_add_flag f add_service_flag v a = ok (record a { service = v })
set_add_flag f add_pod v a = ok (record a { pod = v })
set_add_flag f add_namespace v a = ok (record a { namespace = v })
set_add_flag f add_local_port v a = do
  p ← port_of_text f add_local_port v
  ok (record a { local_port = p })
set_add_flag f add_remote_port v a = do
  p ← port_of_text f add_remote_port v
  ok (record a { remote_port = p })
set_add_flag f add_ports v a = ok (record a { ports_flag = v })
set_add_flag f add_exclude_ports v a = ok (record a { exclude_ports = v })
set_add_flag f add_offset v a = do
  p ← port_of_text f add_offset v
  ok (record a { local_port_offset = p })

-- another argument; a word is passed over
unfoldable pub add_switch : String → AddArgs → Result AddUsage AddArgs
add_switch arg a =
    if str_eq arg "--persist"
    then ok (record a { persist = true })
    else if starts_with arg "-"
    then err (unknown_add_flag arg)
    else ok a

-- the loop over the arguments; a flag at the end without its value is passed over
unfoldable pub parse_add_args : FlagLib → List String → AddArgs → Result AddUsage AddArgs
parse_add_args f [] a = ok a
parse_add_args f (arg ∷ []) a = elim (lookup arg add_flags) [
  | some flag ↦ ok a
  | none ↦ add_switch arg a
]
parse_add_args f (arg ∷ value ∷ rest) a = elim (lookup arg add_flags) [
  | some flag ↦ do next ← set_add_flag f flag value a; parse_add_args f rest next
  | none ↦ do next ← add_switch arg a; parse_add_args f (value ∷ rest) next
]

unfoldable pub check_add_target : AddArgs → Result AddUsage (Unit {0})
check_add_target a =
    if is_empty a.name
    then err name_missing
    else if is_empty a.service && is_empty a.pod
    then err target_missing
    else if not (is_empty a.service) && not (is_empty a.pod)
    then err two_targets
    else ok tt

-- the checks of the two modes; the ports are in range already
unfoldable pub check_add_ports : AddArgs → Result AddUsage (Unit {0})
check_add_ports a =
    if not (is_empty a.ports_flag)
    then if not (eq_ℤ a.remote_port (pos 0)) || not (eq_ℤ a.local_port (pos 0))
      then err port_with_ports
      else ok tt
    else if eq_ℤ a.remote_port (pos 0)
    then err remote_port_missing
    else if not (is_port a.local_port)
    then err (not_a_port add_local_port)
    else if not (is_port a.remote_port)
    then err (not_a_port add_remote_port)
    else if not (is_empty a.exclude_ports) || not (eq_ℤ a.local_port_offset (pos 0))
    then err ports_missing
    else ok tt

unfoldable pub add_port_spec : FlagLib → AddArgs → PortSpec
add_port_spec f a = record {
  all = str_eq a.ports_flag "all";
  port_names = if str_eq a.ports_flag "all" then [] else f.split_comma a.ports_flag;
  exclude_ports = if is_empty a.exclude_ports then [] else f.split_comma a.exclude_ports;
  local_port_offset = wrap32 a.local_port_offset;
}

unfoldable pub add_info : AddArgs → ServiceInfo
add_info a = record {
  name = a.name;
  service = a.service;
  pod = a.pod;
  local_port = wrap32 a.local_port;
  remote_port = wrap32 a.remote_port;
  namespace = a.namespace;
  parent_name = "";
  port_name = "";
}

unfoldable pub add_request : FlagLib → AddArgs → AddServiceRequest
add_request f a = record {
  service = some (add_info a);
  persist = a.persist;
  ports = if is_empty a.ports_flag then none else some (add_port_spec f a);
  source_config = "";
}

-- cmdAdd, up to its request
unfoldable pub cmd_add : FlagLib → List String → Result AddUsage AddServiceRequest
cmd_add f args = do
  a ← parse_add_args f args no_add_args
  check_add_target a
  check_add_ports a
  ok (add_request f a)
