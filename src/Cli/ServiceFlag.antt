-- ===== src/Cli/ServiceFlag.antt =====
-- parseSvcFlag and parseCLIServices of internal/cli/cli.go: the value of a --svc flag.
use text.Mathlib.Text.{find?}
use kubeport.Prelude.{
  String, Bool, true, false, ◌&&◌, ◌||◌, not, Option, none, some, List, [], ◌∷◌, str_eq,
  if◌then◌else◌, is_some,
}
use kubeport.Prelude.Int.{ℤ, pos}
use kubeport.Prelude.GoLib.{GoLib, cut_prefix, cut_text}
use kubeport.Prelude.Result.{Result, ok, err, ◌>>=◌}
use kubeport.Config.{
  ServiceConfig, PortSelector, PortsConfig, is_empty, no_ports, no_network, no_chaos,
}

-- strings.SplitN(s, ":", 5), strings.Split(s, ","), strconv.Atoi
pub record FlagLib : Type 0 where
  pub split_colon : String → List String
  pub split_comma : String → List String
  pub atoi : String → Option ℤ

pub data SvcFlagError : Type 0 where
  invalid_format invalid_target invalid_type invalid_offset : SvcFlagError
  invalid_remote_port invalid_local_port : SvcFlagError

-- a service with a name only
abbrev pub named_service : String → ServiceConfig
named_service given = record {
  name = given;
  service = "";
  pod = "";
  local_port = pos 0;
  remote_port = pos 0;
  namespace = "";
  ports = no_ports;
  exclude_ports = [];
  local_port_offset = pos 0;
  network = no_network;
  chaos = no_chaos;
  lazy = false;
  connection_mode = "";
  parent_name = "";
  port_name = "";
  source_config = "";
}

-- svc/<name> or pod/<name>
unfoldable pub with_target : String → ServiceConfig → Result SvcFlagError ServiceConfig
with_target typ_target s =
    let (kind, after_slash) = cut_text typ_target "/" in
    elim after_slash [
      | none ↦ err invalid_target
      | some given ↦
          if is_empty given
          then err invalid_target
          else if str_eq kind "svc" || str_eq kind "service"
          then ok (record s { service = given })
          else if str_eq kind "pod"
          then ok (record s { pod = given })
          else err invalid_type
    ]

unfoldable pub is_numeric : FlagLib → String → Bool
is_numeric f s = is_some (f.atoi s)

unfoldable pub is_multi_spec : FlagLib → String → Bool
is_multi_spec f spec = str_eq spec "all" || (not (is_numeric f spec) && is_some (find? spec ","))

-- the names between commas, without the empty ones
unfoldable pub selectors_of : GoLib → List String → List PortSelector
selectors_of lib [] = []
selectors_of lib (n ∷ ns) =
    let rest = selectors_of lib ns in
    if is_empty (lib.trim_space n)
    then rest
    else record { name = lib.trim_space n; port = pos 0; local_port = pos 0 } ∷ rest

unfoldable pub ports_in : GoLib → FlagLib → String → PortsConfig
ports_in lib f spec =
    if str_eq spec "all"
    then record { all = true; selectors = [] }
    else record { all = false; selectors = selectors_of lib (f.split_comma spec) }

-- the part after the local part
unfoldable pub with_namespace : List String → ServiceConfig → ServiceConfig
with_namespace [] s = s
with_namespace (ns ∷ _) s = if is_empty ns then s else record s { namespace = ns }

-- the parts behind the ports of a multi-port service: an offset and a namespace, or a namespace
unfoldable pub with_local_spec :
    FlagLib → List String → ServiceConfig → Result SvcFlagError ServiceConfig
with_local_spec f [] s = ok s
with_local_spec f (local ∷ rest) s =
    if is_empty local then ok (with_namespace rest s) else elim (cut_prefix local "+") [
      | none ↦ ok (record s { namespace = local })
      | some digits ↦ elim (f.atoi digits) [
        | none ↦ err invalid_offset
        | some offset ↦ ok (with_namespace rest (record s { local_port_offset = offset }))
      ]
    ]

-- the parts behind the remote port of a single-port service
unfoldable pub with_ports :
    FlagLib → String → List String → ServiceConfig → Result SvcFlagError ServiceConfig
with_ports f spec [] s = err invalid_format
with_ports f spec (local_text ∷ rest) s = elim (f.atoi spec) [
  | none ↦ err invalid_remote_port
  | some remote ↦ elim (f.atoi local_text) [
    | none ↦ err invalid_local_port
    | some local ↦ ok (with_namespace rest (record s { remote_port = remote; local_port = local }))
  ]
]

unfoldable pub parse_parts : GoLib → FlagLib → List String → Result SvcFlagError ServiceConfig
parse_parts lib f (name ∷ typ_target ∷ spec ∷ rest) = do
  s ← with_target typ_target (named_service name)
  if is_multi_spec f spec
      then with_local_spec f rest (record s { ports = ports_in lib f spec })
      else with_ports f spec rest s
parse_parts lib f _ = err invalid_format

-- parseSvcFlag
unfoldable pub parse_svc_flag : GoLib → FlagLib → String → Result SvcFlagError ServiceConfig
parse_svc_flag lib f s = parse_parts lib f (f.split_colon s)

-- parseCLIServices
unfoldable pub parse_cli_services :
    GoLib → FlagLib → List String → Result SvcFlagError (List ServiceConfig)
parse_cli_services lib f [] = ok []
parse_cli_services lib f (raw ∷ rest) = do
  s ← parse_svc_flag lib f raw
  services ← parse_cli_services lib f rest
  ok (s ∷ services)
