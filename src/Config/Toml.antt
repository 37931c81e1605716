-- ===== src/Config/Toml.antt =====
-- marshalTOML and unmarshalTOML of pkg/config/config.go: the records that are handed to the TOML
-- package and the ones that it decodes. The two differ in what stands for the field `ports`.
pub mod RoundTrip
mod Tests
use kubeport.Prelude.{String, Bool, Option, none, some, List, [], ◌∷◌, map}
use kubeport.Prelude.Int.{ℤ}
use kubeport.Prelude.Result.{Result, ok, err}
use kubeport.Config.{
  NetworkConfig, ChaosConfig, ServiceConfig, HookConfig, SupervisorConfig, ProxyServerConfig,
  Config, PortsConfig, no_ports,
}
use kubeport.Config.PortsField.{Raw, Emitted, PortsError, emit_ports, parse_ports_from_raw}

-- serviceConfigTOML
pub record ServiceConfigToml (P : Type 0) : Type 0 where
  pub name : String
  pub service : String
  pub pod : String
  pub local_port : ℤ
  pub remote_port : ℤ
  pub namespace : String
  pub ports : Option P
  pub exclude_ports : List String
  pub local_port_offset : ℤ
  pub network : NetworkConfig
  pub chaos : ChaosConfig
  pub lazy : Bool
  pub connection_mode : String

-- configTOML
pub record ConfigToml (P : Type 0) : Type 0 where
  pub extends : String
  pub context : String
  pub namespace : String
  pub log_file_path : String
  pub log_level : String
  pub listen : String
  pub api_key : String
  pub key_id : String
  pub host : String
  pub services : List (ServiceConfigToml P)
  pub hooks : List HookConfig
  pub supervisor : SupervisorConfig
  pub network : NetworkConfig
  pub chaos : ChaosConfig
  pub socks : ProxyServerConfig
  pub http_proxy : ProxyServerConfig

-- the service and its bad ports
pub record TomlError : Type 0 where
  pub service : String
  pub ports : PortsError

-- the round of the loop of marshalTOML
unfoldable pub emit_service : ServiceConfig → ServiceConfigToml Emitted
emit_service s = record {
  name = s.name;
  service = s.service;
  pod = s.pod;
  local_port = s.local_port;
  remote_port = s.remote_port;
  namespace = s.namespace;
  ports = emit_ports s.ports;
  exclude_ports = s.exclude_ports;
  local_port_offset = s.local_port_offset;
  network = s.network;
  chaos = s.chaos;
  lazy = s.lazy;
  connection_mode = s.connection_mode;
}

-- marshalTOML up to the TOML package
unfoldable pub marshal_toml : Config → ConfigToml Emitted
marshal_toml c = record {
  extends = c.extends;
  context = c.context;
  namespace = c.namespace;
  log_file_path = c.log_file_path;
  log_level = c.log_level;
  listen = c.listen;
  api_key = c.api_key;
  key_id = c.key_id;
  host = c.host;
  services = map emit_service c.services;
  hooks = c.hooks;
  supervisor = c.supervisor;
  network = c.network;
  chaos = c.chaos;
  socks = c.socks;
  http_proxy = c.http_proxy;
}

-- the ports of a decoded service; they stay unset if the field is absent
unfoldable pub ports_of : Option Raw → Result PortsError PortsConfig
ports_of none = ok no_ports
ports_of (some raw) = parse_ports_from_raw raw

unfoldable pub service_with : ServiceConfigToml Raw → PortsConfig → ServiceConfig
service_with s p = record {
  name = s.name;
  service = s.service;
  pod = s.pod;
  local_port = s.local_port;
  remote_port = s.remote_port;
  namespace = s.namespace;
  ports = p;
  exclude_ports = s.exclude_ports;
  local_port_offset = s.local_port_offset;
  network = s.network;
  chaos = s.chaos;
  lazy = s.lazy;
  connection_mode = s.connection_mode;
  parent_name = "";
  port_name = "";
  source_config = "";
}

-- the loop of unmarshalTOML
unfoldable pub read_services : List (ServiceConfigToml Raw) → Result TomlError (List ServiceConfig)
read_services [] = ok []
read_services (s ∷ rest) = elim (ports_of s.ports) [
  | err e ↦ err (record { service = s.name; ports = e })
  | ok p ↦ elim (read_services rest) [ err e ↦ err e | ok later ↦ ok (service_with s p ∷ later) ]
]

-- unmarshalTOML behind the TOML package; `cfg` is the configuration that it fills
unfoldable pub unmarshal_toml : ConfigToml Raw → Config → Result TomlError Config
unmarshal_toml raw cfg = elim (read_services raw.services) [
  | err e ↦ err e
  | ok read ↦ ok (record cfg {
    extends = raw.extends;
    context = raw.context;
    namespace = raw.namespace;
    log_file_path = raw.log_file_path;
    log_level = raw.log_level;
    listen = raw.listen;
    api_key = raw.api_key;
    key_id = raw.key_id;
    host = raw.host;
    services = read;
    hooks = raw.hooks;
    supervisor = raw.supervisor;
    network = raw.network;
    chaos = raw.chaos;
    socks = raw.socks;
    http_proxy = raw.http_proxy;
  })
]
