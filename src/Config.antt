-- ===== src/Config.antt =====
-- pkg/config/config.go: the configuration as the program holds it, with the methods that read a
-- single record. The children validate, resolve, merge and edit it.
pub mod Error
pub mod Network
pub mod Chaos
pub mod Validate
pub mod Keyed
pub mod Merge
pub mod Load
pub mod PortsField
pub mod Toml
pub mod Edit
pub mod Paths
mod Tests
use kubeport.Prelude.{
  String, Bool, true, false, ◌||◌, ◌&&◌, not, Option, none, some, List, [], ◌∷◌, str_eq,
  if◌then◌else◌, Bool-cases,
}
use kubeport.Prelude.Int.{ℤ}
use kubeport.Prelude.Table.{Table}
use kubeport.Prelude.GoLib.{Float64}

pub record PortSelector : Type 0 where
  pub name : String
  pub port : ℤ
  pub local_port : ℤ

pub record PortsConfig : Type 0 where
  pub all : Bool
  pub selectors : List PortSelector

pub record NetworkConfig : Type 0 where
  pub latency : String
  pub jitter : String
  pub bandwidth : String

pub record LatencySpikeConfig : Type 0 where
  pub probability : Float64
  pub duration : String

pub record ChaosConfig : Type 0 where
  pub enabled : Option Bool
  pub error_rate : Float64
  pub latency_spike : LatencySpikeConfig

pub record ServiceConfig : Type 0 where
  pub name : String
  pub service : String
  pub pod : String
  pub local_port : ℤ
  pub remote_port : ℤ
  pub namespace : String
  pub ports : PortsConfig
  pub exclude_ports : List String
  pub local_port_offset : ℤ
  pub network : NetworkConfig
  pub chaos : ChaosConfig
  pub lazy : Bool
  pub connection_mode : String
  pub parent_name : String
  pub port_name : String
  pub source_config : String

pub record WebhookConfig : Type 0 where
  pub url : String
  pub headers : Table String
  pub body_template : String

pub record ExecConfig : Type 0 where
  pub command : List String

pub record HookConfig : Type 0 where
  pub name : String
  pub kind : String
  pub events : List String
  pub timeout : String
  pub fail_mode : String
  pub shell : Table String
  pub webhook : Option WebhookConfig
  pub exec : Option ExecConfig
  pub filter_services : List String

pub record SupervisorConfig : Type 0 where
  pub max_restarts : ℤ
  pub health_check_interval : String
  pub health_check_threshold : ℤ
  pub ready_timeout : String
  pub backoff_initial : String
  pub backoff_max : String
  pub max_connection_age : String
  pub connection_mode : String

pub record ProxyServerConfig : Type 0 where
  pub enabled : Option Bool
  pub listen : String
  pub username : String
  pub password : String
  pub fuzzy_match : Option Bool

pub data Format : Type 0 where
  format_yaml format_toml : Format

pub record Config : Type 0 where
  pub extends : String
  pub context : String
  pub namespace : String
  pub log_file_path : String
  pub log_level : String
  pub listen : String
  pub api_key : String
  pub key_id : String
  pub host : String
  pub services : List ServiceConfig
  pub hooks : List HookConfig
  pub supervisor : SupervisorConfig
  pub network : NetworkConfig
  pub chaos : ChaosConfig
  pub socks : ProxyServerConfig
  pub http_proxy : ProxyServerConfig
  pub file_path : String
  pub format : Format

abbrev pub is_empty : String → Bool
is_empty s = str_eq s ""

abbrev pub nonempty {ℓ} : {A : Type ℓ} → List A → Bool
nonempty [] = false
nonempty (x ∷ xs) = true

-- boolVal
unfoldable pub bool_val : Option Bool → Bool
bool_val none = false
bool_val (some b) = b

-- PortsConfig.IsSet
unfoldable pub ports_is_set : PortsConfig → Bool
ports_is_set p = p.all || nonempty p.selectors

-- ServiceConfig.IsPod
unfoldable pub is_pod : ServiceConfig → Bool
is_pod s = not (is_empty s.pod)

-- ServiceConfig.Target
unfoldable pub target : ServiceConfig → String
target s = if not (is_empty s.pod) then s.pod else s.service

-- ServiceConfig.IsMultiPort
unfoldable pub is_multi_port : ServiceConfig → Bool
is_multi_port s = s.ports.all || nonempty s.ports.selectors

-- NetworkConfig.IsSet
unfoldable pub network_is_set : NetworkConfig → Bool
network_is_set n = not (is_empty n.latency) || not (is_empty n.jitter) || not (is_empty n.bandwidth)

-- ChaosConfig.IsSet
unfoldable pub chaos_is_set : ChaosConfig → Bool
chaos_is_set c = bool_val c.enabled

-- The zero values of Go's structs.
abbrev pub no_ports : PortsConfig
no_ports = record { all = false; selectors = [] }

abbrev pub no_network : NetworkConfig
no_network = record { latency = ""; jitter = ""; bandwidth = "" }

abbrev pub no_chaos : ChaosConfig
no_chaos = record {
  enabled = none;
  error_rate = Float64.dyadic (ℤ.pos 0) 0;
  latency_spike = record { probability = Float64.dyadic (ℤ.pos 0) 0; duration = "" };
}
