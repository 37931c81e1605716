-- ===== src/Daemon/Convert.antt =====
-- convert.go and chaosParamsFromProto of internal/daemon: what the messages become, and what becomes
-- of a status.
use kubeport.Prelude.{String, Bool, false, Option, none, some, List, [], map}
use kubeport.Prelude.Int.{ℤ, pos, wrap32, over}
use kubeport.Prelude.GoLib.{Float64}
use kubeport.Config.{ServiceConfig, PortsConfig, no_ports, no_network, no_chaos}
use kubeport.Manager.{ManagerError, ForwardState}
use kubeport.Manager
use kubeport.Manager.Status.{ForwardStatus}

pub record ServiceInfo : Type 0 where
  pub name : String
  pub service : String
  pub pod : String
  pub local_port : ℤ
  pub remote_port : ℤ
  pub namespace : String
  pub parent_name : String
  pub port_name : String

pub record PortSpec : Type 0 where
  pub all : Bool
  pub port_names : List String
  pub exclude_ports : List String
  pub local_port_offset : ℤ

-- serviceInfoToConfig
unfoldable pub service_info_to_config : ServiceInfo → ServiceConfig
service_info_to_config si = record {
  name = si.name;
  service = si.service;
  pod = si.pod;
  local_port = si.local_port;
  remote_port = si.remote_port;
  namespace = si.namespace;
  ports = no_ports;
  exclude_ports = [];
  local_port_offset = pos 0;
  network = no_network;
  chaos = no_chaos;
  lazy = false;
  connection_mode = "";
  parent_name = "";
  port_name = "";
  source_config = "";
}

-- portSpecToConfig
unfoldable pub port_spec_to_config : Option PortSpec → PortsConfig × List String × ℤ
port_spec_to_config none = (no_ports, [], pos 0)
port_spec_to_config (some ps) = (
  record {
    all = ps.all;
    selectors = map (λ n. record { name = n; port = pos 0; local_port = pos 0 }) ps.port_names;
  },
  ps.exclude_ports,
  ps.local_port_offset,
)

-- the constants of the generated code
pub data ProtoState : Type 0 where
  state_unspecified state_starting state_running state_failed state_stopped state_waiting
        state_external :
      ProtoState

-- convertState; its default is not reached, since the states of the model are the source's constants
unfoldable pub convert_state : ForwardState → ProtoState
convert_state Manager.starting = state_starting
convert_state Manager.running = state_running
convert_state Manager.failed = state_failed
convert_state Manager.stopped = state_stopped
convert_state Manager.waiting = state_waiting
convert_state Manager.external = state_external

pub record ForwardStatusProto : Type 0 where
  pub service : ServiceInfo
  pub state : ProtoState
  pub error : Option ManagerError
  pub restarts : ℤ
  pub last_start : Option ℤ
  pub next_retry : Option ℤ
  pub connected : Bool
  pub actual_port : ℤ
  pub bytes_in : ℤ
  pub bytes_out : ℤ
  pub conn_bytes_in : ℤ
  pub conn_bytes_out : ℤ
  pub effective_latency_ms : ℤ
  pub effective_jitter_ms : ℤ
  pub effective_bandwidth : ℤ
  pub chaos_enabled : Bool
  pub chaos_error_rate : Float64
  pub chaos_spike_probability : Float64
  pub chaos_spike_duration_ms : ℤ
  pub chaos_errors_injected : ℤ
  pub chaos_spikes_injected : ℤ
  pub lazy : Bool
  pub tunnel_open : Bool
  pub connection_mode : String
  pub source_config : String
  pub external_instance : String
  pub external_pid : ℤ

-- time.Duration.Milliseconds
abbrev pub milliseconds : ℤ → ℤ
milliseconds d = over d 1_000_000

-- convertForwardStatus
unfoldable pub convert_forward_status : ForwardStatus → ForwardStatusProto
convert_forward_status fs = record {
  service = record {
    name = fs.service.name;
    service = fs.service.service;
    pod = fs.service.pod;
    local_port = wrap32 fs.service.local_port;
    remote_port = wrap32 fs.service.remote_port;
    namespace = fs.service.namespace;
    parent_name = fs.service.parent_name;
    port_name = fs.service.port_name;
  };
  state = convert_state fs.state;
  error = fs.error;
  restarts = wrap32 (pos fs.restarts);
  last_start = fs.gauges.last_start;
  next_retry = fs.gauges.next_retry;
  connected = fs.connected;
  actual_port = wrap32 fs.actual_port;
  bytes_in = fs.gauges.bytes_in;
  bytes_out = fs.gauges.bytes_out;
  conn_bytes_in = fs.gauges.conn_bytes_in;
  conn_bytes_out = fs.gauges.conn_bytes_out;
  effective_latency_ms = milliseconds fs.effective_network.latency;
  effective_jitter_ms = milliseconds fs.effective_network.jitter;
  effective_bandwidth = fs.effective_network.bytes_per_sec;
  chaos_enabled = fs.chaos_enabled;
  chaos_error_rate = fs.effective_chaos.error_rate;
  chaos_spike_probability = fs.effective_chaos.latency_spike_probability;
  chaos_spike_duration_ms = milliseconds fs.effective_chaos.latency_spike_duration;
  chaos_errors_injected = fs.gauges.chaos_errors_injected;
  chaos_spikes_injected = fs.gauges.chaos_spikes_injected;
  lazy = fs.lazy;
  tunnel_open = fs.gauges.tunnel_open;
  connection_mode = fs.connection_mode;
  source_config = fs.source_config;
  external_instance = fs.external_instance;
  external_pid = wrap32 fs.external_pid;
}
