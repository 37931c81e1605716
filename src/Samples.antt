-- ===== src/Samples.antt =====
-- Test data that the test modules share: one reading of the standard library's functions, and
-- services and configurations with some fields filled in.
use kubeport.Prelude.{true, false, none, some, [], ◌∷◌, str_eq, if◌then◌else◌}
use kubeport.Prelude.Int.{ℤ, pos}
use kubeport.Prelude.Table.{Table, lookup}
use kubeport.Prelude.GoLib.{GoLib, dyadic}
use kubeport.Config.{
  ServiceConfig, SupervisorConfig, ProxyServerConfig, Config, format_yaml, no_ports, no_network,
  no_chaos,
}

abbrev durations : Table ℤ
durations = ("50ms", pos 50_000_000) ∷ ("10ms", pos 10_000_000) ∷ ("1s", pos 1_000_000_000) ∷ []

abbrev pub go_lib : GoLib
go_lib = record {
  parse_duration = λ s. lookup s durations;
  to_lower = λ s. s;
  trim_space = λ s. s;
  parse_float = λ s. if str_eq s "10" then some (dyadic (pos 10) 0) else none;
  scale = λ x k. pos k;
  split_host_port = λ s. if str_eq s "localhost:50500" then some ("localhost", "50500") else none;
  clean = λ s. s;
  has_dot_dot = λ s. false;
  user_home_dir = some "/home/dev";
  join = λ a b. b;
  is_abs = λ s. true;
  dir = λ s. "/";
  ext = λ s. ".yaml";
  itoa = λ n. "0";
}

abbrev pub blank_service : ServiceConfig
blank_service = record {
  name = "";
  service = "";
  pod = "";
  local_port = pos 0;
  remote_port = pos 0;
  namespace = "";
  ports = no_ports;
  exclude_ports = [];
  local_port_offset = pos 0;
  network = no_network;
  chaos = no_chaos;
  lazy = false;
  connection_mode = "";
  parent_name = "";
  port_name = "";
  source_config = "";
}

-- a single-port service
abbrev pub web : ServiceConfig
web = record blank_service {
  name = "web";
  service = "nginx";
  local_port = pos 8080;
  remote_port = pos 80;
}

abbrev pub db : ServiceConfig
db = record blank_service {
  name = "db";
  pod = "postgres-0";
  local_port = pos 5432;
  remote_port = pos 5432;
}

-- a multi-port service with all ports but one
abbrev pub platform : ServiceConfig
platform = record blank_service {
  name = "platform";
  service = "platform";
  ports = record no_ports { all = true };
  exclude_ports = "debug" ∷ [];
  local_port_offset = pos 10_000;
}

abbrev no_proxy : ProxyServerConfig
no_proxy = record { enabled = none; listen = ""; username = ""; password = ""; fuzzy_match = none }

abbrev no_supervisor : SupervisorConfig
no_supervisor = record {
  max_restarts = pos 0;
  health_check_interval = "";
  health_check_threshold = pos 0;
  ready_timeout = "";
  backoff_initial = "";
  backoff_max = "";
  max_connection_age = "";
  connection_mode = "";
}

abbrev pub blank_config : Config
blank_config = record {
  extends = "";
  context = "";
  namespace = "";
  log_file_path = "";
  log_level = "";
  listen = "";
  api_key = "";
  key_id = "";
  host = "";
  services = [];
  hooks = [];
  supervisor = no_supervisor;
  network = no_network;
  chaos = no_chaos;
  socks = no_proxy;
  http_proxy = no_proxy;
  file_path = "";
  format = format_yaml;
}

abbrev pub two_services : Config
two_services = record blank_config { namespace = "dev"; services = web ∷ db ∷ [] }
