-- ===== src/Config/Error.antt =====
-- The errors of pkg/config, with the context that `fmt.Errorf` wraps around them.
use kubeport.Prelude.{ℕ, String}
use kubeport.Prelude.Int.{ℤ}

pub data ParseError : Type 0 where
  invalid_latency negative_latency invalid_jitter negative_jitter : String → ParseError
  jitter_without_latency jitter_above_latency : ParseError
  invalid_bandwidth_number : String → ParseError
  bandwidth_not_positive unknown_bandwidth_unit : ParseError
  error_rate_range probability_range : ParseError
  invalid_spike_duration negative_spike_duration : String → ParseError
  spike_duration_required : ParseError
  invalid_duration : String → String → ParseError

pub data ServiceError : Type 0 where
  name_required target_missing target_ambiguous : ServiceError
  remote_port_in_multi local_port_in_multi exclude_without_all negative_offset : ServiceError
  selector_empty selector_port selector_local_port : ℕ → ServiceError
  exclude_in_single offset_in_single bad_local_port bad_remote_port : ServiceError
  in_network in_chaos : ParseError → ServiceError
  bad_connection_mode isolated_multi_port : ServiceError

pub data ConfigError : Type 0 where
  no_services : ConfigError
  in_service : ℕ → ServiceError → ConfigError
  port_taken : ℕ → ℤ → String → ConfigError
  empty_socket_path dot_dot_in_socket_path bad_tcp_address api_key_required bad_listen_scheme :
      ConfigError
  hook_name hook_type hook_timeout hook_fail_mode : ℕ → ConfigError
  hook_filter : ℕ → String → ConfigError
  in_supervisor in_global_network in_global_chaos : ParseError → ConfigError
  circular_extends : String → ConfigError
  unreadable : String → ConfigError
  in_parent : String → ConfigError → ConfigError
  bad_extends_path : String → ConfigError
  service_exists service_not_found : String → ConfigError
