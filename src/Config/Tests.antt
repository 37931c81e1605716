-- ===== src/Config/Tests.antt =====
-- The theorems about pkg/config on concrete configurations.
use kubeport.Prelude.{
  ◌≡◌, ◌↔◌, refl, ◌≢◌, String, true, Option, none, some, List, [], ◌∷◌, str_eq, if◌then◌else◌,
  arith,
}
use kubeport.Prelude.Int.{pos}
use kubeport.Prelude.Result.{ok}
use kubeport.Prelude.GoLib.{dyadic, cut_suffix, le_zero, lt_zero, gt_zero, gt_one}
use kubeport.Prelude.Table.{lookup, insert, empty}
use kubeport.Config.{NetworkConfig, ChaosConfig, Config, no_chaos, bool_val, is_multi_port}
use kubeport.Config.Network.{
  ParsedNetworkConfig, parse_network, duration_field, bandwidth_field, parse_bandwidth,
  check_jitter, resolve_network,
}
use kubeport.Config.Chaos.{
  ParsedChaosConfig, parse_chaos, parse_enabled, check_rate, check_spike, spike_duration,
  resolve_chaos,
}
use kubeport.Config.Validate.{
  validate_service, check_services, validate_config, check_target, check_ports, check_single,
  check_mode, check_network, check_chaos, claims, claimed_by, check_listen, check_hooks,
  validate_supervisor, check_durations, bad_duration,
}
use kubeport.Config.Validate.Service.{IsValidService, validate_service_iff}
use kubeport.Config.Validate.Accepted.{IsAccepted, validate_config-IsAccepted}
use kubeport.Config.Merge.{merge_configs, merge_services, merge_hooks, merge_supervisor}
use kubeport.Config.Keyed.{merge, index, replace, fresh}
use kubeport.Config.Merge.Chain.{merge_configs_assoc}
use kubeport.Config.Load.{
  load_chain, load_raw, resolve_extends_path, expand_home, under, detect_format,
}
use kubeport.Config.Load.Chain.{Covers, load_chain_ends}
use kubeport.Samples.{go_lib, web, platform, blank_config, two_services}

abbrev slow_network : NetworkConfig
slow_network = record { latency = "50ms"; jitter = "10ms"; bandwidth = "10mbps" }

abbrev slow_parsed : ParsedNetworkConfig
slow_parsed = record {
  latency = pos 50_000_000;
  jitter = pos 10_000_000;
  bytes_per_sec = pos 125_000;
}

slow_network-parses : parse_network go_lib slow_network ≡ ok slow_parsed
unfolding parse_network duration_field check_jitter bandwidth_field parse_bandwidth cut_suffix
    le_zero lookup
slow_network-parses = refl

-- one stream in four fails, one in two waits for a second
abbrev shaky : ChaosConfig
shaky = record {
  enabled = some true;
  error_rate = dyadic (pos 1) 2;
  latency_spike = record { probability = dyadic (pos 1) 1; duration = "1s" };
}

abbrev shaky_parsed : ParsedChaosConfig
shaky_parsed = record {
  enabled = true;
  error_rate = dyadic (pos 1) 2;
  latency_spike_probability = dyadic (pos 1) 1;
  latency_spike_duration = pos 1_000_000_000;
}

shaky-parses : parse_chaos go_lib shaky ≡ ok shaky_parsed
unfolding parse_chaos parse_enabled bool_val check_rate check_spike spike_duration lookup lt_zero
    gt_zero gt_one
shaky-parses = refl

shaky-resolves : resolve_chaos shaky no_chaos ≡ shaky
unfolding resolve_chaos bool_val
shaky-resolves = refl

validate_service_iff_example :
    (validate_service go_lib platform ≡ ok tt) ↔ IsValidService go_lib platform
validate_service_iff_example = validate_service_iff go_lib platform

two_services-validate : validate_config go_lib two_services ≡ ok tt
unfolding validate_config check_services validate_service check_target check_ports check_single
    check_mode is_multi_port check_network parse_network duration_field check_jitter bandwidth_field
    check_chaos parse_chaos bool_val claims claimed_by check_listen check_hooks validate_supervisor
    check_durations bad_duration
two_services-validate = refl

validate_config-IsAccepted_example : IsAccepted go_lib two_services
validate_config-IsAccepted_example =
    validate_config-IsAccepted go_lib two_services two_services-validate

merge_configs_assoc_example :
    merge_configs
      (merge_configs blank_config two_services)
      (record blank_config { services = platform ∷ [] })
    ≡ merge_configs blank_config
        (merge_configs two_services (record blank_config { services = platform ∷ [] }))
merge_configs_assoc_example =
    merge_configs_assoc blank_config two_services (record blank_config { services = platform ∷ [] })

-- two files, the second the parent of the first
abbrev files : List String
files = "/dev.yaml" ∷ "/base.yaml" ∷ []

abbrev decode : String → Option Config
decode path =
    if str_eq path "/dev.yaml"
    then some (record blank_config { extends = "/base.yaml"; services = web ∷ [] })
    else if str_eq path "/base.yaml"
    then some two_services
    else none

files-Covers : Covers go_lib decode files
files-Covers path h = ground arith

load_chain_ends_example : load_chain go_lib decode 3 [] "/dev.yaml" ≢ none
load_chain_ends_example = load_chain_ends go_lib decode files files-Covers "/dev.yaml"

abbrev loaded : Config
loaded = record two_services { file_path = "/dev.yaml" }

dev-loads : load_chain go_lib decode 3 [] "/dev.yaml" ≡ some (ok loaded)
unfolding load_chain load_raw resolve_extends_path expand_home under merge_configs merge_services
    merge_hooks merge_supervisor resolve_network detect_format merge lookup insert empty index
    replace fresh
dev-loads = refl
