-- ===== src/Cli/Tests.antt =====
-- A file with the services web and db, of which db is disabled and web is given by a flag.
use kubeport.Prelude.{
  ◌≡◌, refl, String, Bool, true, some, List, [], ◌∷◌, all, str_eq, if◌then◌else◌, arith,
}
use kubeport.Prelude.Int.{pos, ltb_ℤ}
use kubeport.Prelude.GoLib.{cut_prefix, cut_text}
use kubeport.Prelude.Result.{ok}
use kubeport.Prelude.Table.{lookup}
use kubeport.Config.{ServiceConfig, Config}
use kubeport.Config.{is_multi_port, bool_val}
use kubeport.Config.Network.{parse_network, duration_field, check_jitter, bandwidth_field}
use kubeport.Config.Chaos.{parse_chaos}
use kubeport.Config.Load.{load, load_chain, load_raw, apply_environment, detect_format}
use kubeport.Config.Validate.{
  validate_config, check_services, validate_service, check_target, check_ports, check_single,
  check_mode, check_network, check_chaos, claims, claimed_by, check_listen, check_hooks,
  validate_supervisor, check_durations, bad_duration,
}
use kubeport.Config.Validate.Accepted.{IsAccepted}
use kubeport.Cli.{
  App, new_app, parse_args, parse_each, parse_one, assigned_in, set_value, flip_switch, add_word,
}
use kubeport.Cli.ServiceFlag.{
  FlagLib, parse_cli_services, parse_svc_flag, parse_parts, with_target, with_ports, with_namespace,
  is_multi_spec, is_numeric,
}
use kubeport.Cli.LoadConfig.{
  Sources, load_config, is_disabled, without_disabled, override_each, override_one, apply_flags,
  accept, load_file, load_with, or_given,
}
use kubeport.Cli.LoadConfig.Accepted.{FilesHold, load_config-IsAccepted}
use kubeport.Samples.{go_lib, two_services, web}

abbrev flags : FlagLib
flags = record {
  split_colon = λ s.
      if str_eq s "web:svc/nginx:80:9090"
      then "web" ∷ "svc/nginx" ∷ "80" ∷ "9090" ∷ []
      else "platform" ∷ "svc/platform" ∷ "all" ∷ "+10000" ∷ "dev" ∷ [];
  split_comma = λ s. s ∷ [];
  atoi = λ s. lookup s (("80", pos 80) ∷ ("9090", pos 9090) ∷ ("10000", pos 10000) ∷ []);
}

abbrev after_command : List String
after_command = "status" ∷ "--host" ∷ "h:1" ∷ "--json" ∷ []

flags-after :
    parse_args go_lib after_command
    ≡ ok (record {
      app = record new_app { remote_host = "h:1"; status_json = true };
      command = "status";
      remaining = [];
    })
unfolding parse_args parse_each parse_one assigned_in set_value flip_switch add_word lookup
    cut_prefix
flags-after = refl

abbrev web_flag : ServiceConfig
web_flag = record web { local_port = pos 9090 }

web-parsed : parse_cli_services go_lib flags ("web:svc/nginx:80:9090" ∷ []) ≡ ok (web_flag ∷ [])
unfolding parse_cli_services parse_svc_flag parse_parts with_target with_ports with_namespace
    is_multi_spec is_numeric cut_text lookup
web-parsed = refl

abbrev sources : Sources
sources = record {
  decode = λ path. some two_services;
  fuel = 2;
  environment = record { k8s_context = ""; k8s_namespace = ""; kubeport_api_key = "" };
  discovered = some "/dev.yaml";
  equal_fold = str_eq;
}

abbrev given : App
given = record new_app { cli_services = "web:svc/nginx:80:9090" ∷ []; disable_services = "db" ∷ [] }

abbrev high_port : ServiceConfig → Bool
high_port s = ltb_ℤ (pos 8000) s.local_port

high-unless_disabled : FilesHold go_lib high_port sources given
unfolding load load_chain load_raw apply_environment detect_format is_disabled
high-unless_disabled path c loads = ground (arith, loads)

abbrev loaded : Config
loaded = record two_services { services = web_flag ∷ []; file_path = "/dev.yaml" }

loads-merged :
    load_config go_lib flags sources given
    ≡ some (ok (record given { config_file = "/dev.yaml"; cfg = some loaded }))
unfolding load_config load_with load_file accept apply_flags without_disabled is_disabled
    override_each override_one or_given parse_cli_services parse_svc_flag parse_parts with_target
    with_ports with_namespace is_multi_spec is_numeric cut_text lookup load load_chain load_raw
    apply_environment detect_format validate_config check_services validate_service check_target
    check_ports check_single check_mode is_multi_port check_network parse_network duration_field
    check_jitter bandwidth_field check_chaos parse_chaos bool_val claims claimed_by check_listen
    check_hooks validate_supervisor check_durations bad_duration
loads-merged = refl

load_config-IsAccepted_example :
    (c : Config) × ((record given { config_file = "/dev.yaml"; cfg = some loaded }).cfg ≡ some c)
    × IsAccepted go_lib c
    × (all high_port c.services ≡ true)
load_config-IsAccepted_example =
    load_config-IsAccepted go_lib high_port sources flags given (web_flag ∷ [])
      (record given { config_file = "/dev.yaml"; cfg = some loaded }) web-parsed refl
      high-unless_disabled loads-merged
