-- ===== src/Cli/Add/Tests.antt =====
-- A single-port service; and excluded ports beside names, which the command lets pass.
use kubeport.Prelude.{◌≡◌, refl, String, false, some, none, List, [], ◌∷◌}
use kubeport.Prelude.Int.{pos, wrap32}
use kubeport.Prelude.Result.{ok, err}
use kubeport.Prelude.Table.{lookup}
use kubeport.Config.{is_multi_port, ports_is_set}
use kubeport.Config.Error.{exclude_without_all}
use kubeport.Config.Validate.{validate_service, check_target, check_ports, check_multi}
use kubeport.Daemon.{AddServiceRequest, requested_service}
use kubeport.Daemon.Convert.{ServiceInfo, service_info_to_config, port_spec_to_config}
use kubeport.Cli.ServiceFlag.{FlagLib}
use kubeport.Cli.Add.{
  cmd_add, parse_add_args, set_add_flag, port_of_text, check_add_target, check_add_ports,
  add_request, add_info, add_port_spec,
}
use kubeport.Cli.Add.Valid.{cmd_add-valid}
use kubeport.Samples.{go_lib}

abbrev flags : FlagLib
flags = record {
  split_colon = λ s. s ∷ [];
  split_comma = λ s. s ∷ [];
  atoi = λ s. lookup s (("80", pos 80) ∷ ("8080", pos 8080) ∷ []);
}

abbrev nginx : ServiceInfo
nginx = record {
  name = "web";
  service = "nginx";
  pod = "";
  local_port = pos 8080;
  remote_port = pos 80;
  namespace = "";
  parent_name = "";
  port_name = "";
}

abbrev web_args : List String
web_args =
    "--name" ∷ "web" ∷ "--service" ∷ "nginx" ∷ "--remote-port" ∷ "80" ∷ "--local-port" ∷ "8080" ∷ []

abbrev web_request : AddServiceRequest
web_request = record { service = some nginx; persist = false; ports = none; source_config = "" }

web-sent : cmd_add flags web_args ≡ ok web_request
unfolding cmd_add parse_add_args set_add_flag port_of_text check_add_target check_add_ports
    add_request add_info lookup wrap32
web-sent = refl

cmd_add-valid_example :
    (si : ServiceInfo) × (web_request.service ≡ some si)
    × (validate_service go_lib (requested_service web_request si) ≡ ok tt)
cmd_add-valid_example = cmd_add-valid go_lib flags web_args web_request web-sent refl

abbrev platform : ServiceInfo
platform = record nginx { name = "p"; service = "p"; local_port = pos 0; remote_port = pos 0 }

abbrev http_request : AddServiceRequest
http_request = record {
  service = some platform;
  persist = false;
  ports = some (record {
    all = false;
    port_names = "http" ∷ [];
    exclude_ports = "debug" ∷ [];
    local_port_offset = pos 0;
  });
  source_config = "";
}

http-sent :
    cmd_add flags
      ("--name" ∷ "p" ∷ "--service" ∷ "p" ∷ "--ports" ∷ "http" ∷ "--exclude-ports" ∷ "debug" ∷ [])
    ≡ ok http_request
unfolding cmd_add parse_add_args set_add_flag check_add_target check_add_ports add_request add_info
    add_port_spec lookup wrap32
http-sent = refl

http-refused :
    validate_service go_lib (requested_service http_request platform) ≡ err exclude_without_all
unfolding validate_service requested_service service_info_to_config port_spec_to_config check_target
    check_ports check_multi is_multi_port ports_is_set
http-refused = refl
