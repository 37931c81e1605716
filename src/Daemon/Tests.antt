-- ===== src/Daemon/Tests.antt =====
-- A daemon with a file of two services.
use kubeport.Config.Chaos.{parse_chaos}
use kubeport.Config.Network.{parse_network, duration_field, check_jitter, bandwidth_field}
use kubeport.Config.Validate.{
  validate_service, check_target, check_ports, check_single, check_network, check_chaos, check_mode,
  validate_config, check_services, claims, claimed_by, check_listen, check_hooks,
  validate_supervisor, check_durations, bad_duration,
}
use kubeport.Manager.{
  PortForward, do_add, reserve_forward, conflict, port_holder, register, placeholder, held_port,
  namespace_of, remove_single, do_remove,
}
use kubeport.Prelude.{◌≡◌, refl, String, true, false, none, some, [], ◌∷◌, ◌++◌, map}
use kubeport.Prelude.Int.{wrap32, pos}
use kubeport.Prelude.Result.{ok}
use kubeport.Prelude.Table.{insert, empty, lookup, delete, has}
use kubeport.Prelude.GoLib.{GoLib}
use kubeport.Config.{bool_val, is_multi_port, Config, format_yaml, format_toml}
use kubeport.Config.Load.{
  load, load_chain, apply_environment, migrate_hook_event_names, detect_format, load_raw,
}
use kubeport.Config.Toml.RoundTrip.{persisted}
use kubeport.Config.Validate.Accepted.{IsAccepted}
use kubeport.Config.Edit.{Disk, load_for_edit}
use kubeport.Manager.Commands.{
  add_service, reload, remove_stale, child_names, desired_services, readd_each, readd_one,
  prune_external, add_new, refresh_external_forwards,
}
use kubeport.Manager.Commands.Stale.{NoChild}
use kubeport.Manager.Commands.Reload.{names_it}
use kubeport.Manager.Steps.{new_manager}
use kubeport.Daemon.{
  serve_remove_service, Server, AddServiceRequest, Surroundings, decoded, requested_service,
  serve_add_service, serve_reload, not_found,
}
use kubeport.Daemon.Convert.{service_info_to_config, ServiceInfo}
use kubeport.Daemon.Errors.{removes, respond, respond-unchanged}
use kubeport.Daemon.Reloads.{loaded, reload-IsAccepted}
use kubeport.Daemon.Persisted.{read_back, add-persists}
use kubeport.Config.PortsField.{Raw, Emitted, word, names, structs, raw_text, raw_list, emit_ports}
use kubeport.Config.PortsField.RoundTrip.{items_of}
use kubeport.Config.Toml.{
  marshal_toml, unmarshal_toml, read_services, ports_of, service_with, emit_service,
}
use kubeport.Samples.{go_lib, two_services, blank_config}

abbrev around : Surroundings
around = record {
  decode = λ e. some e.content;
  environment = record { k8s_context = ""; k8s_namespace = ""; kubeport_api_key = "" };
  detector = λ c. none;
  uuid = "new-id";
  failures = record { marshal = false; directory = false; write = false };
}

abbrev file : Disk
file = ("/k.yaml", record { format = format_yaml; content = two_services }) ∷ []

abbrev server : Server
server = record {
  mgr = new_manager two_services;
  cfg = record two_services { file_path = "/k.yaml" };
  disk = file;
}

unknown-refused :
    respond go_lib around 2 server (removes "gone" true) ≡ some (server, some not_found)
unfolding respond serve_remove_service do_remove lookup new_manager remove_single
unknown-refused = refl

respond-unchanged_example : server ≡ server
unfolding lookup new_manager
respond-unchanged_example =
    respond-unchanged go_lib around 2 server (removes "gone" true) refl unknown-refused

abbrev api : ServiceInfo
api = record {
  name = "api";
  service = "api";
  pod = "";
  local_port = pos 9000;
  remote_port = pos 80;
  namespace = "";
  parent_name = "";
  port_name = "";
}

abbrev add_api : AddServiceRequest
add_api = record { service = some api; persist = true; ports = none; source_config = "" }

abbrev toml_lib : GoLib
toml_lib = record go_lib { ext = λ path. ".toml" }

abbrev reread : Emitted → Raw
reread (word w) = raw_text w
reread (names ns) = raw_list (items_of (names ns))
reread (structs ss) = raw_list (items_of (structs ss))

abbrev toml_around : Surroundings
toml_around = record around { decode = λ e. read_back reread blank_config e.content }

abbrev toml_config : Config
toml_config = record two_services { file_path = "/k.toml"; format = format_toml }

abbrev toml_server : Server
toml_server = record {
  mgr = new_manager two_services;
  cfg = toml_config;
  disk = ("/k.toml", record { format = format_toml; content = two_services }) ∷ [];
}

abbrev added : Server
added = (serve_add_service toml_lib toml_around [] toml_server add_api).0

toml-loads :
    load_for_edit toml_lib (decoded toml_around.decode toml_server.disk) "/k.toml" ≡ ok toml_config
unfolding load_for_edit load_raw decoded lookup detect_format read_back unmarshal_toml marshal_toml
    read_services ports_of service_with emit_service emit_ports
toml-loads = refl

api-added : serve_add_service toml_lib toml_around [] toml_server add_api ≡ (added, ok (pos 9000))
unfolding serve_add_service requested_service service_info_to_config wrap32 held_port namespace_of
    validate_service check_target check_ports is_multi_port check_single check_network parse_network
    duration_field check_jitter bandwidth_field check_chaos parse_chaos bool_val check_mode do_add
    reserve_forward lookup conflict port_holder register insert placeholder add_service new_manager
api-added = refl

add-persists_example :
    ((c : Config) × (load_for_edit toml_lib (decoded toml_around.decode added.disk) "/k.toml"
        ≡ ok c)
      × (c.services ≡ map persisted (toml_config.services ++ requested_service add_api api ∷ [])))
    × ((p : String)
        → lookup p (delete "/k.toml" added.disk) ≡ lookup p (delete "/k.toml" toml_server.disk))
unfolding requested_service service_info_to_config
add-persists_example =
    add-persists toml_lib toml_around (refl, refl, refl) [] toml_server add_api api toml_config
      reread blank_config refl refl refl toml-loads refl (λ w. refl, λ ns. refl, λ ss. refl)
      (λ e f. refl) refl refl api-added

abbrev file_config : Config
file_config = record two_services { file_path = "/k.yaml"; format = format_yaml }

abbrev reloaded : Server
reloaded = record server { mgr = (reload go_lib (new_manager two_services) file_config none).0 }

file-reloads : serve_reload go_lib around 2 server ≡ some (reloaded, ok (pos 2, pos 0))
unfolding serve_reload load load_chain load_raw decoded apply_environment validate_config
    check_services claims claimed_by check_listen check_hooks validate_supervisor check_durations
    bad_duration reload refresh_external_forwards remove_stale child_names desired_services
    readd_each readd_one prune_external add_new empty wrap32 detect_format migrate_hook_event_names
    validate_service check_target check_ports is_multi_port check_single check_network parse_network
    duration_field check_jitter bandwidth_field check_chaos parse_chaos bool_val check_mode do_add
    reserve_forward lookup conflict port_holder register insert placeholder add_service new_manager
file-reloads = refl

reload-IsAccepted_example :
    (c : Config) × (loaded go_lib around 2 server ≡ some (ok c))
    × IsAccepted go_lib c
    × (reloaded.disk ≡ server.disk)
    × ((n : String)
        → names_it n c.services ≡ false
        → NoChild n (refresh_external_forwards server.mgr none).children
        → lookup n reloaded.mgr.forwards ≡ none)
    × ((n : String) (pf : PortForward)
        → names_it n c.services ≡ true
        → NoChild n (refresh_external_forwards server.mgr none).children
        → has n (refresh_external_forwards server.mgr none).children ≡ false
        → lookup n (refresh_external_forwards server.mgr none).forwards ≡ some pf
        → lookup n reloaded.mgr.forwards ≡ some pf)
reload-IsAccepted_example = reload-IsAccepted go_lib around 2 server file-reloads
