-- ===== src/Handoff/Tests.antt =====
-- A configuration whose web service has the port of a running forward.
use kubeport.Config.{is_multi_port}
use kubeport.Prelude.{◌≡◌, refl, String, true, false, [], ◌∷◌, map, not, arith}
use kubeport.Prelude.Int.{wrap32, ℤ, pos}
use kubeport.Manager.{placeholder}
use kubeport.Manager.Steps.{new_manager}
use kubeport.Manager.Status.{shown_port, no_gauges, forward_status}
use kubeport.Daemon.{requested_service}
use kubeport.Daemon.Convert.{convert_state, ForwardStatusProto, convert_forward_status}
use kubeport.Handoff.{
  is_ready_state, each_ready, forward_port, owners_of, port_owners, find_owner, report_each,
  LiveInstance, service_info, service_config_to_proto, build_conflict_report, all_forwards_ready,
}
use kubeport.Handoff.Clash.{those, clashes, report-divides}
use kubeport.Handoff.Received.{received, requested-received}
use kubeport.Samples.{go_lib, web, db, platform, two_services}

abbrev web_forward : ForwardStatusProto
web_forward = convert_forward_status (
    forward_status go_lib (λ p. true) (λ n. no_gauges) (new_manager two_services) "web"
      (placeholder two_services web))

abbrev primary : LiveInstance
primary = record {
  entry = record {
    pid = pos 7;
    config_file = "/k.yaml";
    pid_file = "";
    log_file = "";
    socket = "/k.sock";
    tcp_address = "";
    auth_enabled = false;
    key_id = "";
    version = "";
    started_at = pos 0;
    delegate = false;
    primary_socket = "";
  };
  forwards = web_forward ∷ [];
}

web-clashes :
    (build_conflict_report (web ∷ db ∷ platform ∷ []) (primary ∷ [])).1 ≡ db ∷ platform ∷ []
unfolding build_conflict_report report_each is_multi_port find_owner port_owners owners_of
    forward_port convert_forward_status wrap32 forward_status shown_port placeholder
web-clashes = refl

report-divides_example :
    ((build_conflict_report (web ∷ db ∷ platform ∷ []) (primary ∷ [])).1
      ≡ those (λ s. not (clashes (primary ∷ []) s)) (web ∷ db ∷ platform ∷ []))
    × (map {B = String × ℤ}
          (λ c. (c.service_name, c.port))
          (build_conflict_report (web ∷ db ∷ platform ∷ []) (primary ∷ [])).0
        ≡ map {B = String × ℤ}
            (λ s. (s.name, s.local_port))
            (those (clashes (primary ∷ [])) (web ∷ db ∷ platform ∷ [])))
report-divides_example = report-divides (web ∷ db ∷ platform ∷ []) (primary ∷ [])

requested-received_example :
    requested_service
      (record (service_config_to_proto platform) { source_config = "/dev.yaml" })
      (service_info platform)
    ≡ received "/dev.yaml" platform
requested-received_example =
    requested-received "/dev.yaml" platform (omega arith, omega arith) (omega arith, omega arith)
      (omega arith, omega arith)

starting-not_ready : all_forwards_ready (web_forward ∷ []) ≡ false
unfolding all_forwards_ready each_ready is_ready_state convert_forward_status convert_state
    forward_status placeholder
starting-not_ready = refl
