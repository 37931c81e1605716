-- ===== src/External/Tests.antt =====
-- Another instance owns one service by its name and one by its port.
use kubeport.Prelude.{◌≡◌, ◌&&◌, List, [], ◌∷◌, any, str_eq}
use kubeport.Prelude.Int.{pos}
use kubeport.External.{RemoteForward, detect_external_conflicts}
use kubeport.External.Owned.{owns, reported, detect-reported}
use kubeport.Manager.Order.{occurrences, tally}
use kubeport.Samples.{web, db, two_services}

abbrev remote : List RemoteForward
remote =
    record {
      instance_endpoint = "/tmp/other.sock";
      pid = pos 42;
      config_file = "/other.yaml";
      service_name = "web";
      actual_port = pos 9000;
      local_port = pos 0;
    }
    ∷ record {
      instance_endpoint = "/tmp/other.sock";
      pid = pos 42;
      config_file = "/other.yaml";
      service_name = "";
      actual_port = pos 0;
      local_port = pos 5432;
    }
    ∷ []

detect-reported_example :
    occurrences "db" (reported (detect_external_conflicts two_services remote))
    ≡ tally (any (λ s. str_eq s.name "db" && any (owns s) remote) (web ∷ db ∷ []))
detect-reported_example = detect-reported two_services remote "db"
