-- ===== src/Config/Toml/Tests.antt =====
-- A configuration with a multi-port service and a selected port, written and read back.
use kubeport.Prelude.{◌≡◌, refl, [], ◌∷◌, map}
use kubeport.Prelude.Int.{pos}
use kubeport.Prelude.Result.{ok}
use kubeport.Config.{Config, no_ports}
use kubeport.Config.PortsField.{is_simple, Raw, Emitted, word, names, structs, raw_text, raw_list}
use kubeport.Config.PortsField.RoundTrip.{items_of}
use kubeport.Config.Toml.{marshal_toml, unmarshal_toml}
use kubeport.Config.Toml.RoundTrip.{persisted, reread_config, unmarshal-marshal_toml}
use kubeport.Samples.{web, platform, blank_config}

abbrev reread : Emitted → Raw
reread (word w) = raw_text w
reread (names ns) = raw_list (items_of (names ns))
reread (structs ss) = raw_list (items_of (structs ss))

abbrev three_services : Config
three_services = record blank_config {
  services =
      web
      ∷ platform
      ∷ record platform {
        name = "grpc";
        exclude_ports = [];
        ports = record no_ports {
          selectors = record { name = "grpc"; port = pos 0; local_port = pos 9090 } ∷ [];
        };
      }
      ∷ [];
}

unmarshal-marshal_toml_example :
    unmarshal_toml (reread_config reread (marshal_toml three_services)) blank_config
    ≡ ok (record three_services { services = map persisted three_services.services })
unfolding is_simple
unmarshal-marshal_toml_example =
    unmarshal-marshal_toml reread three_services blank_config (λ w. refl, λ ns. refl, λ ss. refl)
      refl
