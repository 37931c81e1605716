-- ===== src/Config/Toml/RoundTrip.antt =====
-- What marshalTOML writes, unmarshalTOML reads back.
use kubeport.Prelude.{◌≡◌, refl, true, none, some, List, [], ◌∷◌, map, all, arith}
use kubeport.Prelude.Result.{ok}
use kubeport.Config.{ServiceConfig, Config}
use kubeport.Config.PortsField.{Raw, Emitted}
use kubeport.Config.PortsField.RoundTrip.{RereadsRaw, no_name_all, canonical, parse-emit_toml}
use kubeport.Config.Toml.{
  ServiceConfigToml, ConfigToml, emit_service, marshal_toml, ports_of, service_with, read_services,
  unmarshal_toml,
}

-- the fields of a service that are kept in a file
abbrev pub persisted : ServiceConfig → ServiceConfig
persisted s = record s {
  ports = canonical s.ports;
  parent_name = "";
  port_name = "";
  source_config = "";
}

-- the file as it is decoded again
abbrev pub reread_service : (Emitted → Raw) → ServiceConfigToml Emitted → ServiceConfigToml Raw
reread_service reread s = record {
  name = s.name;
  service = s.service;
  pod = s.pod;
  local_port = s.local_port;
  remote_port = s.remote_port;
  namespace = s.namespace;
  ports = elim s.ports [ none ↦ none | some e ↦ some (reread e) ];
  exclude_ports = s.exclude_ports;
  local_port_offset = s.local_port_offset;
  network = s.network;
  chaos = s.chaos;
  lazy = s.lazy;
  connection_mode = s.connection_mode;
}

abbrev pub reread_config : (Emitted → Raw) → ConfigToml Emitted → ConfigToml Raw
reread_config reread c = record {
  extends = c.extends;
  context = c.context;
  namespace = c.namespace;
  log_file_path = c.log_file_path;
  log_level = c.log_level;
  listen = c.listen;
  api_key = c.api_key;
  key_id = c.key_id;
  host = c.host;
  services = map (reread_service reread) c.services;
  hooks = c.hooks;
  supervisor = c.supervisor;
  network = c.network;
  chaos = c.chaos;
  socks = c.socks;
  http_proxy = c.http_proxy;
}

ports_of-emit_ports :
    (reread : Emitted → Raw) (s : ServiceConfig)
    → RereadsRaw reread
    → no_name_all s.ports ≡ true
    → ports_of (reread_service reread (emit_service s)).ports ≡ ok (canonical s.ports)
unfolding ports_of emit_service
ports_of-emit_ports reread s rereads allowed =
    ground (arith, parse-emit_toml reread s.ports rereads allowed)

read-emit_services :
    (reread : Emitted → Raw) (services : List ServiceConfig)
    → RereadsRaw reread
    → all (λ s. no_name_all s.ports) services ≡ true
    → read_services (map (reread_service reread) (map emit_service services))
      ≡ ok (map persisted services)
unfolding read_services service_with emit_service
read-emit_services reread [] rereads allowed = refl
read-emit_services reread (s ∷ rest) rereads allowed =
    ground (arith, ports_of-emit_ports reread s rereads, read-emit_services reread rest rereads)

-- A configuration that marshalTOML writes is read back by unmarshalTOML with every setting that is
-- kept in a file: only the path and format, which are not written, the marks of a running service
-- and selectors beside "all" are not, if no service selects a port by the name "all" alone.
pub unmarshal-marshal_toml :
    (reread : Emitted → Raw) (c fresh : Config)
    → RereadsRaw reread
    → all (λ s. no_name_all s.ports) c.services ≡ true
    → unmarshal_toml (reread_config reread (marshal_toml c)) fresh
      ≡ ok (record c {
        services = map persisted c.services;
        file_path = fresh.file_path;
        format = fresh.format;
      })
unfolding unmarshal_toml marshal_toml
unmarshal-marshal_toml reread c fresh rereads allowed =
    ground (arith, read-emit_services reread c.services rereads allowed)
