-- ===== src/Handoff/Received.antt =====
-- What a daemon receives of a service that is handed over.
use kubeport.Prelude.{
  ◌≡◌, ◌-◌, Bool-cases, inl, inr, ◌^◌, String, false, [], map, arith, if◌then◌else◌,
}
use kubeport.Prelude.Int.{ℤ, pos, negsuc, wrap32, ◌≤ℤ◌, ◌<ℤ◌}
use kubeport.Config.{
  ServiceConfig, PortSelector, PortsConfig, ports_is_set, no_ports, no_network, no_chaos,
}
use kubeport.Daemon.{requested_service}
use kubeport.Daemon.Convert.{service_info_to_config, port_spec_to_config}
use kubeport.Handoff.{selector_names, port_spec, service_info, service_config_to_proto}

abbrev by_name : String → PortSelector
by_name n = record { name = n; port = pos 0; local_port = pos 0 }

-- the ports as they arrive: selectors by name alone
abbrev pub received_ports : PortsConfig → PortsConfig
received_ports p = record {
  all = p.all;
  selectors = if p.all then [] else map by_name (selector_names p.selectors);
}

-- the service as it arrives
abbrev pub received : String → ServiceConfig → ServiceConfig
received source s = record {
  name = s.name;
  service = s.service;
  pod = s.pod;
  local_port = if ports_is_set s.ports then pos 0 else s.local_port;
  remote_port = if ports_is_set s.ports then pos 0 else s.remote_port;
  namespace = s.namespace;
  ports = received_ports s.ports;
  exclude_ports = [];
  local_port_offset = if ports_is_set s.ports then s.local_port_offset else pos 0;
  network = no_network;
  chaos = no_chaos;
  lazy = false;
  connection_mode = "";
  parent_name = "";
  port_name = "";
  source_config = source;
}

abbrev pub FitsInt32 : ℤ → Type 0
FitsInt32 n = ((negsuc (2 ^ 31 - 1) ≤ℤ n) × (n <ℤ pos (2 ^ 31)))

wrap32-FitsInt32 : (n : ℤ) → FitsInt32 n → wrap32 n ≡ n
unfolding wrap32
wrap32-FitsInt32 (pos n) fits = ground arith
wrap32-FitsInt32 (negsuc n) fits = ground arith

unset_ports : (p : PortsConfig) → ports_is_set p ≡ false → received_ports p ≡ no_ports
unfolding ports_is_set selector_names
unset_ports p unset = ground arith

-- A service that is handed over, with ports and an offset that fit 32 bits, is requested from the daemon with
-- its name, target, namespace, ports and offset, and marked by its source. Of its other settings
-- nothing arrives: port selectors lose their numbers and local ports, and the excluded ports, the
-- network and chaos settings, laziness and connection mode are those of a service without any.
pub requested-received :
    (source : String) (s : ServiceConfig)
    → FitsInt32 s.local_port
    → FitsInt32 s.remote_port
    → FitsInt32 s.local_port_offset
    → requested_service
        (record (service_config_to_proto s) { source_config = source })
        (service_info s)
      ≡ received source s
unfolding requested_service service_config_to_proto service_info port_spec service_info_to_config
    port_spec_to_config
requested-received source s local remote offset = elim (Bool-cases (ports_is_set s.ports)) [
  | inl set ↦ rw set (
      ground (
        arith,
        set,
        wrap32-FitsInt32 s.local_port local,
        wrap32-FitsInt32 s.remote_port remote,
        wrap32-FitsInt32 s.local_port_offset offset,
      ))
  | inr unset ↦ rw unset (
      ground (
        arith,
        unset,
        unset_ports s.ports unset,
        wrap32-FitsInt32 s.local_port local,
        wrap32-FitsInt32 s.remote_port remote,
      ))
]
