-- ===== src/Handoff/Clash.antt =====
-- The report divides the services by whether a running instance has their port.
use kubeport.Prelude.{
  ◌≡◌, refl, String, Bool, ◌&&◌, ◌||◌, not, List, [], ◌∷◌, any, map, arith, is_some, if◌then◌else◌,
  Bool-cases, inl, inr,
}
use kubeport.Prelude.Int.{ℤ, pos, eq_ℤ}
use kubeport.Config.{ServiceConfig, is_multi_port}
use kubeport.Instances.{Entry}
use kubeport.Daemon.Convert.{ForwardStatusProto}
use kubeport.Handoff.{
  LiveInstance, Owner, forward_port, owners_of, port_owners, find_owner, report_each, conflict_with,
  build_conflict_report,
}

-- a forward with that local port
abbrev has_port : ℤ → ForwardStatusProto → Bool
has_port port fw = not (eq_ℤ (forward_port fw) (pos 0)) && eq_ℤ (forward_port fw) port

-- some running instance has a forward with that local port
abbrev pub held_by : List LiveInstance → ℤ → Bool
held_by live port = any (λ inst. any (has_port port) inst.forwards) live

-- a service with a fixed local port that a running instance has
abbrev pub clashes : List LiveInstance → ServiceConfig → Bool
clashes live s =
    not (eq_ℤ s.local_port (pos 0)) && not (is_multi_port s) && held_by live s.local_port

-- the services that pass a test
abbrev pub those : (ServiceConfig → Bool) → List ServiceConfig → List ServiceConfig
those test [] = []
those test (s ∷ rest) = if test s then s ∷ those test rest else those test rest

found-owners_of :
    (port : ℤ) (t : List (ℤ × Owner)) (e : Entry) (fws : List ForwardStatusProto)
    → is_some (find_owner port (owners_of t e fws))
      ≡ (is_some (find_owner port t) || any (has_port port) fws)
unfolding owners_of find_owner
found-owners_of port t e [] = ground arith
found-owners_of port t e (fw ∷ rest) =
    let o : Owner = record {
      service_name = fw.service.name;
      pid = e.pid;
      config_file = e.config_file;
    } in
    elim (Bool-cases (eq_ℤ (forward_port fw) (pos 0))) [
      | inl zero_port ↦ rw zero_port (ground (arith, found-owners_of port t e rest))
      | inr real ↦ rw real (ground (arith, found-owners_of port ((forward_port fw, o) ∷ t) e rest))
    ]

found-port_owners :
    (port : ℤ) (t : List (ℤ × Owner)) (live : List LiveInstance)
    → is_some (find_owner port (port_owners t live))
      ≡ (is_some (find_owner port t) || held_by live port)
unfolding port_owners
found-port_owners port t [] = ground arith
found-port_owners port t (inst ∷ rest) = ground (
  arith,
  found-owners_of port t inst.entry inst.forwards,
  found-port_owners port (owners_of t inst.entry inst.forwards) rest,
)

report_each-those :
    (live : List LiveInstance) (services : List ServiceConfig)
    → ((report_each (port_owners [] live) services).1 ≡ those (λ s. not (clashes live s)) services)
      × (map {B = String × ℤ}
            (λ c. (c.service_name, c.port))
            (report_each (port_owners [] live) services).0
          ≡ map {B = String × ℤ} (λ s. (s.name, s.local_port)) (those (clashes live) services))
unfolding report_each conflict_with find_owner
report_each-those live [] = (refl, refl)
report_each-those live (s ∷ rest) =
    ground (arith, report_each-those live rest, found-port_owners s.local_port [] live)

-- The services without conflict are those, in their order, that have no fixed local port, are
-- multi-port or have a port that no running instance has; the conflicts name the others, in their
-- order, each with its port.
pub report-divides :
    (services : List ServiceConfig) (live : List LiveInstance)
    → ((build_conflict_report services live).1 ≡ those (λ s. not (clashes live s)) services)
      × (map {B = String × ℤ}
            (λ c. (c.service_name, c.port))
            (build_conflict_report services live).0
          ≡ map {B = String × ℤ} (λ s. (s.name, s.local_port)) (those (clashes live) services))
unfolding build_conflict_report
report-divides services live = report_each-those live services
