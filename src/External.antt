-- ===== src/External.antt =====
-- internal/proxy/external.go: which services of a configuration another running instance owns.
pub mod Owned
mod Tests
use kubeport.Prelude.{
  String, Bool, true, false, ◌&&◌, ◌||◌, not, Option, none, some, List, [], ◌∷◌, any, str_eq,
  if◌then◌else◌,
}
use kubeport.Prelude.Int.{ℤ, pos, ltb_ℤ, eq_ℤ}
use kubeport.Prelude.Table.{Table, empty, lookup, insert}
use kubeport.Config.{ServiceConfig, Config, is_empty}
use kubeport.Manager.{ExternalForward}

pub record RemoteForward : Type 0 where
  pub instance_endpoint : String
  pub pid : ℤ
  pub config_file : String
  pub service_name : String
  pub actual_port : ℤ
  pub local_port : ℤ

-- the local port that the owning instance uses
unfoldable pub remote_held : RemoteForward → ℤ
remote_held fw = if eq_ℤ fw.actual_port (pos 0) then fw.local_port else fw.actual_port

-- `byName`: a later forward overwrites an earlier one
unfoldable pub by_name : Table RemoteForward → List RemoteForward → Table RemoteForward
by_name t [] = t
by_name t (fw ∷ rest) =
    by_name (if is_empty fw.service_name then t else insert fw.service_name fw t) rest

-- `byPort`, as a list of pairs with the latest first
unfoldable pub by_port : List (ℤ × RemoteForward) → List RemoteForward → List (ℤ × RemoteForward)
by_port t [] = t
by_port t (fw ∷ rest) =
    by_port (if ltb_ℤ (pos 0) (remote_held fw) then (remote_held fw, fw) ∷ t else t) rest

unfoldable pub port_owner : ℤ → List (ℤ × RemoteForward) → Option RemoteForward
port_owner port [] = none
port_owner port ((p, fw) ∷ rest) = if eq_ℤ p port then some fw else port_owner port rest

unfoldable pub as_external : ServiceConfig → RemoteForward → ExternalForward
as_external s fw = record {
  service = s;
  instance_endpoint = fw.instance_endpoint;
  pid = fw.pid;
  config_file = fw.config_file;
  actual_port = fw.actual_port;
}

-- the owner of a service: by its name first, then by its static local port
unfoldable pub owner_of :
    Table RemoteForward → List (ℤ × RemoteForward) → ServiceConfig → Option RemoteForward
owner_of names ports s = elim (lookup s.name names) [
  | some fw ↦ some fw
  | none ↦ if eq_ℤ s.local_port (pos 0) then none else port_owner s.local_port ports
]

-- the loop over the services; `seen` are the names reported so far
unfoldable pub detect_each :
    Table RemoteForward
    → List (ℤ × RemoteForward)
    → List String
    → List ServiceConfig
    → List ExternalForward
detect_each names ports seen [] = []
detect_each names ports seen (s ∷ rest) = elim (any (str_eq s.name) seen) [
  | true ↦ detect_each names ports seen rest
  | false ↦ elim (owner_of names ports s) [
    | none ↦ detect_each names ports seen rest
    | some fw ↦ as_external s fw ∷ detect_each names ports (s.name ∷ seen) rest
  ]
]

-- DetectExternalConflicts
unfoldable pub detect_external_conflicts : Config → List RemoteForward → List ExternalForward
detect_external_conflicts cfg remote =
    detect_each (by_name empty remote) (by_port [] remote) [] cfg.services
