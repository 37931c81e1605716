-- ===== src/Daemon.antt =====
-- internal/daemon/server.go: the handlers of the daemon's requests. The manager runs; the file system,
-- the decoders, the environment and the detector of external forwards are arguments.
pub mod Convert
pub mod ChaosParams
pub mod Errors
pub mod Reloads
pub mod Persisted
mod Tests
use kubeport.Prelude.{
  ℕ, String, Bool, true, false, ◌&&◌, ◌||◌, not, Option, none, some, List, [], ◌∷◌, map, str_eq,
  if◌then◌else◌,
}
use kubeport.Prelude.Int.{ℤ, pos, eq_ℤ, ltb_ℤ, wrap32}
use kubeport.Prelude.Result.{Result, ok, err}
use kubeport.Prelude.Table.{Table, empty, lookup, insert}
use kubeport.Prelude.GoLib.{GoLib}
use kubeport.Config.{ServiceConfig, Config, is_empty, nonempty, is_multi_port}
use kubeport.Config.Error.{ConfigError}
use kubeport.Config.Validate.{validate_config}
use kubeport.Config.Load.{Environment, load}
use kubeport.Config.Edit
use kubeport.Config.Edit.{Encoded, Disk, SaveFailures, load_for_edit, save}
use kubeport.Manager.{Manager, ExternalForward, do_remove}
use kubeport.Manager.Commands.{add_service, apply, reload, release_by_source}
use kubeport.Manager.Mappings.{AddressMapping, mappings}
use kubeport.Manager.Status.{ForwardStatus, stop}
use kubeport.Manager.Chaos.{update_chaos, reset_chaos}
use kubeport.Daemon.Convert.{
  ServiceInfo, PortSpec, service_info_to_config, port_spec_to_config, ForwardStatusProto,
  convert_forward_status,
}
use kubeport.Daemon.ChaosParams.{ChaosRequest, chaos_params_from_proto}

-- codes of google.golang.org/grpc
pub data Code : Type 0 where
  invalid_argument already_exists not_found failed_precondition internal : Code

-- the server with what it changes: its manager and the files
pub record Server : Type 0 where
  pub mgr : Manager
  pub cfg : Config
  pub disk : Disk

pub record AddServiceRequest : Type 0 where
  pub service : Option ServiceInfo
  pub persist : Bool
  pub ports : Option PortSpec
  pub source_config : String

-- what surrounds the server: the decoder of a file, the environment, the detector of external
-- forwards, a new key id and the failures of saving
pub record Surroundings : Type 0 where
  pub decode : Encoded → Option Config
  pub environment : Environment
  pub detector : Config → Option (List ExternalForward)
  pub uuid : String
  pub failures : SaveFailures

-- the server after a request, and the answer
abbrev pub Served : Type 0 → Type 0
Served A = Server × Result Code A

-- the decoded content of a file
unfoldable pub decoded : (Encoded → Option Config) → Disk → String → Option Config
decoded decode disk path = elim (lookup path disk) [ none ↦ none | some e ↦ decode e ]

-- the service that an AddService request asks for
unfoldable pub requested_service : AddServiceRequest → ServiceInfo → ServiceConfig
requested_service req si =
    let svc = record (service_info_to_config si) { source_config = req.source_config } in
    elim req.ports [
      | none ↦ svc
      | some ps ↦
          let (selected, excluded, offset) = port_spec_to_config (some ps) in
          record svc {
            ports = selected;
            exclude_ports = excluded;
            local_port_offset = offset;
            remote_port = pos 0;
            local_port = pos 0;
          }
    ]

-- the first status of a name with an actual port
unfoldable pub port_in : String → List ForwardStatus → Option ℤ
port_in name [] = none
port_in name (fs ∷ rest) =
    let later = port_in name rest in
    if str_eq fs.service.name name && ltb_ℤ (pos 0) fs.actual_port
    then some (wrap32 fs.actual_port)
    else later

-- waitForActualPort; `polls` are the statuses that it reads until the deadline
unfoldable pub wait_for_actual_port : String → List (List ForwardStatus) → ℤ
wait_for_actual_port name [] = pos 0
wait_for_actual_port name (statuses ∷ polls) =
    let later = wait_for_actual_port name polls in
    elim (port_in name statuses) [ some port ↦ port | none ↦ later ]

-- the loop of Mappings that fills `addrs`
unfoldable pub address_table : Table String → List AddressMapping → Table String
address_table t [] = t
address_table t (m ∷ rest) = address_table (insert m.internal_addr m.local_addr t) rest

module _ (lib : GoLib) (around : Surroundings) where
  open around use {decode, environment, detector, uuid, failures}

  -- LoadForEdit, an edit and Save, whose errors are dropped
  unfoldable pub persist_edit : (Config → Result ConfigError Config) → String → Disk → Disk
  persist_edit edit path disk = elim (load_for_edit lib (decoded decode disk) path) [
    | err e ↦ disk
    | ok c ↦ elim (edit c) [ err e ↦ disk | ok c₁ ↦ (save failures uuid c₁ disk).disk ]
  ]

  unfoldable pub persisted_when : Bool → (Config → Result ConfigError Config) → Server → Server
  persisted_when asked edit srv =
      if asked && not (is_empty srv.cfg.file_path)
      then record srv { disk = persist_edit edit srv.cfg.file_path srv.disk }
      else srv

  -- Server.AddService, with the actual port that it answers
  unfoldable pub serve_add_service :
      List (List ForwardStatus) → Server → AddServiceRequest → Served ℤ
  serve_add_service polls srv req = elim req.service [
    | none ↦ (srv, err invalid_argument)
    | some si ↦
        let svc = requested_service req si in
        let (m, failure) = add_service lib srv.mgr svc in
        elim failure [
          | some e ↦ (record srv { mgr = m }, err already_exists)
          | none ↦ (
            persisted_when req.persist (λ c. Edit.add_service c svc) (record srv { mgr = m }),
            ok (
                if eq_ℤ svc.local_port (pos 0) && not (is_multi_port svc)
                then wait_for_actual_port svc.name polls
                else wrap32 svc.local_port),
          )
        ]
  ]

  -- Server.RemoveService
  unfoldable pub serve_remove_service : Server → String → Bool → Served (Unit {0})
  serve_remove_service srv name persist =
      if is_empty name
      then (srv, err invalid_argument)
      else let (m, failure) = do_remove srv.mgr name in
        elim failure [
          | some e ↦ (record srv { mgr = m }, err not_found)
          | none ↦ (
            persisted_when persist (λ c. Edit.remove_service c name) (record srv { mgr = m }),
            ok tt,
          )
        ]

  -- Server.Reload, with its two counts; `none` means that the fuel of the loading ran out
  unfoldable pub serve_reload : ℕ → Server → Option (Served (ℤ × ℤ))
  serve_reload fuel srv =
      if is_empty srv.cfg.file_path
      then some (srv, err failed_precondition)
      else elim (load lib (decoded decode srv.disk) fuel environment srv.cfg.file_path) [
        | none ↦ none
        | some (err e) ↦ some (srv, err internal)
        | some (ok c) ↦ elim (validate_config lib c) [
          | err e ↦ some (srv, err invalid_argument)
          | ok _ ↦
              let (m, added, removed) = reload lib srv.mgr c (detector c) in
              some (record srv { mgr = m }, ok (wrap32 (pos added), wrap32 (pos removed)))
        ]
      ]

  -- Server.Apply, with how many were added and skipped, and the names warned about
  unfoldable pub serve_apply : Server → List ServiceInfo → Served (ℤ × ℤ × List String)
  serve_apply srv services =
      if not (nonempty services)
      then (srv, err invalid_argument)
      else let (m, added, skipped, warnings) =
          apply lib srv.mgr (map service_info_to_config services) in
        (record srv { mgr = m }, ok (wrap32 (pos added), wrap32 (pos skipped), warnings))

  -- Server.UpdateChaos, with the names updated and those not found
  unfoldable pub serve_update_chaos : Server → ChaosRequest → Served (List String × List String)
  serve_update_chaos srv req = elim req.reset [
    | true ↦
        let (m, updated, missing) = reset_chaos lib srv.mgr req.services in
        (record srv { mgr = m }, ok (updated, missing))
    | false ↦ elim (chaos_params_from_proto req) [
      | err e ↦ (srv, err invalid_argument)
      | ok cfg ↦
          let (m, updated, missing) = update_chaos srv.mgr req.services cfg in
          (record srv { mgr = m }, ok (updated, missing))
    ]
  ]

  -- Server.ReleaseBySource
  unfoldable pub serve_release_by_source : Server → String → Served ℤ
  serve_release_by_source srv source =
      if is_empty source
      then (srv, err invalid_argument)
      else let (m, n) = release_by_source srv.mgr source in
        (record srv { mgr = m }, ok (wrap32 (pos n)))

  -- Server.Stop
  unfoldable pub serve_stop : Server → Served (Unit {0})
  serve_stop srv = (record srv { mgr = stop srv.mgr }, ok tt)

-- Server.Status, from the manager's statuses; the version of the program is an argument
pub record StatusResponse : Type 0 where
  pub kube_context : String
  pub namespace : String
  pub forwards : List ForwardStatusProto
  pub version : String

unfoldable pub serve_status : String → Server → List ForwardStatus → StatusResponse
serve_status running_version srv statuses = record {
  kube_context = srv.cfg.context;
  namespace = srv.cfg.namespace;
  forwards = map convert_forward_status statuses;
  version = running_version;
}

-- Server.Mappings; `none` as in the manager
unfoldable pub serve_mappings :
    GoLib → Server → String → Option (Table String × List AddressMapping)
serve_mappings lib srv domain = elim (mappings lib srv.mgr domain) [
  | none ↦ none
  | some listed ↦ some (address_table empty listed, listed)
]
