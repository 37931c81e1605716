-- ===== src/Daemon/Errors.antt =====
-- A request that the daemon answers with an error changes nothing.
use kubeport.Prelude.{
  ℕ, ◌≡◌, String, Bool, true, false, Option, none, some, List, arith, Option-cases, inl, inr,
}
use kubeport.Prelude.Result.{Result, ok, err}
use kubeport.Prelude.Table.{has}
use kubeport.Prelude.GoLib.{GoLib}
use kubeport.Config.{ServiceConfig}
use kubeport.Manager.{Manager, do_add, do_remove, remove_single}
use kubeport.Manager.Commands.{add_service, failed_with}
use kubeport.Manager.Status.{ForwardStatus}
use kubeport.Daemon.{
  Code, Server, Served, AddServiceRequest, Surroundings, requested_service, serve_add_service,
  serve_remove_service, serve_reload, serve_apply, serve_update_chaos, serve_release_by_source,
}
use kubeport.Daemon.Convert.{ServiceInfo}
use kubeport.Daemon.ChaosParams.{ChaosRequest}

-- the requests that can be refused
pub data Request : Type 0 where
  adds : List (List ForwardStatus) → AddServiceRequest → Request
  removes : String → Bool → Request
  reloads : Request
  applies : List ServiceInfo → Request
  updates_chaos : ChaosRequest → Request
  releases : String → Request

-- the error of an answer
abbrev pub failure_of : {A : Type 0} → Result Code A → Option Code
failure_of (ok a) = none
failure_of (err e) = some e

abbrev pub reduced : {A : Type 0} → Served A → Server × Option Code
reduced (srv, answer) = (srv, failure_of answer)

-- the server after a request and the error of the answer; `none` means that the fuel of a reload ran
-- out
unfoldable pub respond : GoLib → Surroundings → ℕ → Server → Request → Option (Server × Option Code)
respond lib around fuel srv (adds polls req) =
    some (reduced (serve_add_service lib around polls srv req))
respond lib around fuel srv (removes name persist) =
    some (reduced (serve_remove_service lib around srv name persist))
respond lib around fuel srv reloads = elim (serve_reload lib around fuel srv) [
  | none ↦ none
  | some served ↦ some (reduced served)
]
respond lib around fuel srv (applies services) =
    some (reduced (serve_apply lib around srv services))
respond lib around fuel srv (updates_chaos req) =
    some (reduced (serve_update_chaos lib around srv req))
respond lib around fuel srv (releases source) =
    some (reduced (serve_release_by_source lib around srv source))

-- the removal of the parent of a multi-port service
abbrev pub removes_parent : Request → Server → Bool
removes_parent (removes name persist) srv = has name srv.mgr.children
removes_parent _ srv = false

add_service-failed :
    (lib : GoLib) (m : Manager) (s : ServiceConfig)
    → failed_with (add_service lib m s).1 ≡ true
    → (add_service lib m s).0 ≡ m
unfolding add_service do_add
add_service-failed lib m s failed = ground arith

do_remove-failed :
    (m : Manager) (name : String)
    → has name m.children ≡ false
    → failed_with (do_remove m name).1 ≡ true
    → (do_remove m name).0 ≡ m
unfolding do_remove remove_single
do_remove-failed m name single failed = ground arith

-- A request that the daemon answers with an error leaves its manager and the files as they were, but
-- for the removal of the parent of a multi-port service, whose children are removed as far as they
-- are there.
pub respond-unchanged :
    (lib : GoLib) (around : Surroundings) (fuel : ℕ) (srv : Server) (req : Request) {after : Server}
    {e : Code}
    → removes_parent req srv ≡ false
    → respond lib around fuel srv req ≡ some (after, some e)
    → after ≡ srv
unfolding respond serve_add_service serve_remove_service serve_reload serve_apply serve_update_chaos
    serve_release_by_source
respond-unchanged lib around fuel srv (adds polls req) apart refused =
    elim (Option-cases req.service) [
      | inl missing ↦ ground (arith, missing)
      | inr (si, given) ↦
          ground (arith, given, add_service-failed lib srv.mgr (requested_service req si))
    ]
respond-unchanged lib around fuel srv (removes name persist) apart refused =
    ground (arith, do_remove-failed srv.mgr name)
respond-unchanged lib around fuel srv reloads apart refused = ground arith
respond-unchanged lib around fuel srv (applies services) apart refused = ground arith
respond-unchanged lib around fuel srv (updates_chaos req) apart refused = ground arith
respond-unchanged lib around fuel srv (releases source) apart refused = ground arith
