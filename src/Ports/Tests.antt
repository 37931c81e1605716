-- ===== src/Ports/Tests.antt =====
-- Port resolution of a service and of a pod with three ports.
use kubeport.Config.Keyed.{index}
use kubeport.Prelude.Table.{empty, lookup}
use kubeport.Prelude.{◌≡◌, refl, true, List, [], ◌∷◌, map}
use kubeport.Prelude.Int.{wrap64, pos, ◌+ℤ◌}
use kubeport.Prelude.Result.{ok}
use kubeport.Manager.Expand.{ResolvedPort}
use kubeport.Ports.{
  some_resolved, offset_port, selector_overrides, compute_local_port, excluded, resolve_each,
  KubePort, selected_ports, resolve_service_ports, resolve_pod_ports, local_port_of,
}
use kubeport.Ports.Range.{
  IsResolved, kept, as_resolved, service_keep, resolve_service_ports-IsResolved,
}
use kubeport.Samples.{go_lib, platform}

abbrev spec : List KubePort
spec =
    record { name = "http"; port = pos 80 }
    ∷ record { name = "debug"; port = pos 6060 }
    ∷ record { name = "metrics"; port = pos 9090 }
    ∷ []

abbrev resolved : List ResolvedPort
resolved =
    record { name = "http"; remote_port = pos 80; local_port = pos 10_080 }
    ∷ record { name = "metrics"; remote_port = pos 9090; local_port = pos 19_090 }
    ∷ []

service-resolves : resolve_service_ports go_lib platform spec ≡ ok resolved
unfolding resolve_service_ports selected_ports resolve_each excluded local_port_of
    compute_local_port lookup selector_overrides index empty offset_port wrap64 ◌+ℤ◌ some_resolved
service-resolves = refl

resolve_service_ports-IsResolved_example :
    IsResolved platform resolved
    × (true ≡ true
        → resolved ≡ map (as_resolved (local_port_of platform)) (kept (service_keep platform) spec))
resolve_service_ports-IsResolved_example =
    resolve_service_ports-IsResolved go_lib platform spec resolved service-resolves

pod-resolves : resolve_pod_ports platform spec ≡ ok resolved
unfolding resolve_pod_ports resolve_each excluded local_port_of compute_local_port lookup
    selector_overrides index empty offset_port wrap64 ◌+ℤ◌ some_resolved
pod-resolves = refl
