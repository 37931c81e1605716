-- ===== src/Pods/PortBounds.antt =====
-- The port that resolvePod chooses is a port.
use kubeport.Prelude.{◌≡◌, ◌≢◌, String, List, [], ◌∷◌, arith}
use kubeport.Prelude.Int.{ℤ, pos}
use kubeport.Prelude.Result.{ok}
use kubeport.Config.{ServiceConfig}
use kubeport.Pods.{
  Pod, ServicePort, TargetPort, Wanted, Answers, resolve_pod, port_of, wanted_port, wanted_by,
}

-- the number among what is wanted is not 0
number_wanted :
    (remote_port : ℤ) (t : TargetPort) → remote_port ≢ pos 0 → (wanted_by remote_port t).0 ≢ pos 0
unfolding wanted_by
number_wanted remote_port t nonzero = ground arith

wanted_port-≢0 :
    (remote_port : ℤ) (ports : List ServicePort)
    → remote_port ≢ pos 0
    → (wanted_port remote_port ports).0 ≢ pos 0
unfolding wanted_port
wanted_port-≢0 remote_port [] nonzero = nonzero
wanted_port-≢0 remote_port (p ∷ rest) nonzero = ground (
  arith,
  wanted_port-≢0 remote_port rest nonzero,
  number_wanted remote_port p.target_port nonzero,
)

port_of-≢0 : (w : Wanted) (p : Pod) → w.0 ≢ pos 0 → port_of w p ≢ pos 0
unfolding port_of
port_of-≢0 (n, name) p nonzero = ground arith

-- A port that resolvePod returns for a service with a remote port other than 0 is not 0: neither the
-- target port 0, nor a named port that the pod lacks or declares as 0, is ever forwarded to.
pub resolve_pod-≢0 :
    (s : ServiceConfig) (answers : Answers) {name : String} {port : ℤ}
    → s.remote_port ≢ pos 0
    → resolve_pod s answers ≡ ok (name, port)
    → port ≢ pos 0
unfolding resolve_pod
resolve_pod-≢0 s answers nonzero resolved =
    let wanted_of : (ports : List ServicePort) (p : Pod)
        → port_of (wanted_port s.remote_port ports) p ≢ pos 0 =
      λ ports p.
        port_of-≢0 (wanted_port s.remote_port ports) p
          (wanted_port-≢0 s.remote_port ports nonzero) in
    grind (arith, wanted_of)
