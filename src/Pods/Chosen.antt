-- ===== src/Pods/Chosen.antt =====
-- The single pass with a fallback chooses as two searches would.
use kubeport.Prelude.{
  ◌≡◌, refl, Bool, true, false, ◌&&◌, not, Option, none, some, List, [], ◌∷◌, arith, if◌then◌else◌,
}
use kubeport.Prelude.Result.{ok, err}
use kubeport.Config.{ServiceConfig, is_pod, target}
use kubeport.Manager.{kubernetes}
use kubeport.Pods.{Pod, ServiceSpec, is_ready, choose_pod, resolve_pod, port_of, wanted_port}

-- the first element that passes a test
abbrev pub first_of : {A : Type 0} → (A → Bool) → List A → Option A
first_of p [] = none
first_of p (x ∷ xs) = if p x then some x else first_of p xs

-- running, and not marked for deletion
abbrev pub eligible : Pod → Bool
eligible p = p.running && not p.terminating

abbrev pub ready : Pod → Bool
ready p = eligible p && is_ready p.conditions

abbrev pub or_instead : {A : Type 0} → Option A → Option A → Option A
or_instead (some a) b = some a
or_instead none b = b

choose_pod-searches :
    (fallback : Option Pod) (pods : List Pod)
    → choose_pod fallback pods
      ≡ or_instead (first_of ready pods) (or_instead fallback (first_of eligible pods))
unfolding choose_pod
choose_pod-searches none [] = refl
choose_pod-searches (some f) [] = refl
choose_pod-searches none (p ∷ rest) =
    ground (arith, choose_pod-searches none rest, choose_pod-searches (some p) rest)
choose_pod-searches (some f) (p ∷ rest) = ground (arith, choose_pod-searches (some f) rest)

-- the pod that is preferred
abbrev pub preferred : List Pod → Option Pod
preferred pods = or_instead (first_of ready pods) (first_of eligible pods)

-- For a service with a pod selector whose pods could be listed, resolvePod takes the first pod that is
-- running, not marked for deletion and ready, and without one the first that is running and not
-- marked for deletion; it fails exactly if there is neither. The port is the one that the service
-- wants of that pod.
pub resolve_pod-preferred :
    (s : ServiceConfig) (spec : ServiceSpec) (pods : List Pod)
    → is_pod s ≡ false
    → spec.has_selector ≡ true
    → resolve_pod s (record { service = some spec; pods = some pods }) ≡ (elim (preferred pods) [
      | none ↦ err (kubernetes (target s))
      | some p ↦ ok (p.name, port_of (wanted_port s.remote_port spec.ports) p)
    ])
unfolding resolve_pod
resolve_pod-preferred s spec pods direct selects =
    rw (direct, selects, choose_pod-searches none pods)
