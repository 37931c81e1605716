-- ===== src/Pods/Tests.antt =====
-- A service whose target port is named, with a pod that is not ready yet before one that is.
use kubeport.Config.{is_pod}
use kubeport.Prelude.{Bool, ◌≡◌, refl, true, false, some, List, [], ◌∷◌, String}
use kubeport.Prelude.Int.{pos}
use kubeport.Prelude.Result.{ok}
use kubeport.Pods.{
  Pod, ServiceSpec, Answers, resolve_pod, resolve_named_port, is_ready, wanted_by, wanted_port,
  port_of, choose_pod,
}
use kubeport.Pods.Chosen.{resolve_pod-preferred}
use kubeport.Samples.{web}

abbrev pod_of : String → List (String × Bool) → Pod
pod_of pod_name pod_conditions = record {
  name = pod_name;
  running = true;
  terminating = false;
  conditions = pod_conditions;
  ports = record { name = "http"; port = pos 8061 } ∷ [];
}

abbrev spec : ServiceSpec
spec = record {
  has_selector = true;
  ports = record { port = pos 80; target_port = record { int_value = pos 0; text = "http" } } ∷ [];
}

abbrev pods : List Pod
pods = pod_of "web-0" [] ∷ pod_of "web-1" (("Ready", true) ∷ []) ∷ []

abbrev answers : Answers
answers = record { service = some spec; pods = some pods }

web-resolves : resolve_pod web answers ≡ ok ("web-1", pos 8061)
unfolding resolve_pod is_pod choose_pod is_ready port_of wanted_port wanted_by resolve_named_port
web-resolves = refl

resolve_pod-preferred_example : resolve_pod web answers ≡ ok ("web-1", pos 8061)
unfolding port_of is_pod is_ready wanted_port wanted_by resolve_named_port
resolve_pod-preferred_example = resolve_pod-preferred web spec pods refl refl
