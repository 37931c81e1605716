-- ===== src/Attempt/PodEvents/Replacement.antt =====
-- The pod that a forward is told to move to.
use kubeport.Prelude.{
  ◌≡◌, ◌≢◌, String, Bool, true, false, ◌&&◌, ◌||◌, Option, none, some, List, [], ◌∷◌, any, arith,
  str_eq, str_eq_iff, str_eq_refl, Option-cases, inl, inr, ap, ◌∙◌,
}
use kubeport.Prelude.Int.{ℤ}
use kubeport.Prelude.Result.{Result, ok, err, Result-cases}
use kubeport.Config.{ServiceConfig, is_pod}
use kubeport.Pods.{Pod, Answers, choose_pod, resolve_pod}
use kubeport.Pods.Chosen.{eligible}
use kubeport.Manager.{ManagerError}
use kubeport.Attempt.PodEvents.{Preemption, PodEvent, signal, handle_pod_event}

-- a pod of that name that is running and not marked for deletion
abbrev pub has_eligible : String → List Pod → Bool
has_eligible name pods = any (λ p. str_eq p.name name && eligible p) pods

abbrev is_named : String → Option Pod → Bool
is_named name none = false
is_named name (some p) = str_eq p.name name

choose_pod-eligible :
    (name : String) (fallback : Option Pod) (pods : List Pod)
    → is_named name (choose_pod fallback pods) ≡ true
    → (is_named name fallback || has_eligible name pods) ≡ true
unfolding choose_pod
choose_pod-eligible name none [] chosen = chosen
choose_pod-eligible name (some f) [] chosen = ground (arith, chosen)
choose_pod-eligible name none (p ∷ rest) chosen =
    ground (arith, choose_pod-eligible name none rest, choose_pod-eligible name (some p) rest)
choose_pod-eligible name (some f) (p ∷ rest) chosen =
    ground (arith, choose_pod-eligible name (some f) rest)

resolve_pod-eligible :
    (s : ServiceConfig) (answers : Answers) (name : String) (port : ℤ)
    → is_pod s ≡ false
    → resolve_pod s answers ≡ ok (name, port)
    → (pods : List Pod) × (answers.pods ≡ some pods) × (has_eligible name pods ≡ true)
unfolding resolve_pod
resolve_pod-eligible s answers name port direct resolved = elim (Option-cases answers.pods) [
  | inl missing ↦ absurd (ground (arith, missing))
  | inr (pods, given) ↦
      (pods, given, ground (arith, given, str_eq_refl name, choose_pod-eligible name none pods))
]

-- an answer without a pod moves nothing
stays-put :
    (h : Preemption) (evt : PodEvent) (answer : Result ManagerError (String × ℤ)) (e : ManagerError)
    (name : String)
    → answer ≡ err e
    → h.pending ≡ none
    → (handle_pod_event h evt answer).pending ≡ some name
    → ⊥
unfolding handle_pod_event
stays-put h evt answer e name failed idle moved = ground (arith, failed, idle, moved)

moves-to :
    (h : Preemption) (evt : PodEvent) (answer : Result ManagerError (String × ℤ)) (pod : String)
    (port : ℤ) (name : String)
    → answer ≡ ok (pod, port)
    → h.pending ≡ none
    → (handle_pod_event h evt answer).pending ≡ some name
    → (evt.pod_name ≡ h.current_pod) × (name ≢ h.current_pod) × (pod ≡ name)
unfolding handle_pod_event signal
moves-to h evt answer pod port name resolved idle moved = ground (
  arith,
  resolved,
  idle,
  moved,
  str_eq_iff evt.pod_name h.current_pod,
  str_eq_iff pod h.current_pod,
)

-- If a pod event makes a forward to a service move, the event says that the pod of the forward is
-- being deleted, and the pod to move to is another one, which is running and not marked for
-- deletion.
pub preempts-eligible :
    (h : Preemption) (evt : PodEvent) (s : ServiceConfig) (answers : Answers) (name : String)
    → is_pod s ≡ false
    → h.pending ≡ none
    → (handle_pod_event h evt (resolve_pod s answers)).pending ≡ some name
    → (evt.pod_name ≡ h.current_pod)
      × (name ≢ h.current_pod)
      × ((pods : List Pod) × (answers.pods ≡ some pods) × (has_eligible name pods ≡ true))
preempts-eligible h evt s answers name direct idle moved =
    elim (Result-cases (resolve_pod s answers)) [
      | inl (e, failed) ↦ absurd (stays-put h evt (resolve_pod s answers) e name failed idle moved)
      | inr ((pod, port), resolved) ↦
          let (same, differs, chosen) =
            moves-to h evt (resolve_pod s answers) pod port name resolved idle moved in
          (
            same,
            differs,
            resolve_pod-eligible s answers name port direct
                (resolved ∙ ap (λ n. ok (n, port)) chosen),
          )
    ]
