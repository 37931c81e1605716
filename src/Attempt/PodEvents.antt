-- ===== src/Attempt/PodEvents.antt =====
-- The pod watcher of internal/proxy/pod_watcher.go and handlePodEvents of internal/proxy/manager.go: when
-- a forward is told to move to another pod.
pub mod Replacement
use kubeport.Prelude.{
  ℕ, String, Bool, true, false, ◌&&◌, not, Option, none, some, List, [], ◌∷◌, ◌++◌, length, ltb,
  str_eq, if◌then◌else◌,
}
use kubeport.Prelude.Int.{ℤ}
use kubeport.Prelude.Result.{Result, ok, err}
use kubeport.Hook.{EventType, pod_terminating}
use kubeport.Manager.{ManagerError}

-- what the watcher reads of a pod
pub record WatchedPod : Type 0 where
  pub name : String
  pub namespace : String
  pub resource_version : String
  pub terminating : Bool
  pub running : Bool

-- an event of the watch; its object may be something else than a pod
pub record WatchEvent : Type 0 where
  pub modified : Bool
  pub object : Option WatchedPod

-- podTerminating is the only kind that is sent
pub record PodEvent : Type 0 where
  pub pod_name : String
  pub namespace : String

-- the version for the next watch and the events that wait in the channel
pub record Watching : Type 0 where
  pub resource_version : String
  pub queue : List PodEvent

-- a send on the channel of eight, which is dropped if it is full
unfoldable pub offer : PodEvent → List PodEvent → List PodEvent
offer e queue = if ltb (length queue) 8 then queue ++ e ∷ [] else queue

-- one event in drain
unfoldable pub drain_one : Watching → WatchEvent → Watching
drain_one w evt = elim evt.object [
  | none ↦ w
  | some pod ↦ record w {
    resource_version = pod.resource_version;
    queue =
        if evt.modified && pod.terminating && pod.running
        then offer (record { pod_name = pod.name; namespace = pod.namespace }) w.queue
        else w.queue;
  }
]

unfoldable pub drain_each : Watching → List WatchEvent → Watching
drain_each w [] = w
drain_each w (evt ∷ rest) = drain_each (drain_one w evt) rest

-- drain, until the watch closes; it starts without a version
unfoldable pub drain : Watching → List WatchEvent → Watching
drain w events = drain_each (record w { resource_version = "" }) events

-- what the handler of pod events reads and writes
pub record Preemption : Type 0 where
  pub current_pod : String
  pub pending : Option String
  pub fired : List EventType

-- a send on the channel of one, which is dropped if a pod is pending
unfoldable pub signal : String → Option String → Option String
signal pod none = some pod
signal pod (some waiting) = some waiting

-- one event in handlePodEvents, with what resolving a pod then gives
unfoldable pub handle_pod_event :
    Preemption → PodEvent → Result ManagerError (String × ℤ) → Preemption
handle_pod_event h evt answer =
    if not (str_eq evt.pod_name h.current_pod)
    then h
    else let told = record h { fired = h.fired ++ pod_terminating ∷ [] } in
      elim answer [
        | err e ↦ told
        | ok (pod, port) ↦
            if str_eq pod h.current_pod
            then told
            else record told { pending = signal pod h.pending }
      ]
