-- ===== src/Hook.antt =====
-- internal/hook/hook.go and build.go: event types, the construction of a hook from its
-- configuration, and the dispatcher. What a hook's command, process or request does is the
-- parameter `succeeds`.
pub mod Names
pub mod Gate
pub mod Build
pub mod Template
pub mod Runners
mod Tests
use kubeport.Prelude.{
  ℕ, String, Bool, true, false, ◌&&◌, ◌||◌, not, Option, none, some, List, [], ◌∷◌, ◌++◌, any,
  str_eq, if◌then◌else◌, is_some,
}
use kubeport.Prelude.Int.{ℤ, pos, eq_ℤ}
use kubeport.Prelude.Result.{Result, ok, err, ◌>>=◌, ◌>>◌}
use kubeport.Prelude.Table.{Table, lookup}
use kubeport.Prelude.GoLib.{GoLib}
use kubeport.Config.{HookConfig, WebhookConfig, ExecConfig, is_empty, nonempty}

pub data EventType : Type 0 where
  manager_starting manager_stopped forward_connected forward_disconnected forward_failed : EventType
  forward_stopped health_check_failed service_added service_removed pod_terminating : EventType

-- EventType.String
unfoldable pub event_name : EventType → String
event_name manager_starting = "manager:starting"
event_name manager_stopped = "manager:stopped"
event_name forward_connected = "forward:connected"
event_name forward_disconnected = "forward:disconnected"
event_name forward_failed = "forward:failed"
event_name forward_stopped = "forward:stopped"
event_name health_check_failed = "health:check_failed"
event_name service_added = "service:added"
event_name service_removed = "service:removed"
event_name pod_terminating = "pod:terminating"

-- eventNames, with the legacy names
abbrev pub event_names : Table EventType
event_names =
    ("manager:starting", manager_starting)
    ∷ ("manager:stopped", manager_stopped)
    ∷ ("forward:connected", forward_connected)
    ∷ ("forward:disconnected", forward_disconnected)
    ∷ ("forward:failed", forward_failed)
    ∷ ("forward:stopped", forward_stopped)
    ∷ ("health:check_failed", health_check_failed)
    ∷ ("service:added", service_added)
    ∷ ("service:removed", service_removed)
    ∷ ("pod:terminating", pod_terminating)
    ∷ ("manager_starting", manager_starting)
    ∷ ("manager_stopped", manager_stopped)
    ∷ ("forward_connected", forward_connected)
    ∷ ("forward_disconnected", forward_disconnected)
    ∷ ("forward_failed", forward_failed)
    ∷ ("forward_stopped", forward_stopped)
    ∷ ("health_check_failed", health_check_failed)
    ∷ ("service_added", service_added)
    ∷ ("service_removed", service_removed)
    ∷ ("pod_terminating", pod_terminating)
    ∷ []

-- ParseEventType
unfoldable pub parse_event_type : String → Option EventType
parse_event_type s = lookup s event_names

-- two event types are the same
unfoldable pub same_event : EventType → EventType → Bool
unfolding event_name
same_event a b = str_eq (event_name a) (event_name b)

pub record Event : Type 0 where
  pub kind : EventType
  pub service : String
  pub parent_name : String
  pub port_name : String
  pub local_port : ℤ
  pub remote_port : ℤ
  pub pod_name : String
  pub restarts : ℤ
  pub error : Option String

pub data FailMode : Type 0 where
  fail_open fail_closed : FailMode

-- the three implementations of Hook; only a shell hook is a GateHook
pub data HookKind : Type 0 where
  shell_hook : List (EventType × String) → HookKind
  webhook_hook : WebhookConfig → HookKind
  exec_hook : List String → HookKind

pub record Hook : Type 0 where
  pub name : String
  pub kind : HookKind
  pub filter : List String

-- what is registered; an empty list of events stands for nil, all events
pub record RegisteredHook : Type 0 where
  pub hook : Hook
  pub events : List EventType
  pub fail_mode : FailMode
  pub timeout : ℤ

-- Dispatcher.Register
unfoldable pub register_hook : List RegisteredHook → RegisteredHook → List RegisteredHook
register_hook hooks reg =
    hooks
    ++ record reg { timeout = if eq_ℤ reg.timeout (pos 0) then pos 10_000_000_000 else reg.timeout }
      ∷ []

-- `rh.events == nil || rh.events[event.Type]`
unfoldable pub subscribed : RegisteredHook → EventType → Bool
subscribed rh t = not (nonempty rh.events) || any (same_event t) rh.events

-- matchesFilter, on the list that buildFilter turns into a set
unfoldable pub matches_filter : List String → Event → Bool
matches_filter filter e =
    if not (nonempty filter)
    then true
    else if is_empty e.service
    then true
    else if any (str_eq e.service) filter
    then true
    else not (is_empty e.parent_name) && any (str_eq e.parent_name) filter

abbrev pub is_gate_hook : HookKind → Bool
is_gate_hook (shell_hook commands) = true
is_gate_hook (webhook_hook w) = false
is_gate_hook (exec_hook command) = false

abbrev pub is_closed : FailMode → Bool
is_closed fail_closed = true
is_closed fail_open = false

-- a hook's function that the dispatcher calls: Gate, which it waits for, or OnEvent beside it
pub data Call : Type 0 where
  gate_call on_event_call : String → Call

-- what Fire has called, and the hook that blocked the operation
abbrev pub Fired : Type 0
Fired = List Call × Option String

-- the command of a shell hook for an event type
abbrev pub command_for : EventType → List (EventType × String) → Option String
command_for t [] = none
command_for t ((e, cmd) ∷ rest) = if same_event t e then some cmd else command_for t rest

module _ (succeeds : String → Event → Bool) where
  -- shellHook.run: no command for the event, or a service that is filtered out, is no failure
  unfoldable pub run_shell : Hook → List (EventType × String) → Event → Bool
  run_shell h commands e =
      if not (matches_filter h.filter e)
      then true
      else elim (command_for e.kind commands) [ none ↦ true | some cmd ↦ succeeds cmd e ]

  abbrev pub gate : Hook → HookKind → Event → Bool
  gate h (shell_hook commands) e = run_shell h commands e
  gate h (webhook_hook w) e = true
  gate h (exec_hook command) e = true

  -- fireGate
  unfoldable pub fire_gate : RegisteredHook → Event → Fired
  fire_gate rh e =
      if not (is_gate_hook rh.hook.kind)
      then (on_event_call rh.hook.name ∷ [], none)
      else if not (gate rh.hook rh.hook.kind e) && is_closed rh.fail_mode
      then (gate_call rh.hook.name ∷ [], some rh.hook.name)
      else (gate_call rh.hook.name ∷ [], none)

  -- one hook that is subscribed to the event
  unfoldable pub fire_one : RegisteredHook → Event → Fired
  fire_one rh e =
      if same_event e.kind manager_starting
      then fire_gate rh e
      else (on_event_call rh.hook.name ∷ [], none)

  abbrev pub and_then : Fired → Fired → Fired
  and_then (calls, some name) later = (calls, some name)
  and_then (calls, none) (more, blocked) = (calls ++ more, blocked)

  -- Dispatcher.Fire
  unfoldable pub fire : List RegisteredHook → Event → Fired
  fire [] e = ([], none)
  fire (rh ∷ rest) e =
      let later = fire rest e in
      if not (subscribed rh e.kind) then later else and_then (fire_one rh e) later
