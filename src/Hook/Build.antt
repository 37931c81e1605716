-- ===== src/Hook/Build.antt =====
-- BuildFromConfig of internal/hook/build.go with newShellHook and newExecHook.
pub mod Inferred
use kubeport.Prelude.{
  ℕ, String, Bool, true, false, not, Option, none, some, List, [], ◌∷◌, ◌++◌, str_eq, if◌then◌else◌,
}
use kubeport.Prelude.Int.{ℤ, pos}
use kubeport.Prelude.Result.{Result, ok, err, ◌>>=◌, ◌>>◌}
use kubeport.Prelude.Table.{Table}
use kubeport.Prelude.GoLib.{GoLib}
use kubeport.Config.{HookConfig, WebhookConfig, ExecConfig, is_empty, nonempty}
use kubeport.Hook.{
  EventType, parse_event_type, FailMode, fail_open, fail_closed, HookKind, shell_hook, webhook_hook,
  exec_hook, Hook, RegisteredHook,
}

pub data BuildError : Type 0 where
  invalid_timeout unknown_event unknown_type : String → BuildError
  commands_required url_required command_required : BuildError

-- the loop over the named events
unfoldable pub parse_events : List String → Result BuildError (List EventType)
parse_events [] = ok []
parse_events (name ∷ rest) =
    let later = parse_events rest in
    elim (parse_event_type name) [
      | none ↦ err (unknown_event name)
      | some t ↦ do more ← later; ok (t ∷ more)
    ]

-- newShellHook's loop over the commands; the latest command of an event stands first
unfoldable pub parse_commands :
    List (EventType × String) → Table String → Result BuildError (List (EventType × String))
parse_commands commands [] = ok commands
parse_commands commands ((name, cmd) ∷ rest) = elim (parse_event_type name) [
  | none ↦ err (unknown_event name)
  | some t ↦ parse_commands ((t, cmd) ∷ commands) rest
]

-- the events of the shell commands, where none are named
unfoldable pub inferred_events : Table String → List EventType
inferred_events [] = []
inferred_events ((name, cmd) ∷ rest) =
    let others = inferred_events rest in
    elim (parse_event_type name) [ none ↦ others | some t ↦ t ∷ others ]

unfoldable pub build_shell :
    HookConfig → List EventType → Result BuildError (HookKind × List EventType)
build_shell hc events = if not (nonempty hc.shell) then err commands_required else do
  commands ← parse_commands [] hc.shell
  ok (shell_hook commands, if nonempty events then events else inferred_events hc.shell)

unfoldable pub build_webhook :
    HookConfig → List EventType → Result BuildError (HookKind × List EventType)
build_webhook hc events = elim hc.webhook [
  | none ↦ err url_required
  | some w ↦ if is_empty w.url then err url_required else ok (webhook_hook w, events)
]

unfoldable pub build_exec :
    HookConfig → List EventType → Result BuildError (HookKind × List EventType)
build_exec hc events = elim hc.exec [
  | none ↦ err command_required
  | some x ↦ if nonempty x.command then ok (exec_hook x.command, events) else err command_required
]

-- the switch over the type
unfoldable pub build_kind :
    HookConfig → List EventType → Result BuildError (HookKind × List EventType)
build_kind hc events =
    if str_eq hc.kind "shell"
    then build_shell hc events
    else if str_eq hc.kind "webhook"
    then build_webhook hc events
    else if str_eq hc.kind "exec"
    then build_exec hc events
    else err (unknown_type hc.kind)

unfoldable pub parse_timeout : GoLib → String → Result BuildError ℤ
parse_timeout lib s =
    if is_empty s
    then ok (pos 10_000_000_000)
    else elim (lib.parse_duration s) [ none ↦ err (invalid_timeout s) | some d ↦ ok d ]

unfoldable pub registration : HookConfig → ℤ → HookKind × List EventType → RegisteredHook
registration hc timeout (kind, events) = record {
  hook = record { name = hc.name; kind = kind; filter = hc.filter_services };
  events = events;
  fail_mode = if str_eq hc.fail_mode "closed" then fail_closed else fail_open;
  timeout = timeout;
}

-- BuildFromConfig
unfoldable pub build_from_config : GoLib → HookConfig → Result BuildError RegisteredHook
build_from_config lib hc = do
  timeout ← parse_timeout lib hc.timeout
  events ← parse_events hc.events
  built ← build_kind hc events
  ok (registration hc timeout built)
