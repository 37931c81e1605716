-- ===== src/Hook/Tests.antt =====
-- A VPN hook that fails closed before a notification hook.
use kubeport.Prelude.Table.{lookup}
use kubeport.Prelude.{◌≡◌, refl, String, Bool, false, none, List, [], ◌∷◌, any, is_some}
use kubeport.Prelude.Int.{pos}
use kubeport.Prelude.Result.{ok}
use kubeport.Config.{HookConfig}
use kubeport.Hook.{
  parse_event_type, Event, RegisteredHook, shell_hook, exec_hook, fail_open, fail_closed,
  manager_starting, forward_failed, fire,
}
use kubeport.Hook.Template.{Texts}
use kubeport.Hook.Gate.{blocks, reached, calls_of, fire-reached}
use kubeport.Hook.Build.{
  inferred_events, registration, parse_commands, build_shell, build_kind, parse_events,
  parse_timeout, build_from_config,
}
use kubeport.Samples.{go_lib}

abbrev vpn : RegisteredHook
vpn = record {
  hook = record {
    name = "vpn";
    kind = shell_hook ((manager_starting, "vpn up") ∷ []);
    filter = [];
  };
  events = manager_starting ∷ [];
  fail_mode = fail_closed;
  timeout = pos 1_000_000_000;
}

abbrev notify : RegisteredHook
notify = record {
  hook = record { name = "notify"; kind = exec_hook ("notify-send" ∷ []); filter = [] };
  events = [];
  fail_mode = fail_open;
  timeout = pos 1_000_000_000;
}

abbrev starting_event : Event
starting_event = record {
  kind = manager_starting;
  service = "";
  parent_name = "";
  port_name = "";
  local_port = pos 0;
  remote_port = pos 0;
  pod_name = "";
  restarts = pos 0;
  error = none;
}

-- no command succeeds
abbrev broken : String → Event → Bool
broken cmd e = false

fire-reached_example :
    (is_some (fire broken (vpn ∷ notify ∷ []) starting_event).1
      ≡ any (blocks broken starting_event) (vpn ∷ notify ∷ []))
    × ((fire broken (vpn ∷ notify ∷ []) starting_event).0
        ≡ calls_of broken starting_event (reached broken starting_event (vpn ∷ notify ∷ [])))
fire-reached_example = fire-reached broken (vpn ∷ notify ∷ []) starting_event

abbrev log_failures : HookConfig
log_failures = record {
  name = "log";
  kind = "shell";
  events = [];
  timeout = "";
  fail_mode = "";
  shell = ("forward:failed", "logger failed") ∷ [];
  webhook = none;
  exec = none;
  filter_services = [];
}

abbrev built : RegisteredHook
built = record {
  hook = record {
    name = "log";
    kind = shell_hook ((forward_failed, "logger failed") ∷ []);
    filter = [];
  };
  events = forward_failed ∷ [];
  fail_mode = fail_open;
  timeout = pos 10_000_000_000;
}

log_failures-builds : build_from_config go_lib log_failures ≡ ok built
unfolding build_from_config parse_timeout parse_events build_kind build_shell parse_commands
    parse_event_type lookup registration inferred_events
log_failures-builds = refl

abbrev texts : Texts
texts = record { itoa = λ n. "8080"; time_of = λ e. "2026-01-02T03:04:05Z"; json_encode = λ s. s }

-- a service whose name would end a command
abbrev named_badly : Event
named_badly = record starting_event { service = "db;rm" }

abbrev command : List String
command = "notify-send" ∷ "${SERVICE}:${PORT}" ∷ []
