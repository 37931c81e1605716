-- ===== src/Hook/Build/Inferred.antt =====
-- A shell hook without named events hears exactly the events that it has a command for.
use kubeport.Prelude.{
  ◌≡◌, String, true, ◌||◌, List, [], ◌∷◌, any, str_eq_iff, arith, Bool-cases, Option-cases, inl,
  inr, is_some,
}
use kubeport.Prelude.Result.{ok, ◌>>=◌, >>=-eq-ok, ok_injective}
use kubeport.Prelude.Int.{ℤ}
use kubeport.Prelude.Table.{Table}
use kubeport.Prelude.GoLib.{GoLib}
use kubeport.Config.{HookConfig, nonempty}
use kubeport.Hook.{
  EventType, parse_event_type, same_event, HookKind, shell_hook, webhook_hook, exec_hook,
  RegisteredHook, subscribed, command_for,
}
use kubeport.Hook.Build.{
  parse_events, parse_commands, inferred_events, build_shell, build_kind, registration,
  build_from_config, parse_timeout,
}

-- the commands of a shell hook
abbrev pub commands_of : HookKind → List (EventType × String)
commands_of (shell_hook commands) = commands
commands_of (webhook_hook w) = []
commands_of (exec_hook command) = []

parse_commands-inferred :
    (t : EventType) (table : Table String) (acc commands : List (EventType × String))
    → parse_commands acc table ≡ ok commands
    → is_some (command_for t commands)
      ≡ (any (same_event t) (inferred_events table) || is_some (command_for t acc))
unfolding parse_commands inferred_events
parse_commands-inferred t [] acc commands h = ground arith
parse_commands-inferred t ((name, cmd) ∷ rest) acc commands h =
    elim (Option-cases (parse_event_type name)) [
      | inl e ↦ ground (arith, h, e)
      | inr (x, e) ↦ ground (
        arith,
        h,
        e,
        parse_commands-inferred t rest ((x, cmd) ∷ acc) commands,
        Bool-cases (same_event t x),
      )
    ]

inferred_some :
    (table : Table String) (acc commands : List (EventType × String))
    → parse_commands acc table ≡ ok commands
    → nonempty table ≡ true
    → nonempty (inferred_events table) ≡ true
unfolding parse_commands inferred_events
inferred_some [] acc commands h e = cc
inferred_some ((name, cmd) ∷ rest) acc commands h e = elim (Option-cases (parse_event_type name)) [
  | inl p ↦ ground (arith, h, p)
  | inr (x, p) ↦ ground (arith, p)
]

build_shell-hears :
    (hc : HookConfig) (kind : HookKind) (events : List EventType) (t : EventType)
    → build_shell hc [] ≡ ok (kind, events)
    → (nonempty events ≡ true)
      × (is_some (command_for t (commands_of kind)) ≡ any (same_event t) events)
unfolding build_shell
build_shell-hears hc kind events t h = elim (Bool-cases (nonempty hc.shell)) [
  | inr none_ ↦ ground (arith, h, none_)
  | inl some_ ↦
      let e : (parse_commands [] hc.shell >>= λ commands.
      ok (shell_hook commands, inferred_events hc.shell))
          ≡ ok (kind, events) =
        rw some_ at h in
      let (commands, parsed, is) = >>=-eq-ok (parse_commands [] hc.shell) _ e in
      ground (
        arith,
        is,
        inferred_some hc.shell [] commands parsed some_,
        parse_commands-inferred t hc.shell [] commands parsed,
      )
]

hears :
    (hc : HookConfig) (timeout : ℤ) (events : List EventType) (built : HookKind × List EventType)
    (rh : RegisteredHook) (t : EventType)
    → parse_events hc.events ≡ ok events
    → build_kind hc events ≡ ok built
    → registration hc timeout built ≡ rh
    → hc.kind ≡ "shell"
    → hc.events ≡ []
    → subscribed rh t ≡ is_some (command_for t (commands_of rh.hook.kind))
unfolding parse_events build_kind registration subscribed
hears hc timeout events (kind, heard) rh t parsed built is shell unnamed =
    let none_named : parse_events [] ≡ ok events = rw unnamed at parsed in
    let empty_ : [] ≡ events = ok_injective none_named in
    let by_shell : build_shell hc [] ≡ ok (kind, heard) =
      ground (arith, built, str_eq_iff hc.kind "shell", shell, empty_) in
    let (some_, alike) = build_shell-hears hc kind heard t by_shell in
    rw (← is) (ground (arith, some_, alike))

-- A hook that is built from a shell configuration without named events is subscribed to an event
-- type exactly if it has a command for it; in particular it is never subscribed to all events.
pub subscribed-build_from_config :
    (lib : GoLib) (hc : HookConfig) (rh : RegisteredHook) (t : EventType)
    → build_from_config lib hc ≡ ok rh
    → hc.kind ≡ "shell"
    → hc.events ≡ []
    → subscribed rh t ≡ is_some (command_for t (commands_of rh.hook.kind))
unfolding build_from_config
subscribed-build_from_config lib hc rh t h shell unnamed =
    let (timeout, timed, rest) = >>=-eq-ok (parse_timeout lib hc.timeout) _ h in
    let (events, parsed, rest₂) = >>=-eq-ok (parse_events hc.events) _ rest in
    let (result, built, is) = >>=-eq-ok (build_kind hc events) _ rest₂ in
    hears hc timeout events result rh t parsed built (ok_injective is) shell unnamed
