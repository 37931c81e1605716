-- ===== src/Cli.antt =====
-- internal/cli/cli.go: the flags of the command line. A message and an exit are a value.
pub mod ServiceFlag
pub mod LoadConfig
pub mod Add
pub mod Chaos
pub mod Flags
mod Tests
use kubeport.Prelude.{
  String, Bool, true, false, Option, none, some, List, [], ◌∷◌, ◌++◌, if◌then◌else◌,
}
use text.Mathlib.Text.{starts_with}
use kubeport.Prelude.Int.{ℤ, pos}
use kubeport.Prelude.GoLib.{GoLib, cut_prefix}
use kubeport.Prelude.Table.{Table, lookup}
use kubeport.Prelude.Result.{Result, ok, err, ◌>>=◌}
use kubeport.Config.{Config, is_empty}

pub record App : Type 0 where
  pub config_file : String
  pub no_config : Bool
  pub cfg : Option Config
  pub cli_context : String
  pub cli_namespace : String
  pub cli_services : List String
  pub disable_services : List String
  pub start_wait : Bool
  pub start_timeout : ℤ
  pub offload : Bool
  pub delegate : Bool
  pub primary_socket : String
  pub status_json : Bool
  pub status_sort : Bool
  pub remote_host : String
  pub api_key : String
  pub watch_interval : ℤ
  pub verbose : Bool

abbrev pub new_app : App
new_app = record {
  config_file = "";
  no_config = false;
  cfg = none;
  cli_context = "";
  cli_namespace = "";
  cli_services = [];
  disable_services = [];
  start_wait = false;
  start_timeout = pos 0;
  offload = false;
  delegate = false;
  primary_socket = "";
  status_json = false;
  status_sort = false;
  remote_host = "";
  api_key = "";
  watch_interval = pos 0;
  verbose = false;
}

-- the flags with a value
pub data Valued : Type 0 where
  config context namespace svc disable_svc primary_socket timeout host api_key time : Valued

-- how parseArgs ends the program
pub data Exit : Type 0 where
  requires_value : String → Exit
  invalid_duration : Valued → Exit
  unknown_flag : String → Exit
  shows_help shows_version : Exit

abbrev pub valued_flags : Table Valued
valued_flags =
    ("--config", config)
    ∷ ("-c", config)
    ∷ ("--context", context)
    ∷ ("--kube-context", context)
    ∷ ("--namespace", namespace)
    ∷ ("-n", namespace)
    ∷ ("--svc", svc)
    ∷ ("--disable-svc", disable_svc)
    ∷ ("--primary-socket", primary_socket)
    ∷ ("--timeout", timeout)
    ∷ ("--host", host)
    ∷ ("--api-key", api_key)
    ∷ ("--time", time)
    ∷ []

abbrev pub assigned_flags : Table Valued
assigned_flags =
    ("--config=", config)
    ∷ ("--context=", context)
    ∷ ("--kube-context=", context)
    ∷ ("--namespace=", namespace)
    ∷ ("--svc=", svc)
    ∷ ("--disable-svc=", disable_svc)
    ∷ ("--primary-socket=", primary_socket)
    ∷ ("--timeout=", timeout)
    ∷ ("--host=", host)
    ∷ ("--api-key=", api_key)
    ∷ ("--time=", time)
    ∷ []

-- the flags without a value
pub data Switch : Type 0 where
  no_config_switch json sort offload_switch delegate_switch wait verbose_switch help version :
      Switch

abbrev pub switches : Table Switch
switches =
    ("--no-config", no_config_switch)
    ∷ ("--json", json)
    ∷ ("--sort", sort)
    ∷ ("--offload", offload_switch)
    ∷ ("--delegate", delegate_switch)
    ∷ ("--wait", wait)
    ∷ ("--verbose", verbose_switch)
    ∷ ("--help", help)
    ∷ ("-h", help)
    ∷ ("--version", version)
    ∷ ("-v", version)
    ∷ []

-- the flag and the value of an argument like --host=h
unfoldable pub assigned_in : Table Valued → String → Option (Valued × String)
assigned_in [] arg = none
assigned_in ((front, flag) ∷ flags) arg = elim (cut_prefix arg front) [
  | some value ↦ some (flag, value)
  | none ↦ assigned_in flags arg
]

-- a duration, by what it sets
unfoldable pub set_duration : GoLib → Valued → String → (ℤ → App) → Result Exit App
set_duration lib flag value set = elim (lib.parse_duration value) [
  | none ↦ err (invalid_duration flag)
  | some d ↦ ok (set d)
]

unfoldable pub set_value : GoLib → Valued → String → App → Result Exit App
set_value lib config value a = ok (record a { config_file = value })
set_value lib context value a = ok (record a { cli_context = value })
set_value lib namespace value a = ok (record a { cli_namespace = value })
set_value lib svc value a = ok (record a { cli_services = a.cli_services ++ value ∷ [] })
set_value lib disable_svc value a =
    ok (record a { disable_services = a.disable_services ++ value ∷ [] })
set_value lib primary_socket value a = ok (record a { primary_socket = value })
set_value lib timeout value a =
    set_duration lib timeout value (λ d. record a { start_timeout = d; start_wait = true })
set_value lib host value a = ok (record a { remote_host = value })
set_value lib api_key value a = ok (record a { api_key = value })
set_value lib time value a = set_duration lib time value (λ d. record a { watch_interval = d })

unfoldable pub flip_switch : Switch → App → Result Exit App
flip_switch no_config_switch a = ok (record a { no_config = true })
flip_switch json a = ok (record a { status_json = true })
flip_switch sort a = ok (record a { status_sort = true })
flip_switch offload_switch a = ok (record a { offload = true })
flip_switch delegate_switch a = ok (record a { delegate = true })
flip_switch wait a = ok (record a { start_wait = true })
flip_switch verbose_switch a = ok (record a { verbose = true })
flip_switch help a = err shows_help
flip_switch version a = err shows_version

-- what has been parsed: the settings, the command and the arguments after it
pub record Parsed : Type 0 where
  pub app : App
  pub command : String
  pub remaining : List String

-- an argument that is no flag
unfoldable pub add_word : String → Parsed → Result Exit Parsed
add_word arg p =
    if is_empty p.command
    then if starts_with arg "-" then err (unknown_flag arg) else ok (record p { command = arg })
    else ok (record p { remaining = p.remaining ++ arg ∷ [] })

-- an argument that stands alone
unfoldable pub parse_one : GoLib → String → Parsed → Result Exit Parsed
parse_one lib arg p = elim (assigned_in assigned_flags arg) [
  | some (flag, value) ↦ do a ← set_value lib flag value p.app; ok (record p { app = a })
  | none ↦ elim (lookup arg switches) [
    | some switch ↦ do a ← flip_switch switch p.app; ok (record p { app = a })
    | none ↦ add_word arg p
  ]
]

-- the loop of parseArgs
unfoldable pub parse_each : GoLib → List String → Parsed → Result Exit Parsed
parse_each lib [] p = ok p
parse_each lib (arg ∷ []) p = elim (lookup arg valued_flags) [
  | some flag ↦ err (requires_value arg)
  | none ↦ parse_one lib arg p
]
parse_each lib (arg ∷ value ∷ rest) p = elim (lookup arg valued_flags) [
  | some flag ↦ do a ← set_value lib flag value p.app; parse_each lib rest (record p { app = a })
  | none ↦ do next ← parse_one lib arg p; parse_each lib (value ∷ rest) next
]

-- parseArgs
unfoldable pub parse_args : GoLib → List String → Result Exit Parsed
parse_args lib args = parse_each lib args (record { app = new_app; command = ""; remaining = [] })
