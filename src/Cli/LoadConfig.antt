-- ===== src/Cli/LoadConfig.antt =====
-- loadConfig of internal/cli/cli.go: the configuration that a command works with, from a file, the
-- flags or both.
pub mod Accepted
use kubeport.Prelude.{
  ℕ, String, Bool, true, false, ◌&&◌, ◌||◌, not, Option, none, some, List, [], ◌∷◌, ◌++◌, any,
  str_eq, if◌then◌else◌, is_some,
}
use kubeport.Prelude.GoLib.{GoLib}
use kubeport.Prelude.Result.{Result, ok, err}
use kubeport.Config.{ServiceConfig, Config, is_empty, nonempty}
use kubeport.Config.Error.{ConfigError}
use kubeport.Config.Validate.{validate_config}
use kubeport.Config.Load.{Environment, load}
use kubeport.Config.Edit.{new_in_memory}
use kubeport.Cli.{App}
use kubeport.Cli.ServiceFlag.{FlagLib, SvcFlagError, parse_cli_services}

pub data LoadError : Type 0 where
  bad_flag : SvcFlagError → LoadError
  no_services_given : LoadError
  no_config_found : LoadError
  not_loaded : ConfigError → LoadError
  not_valid : ConfigError → LoadError

-- what reading the configuration depends on: the decoded files, a bound on the chain of parents,
-- the environment, what Discover gives, and strings.EqualFold
pub record Sources : Type 0 where
  pub decode : String → Option Config
  pub fuel : ℕ
  pub environment : Environment
  pub discovered : Option String
  pub equal_fold : String → String → Bool

-- --disable-svc
unfoldable pub is_disabled : GoLib → List String → ServiceConfig → Bool
is_disabled lib disabled s = any (λ n. str_eq (lib.to_lower n) (lib.to_lower s.name)) disabled

unfoldable pub without_disabled : GoLib → List String → List ServiceConfig → List ServiceConfig
without_disabled lib disabled [] = []
without_disabled lib disabled (s ∷ rest) =
    let kept = without_disabled lib disabled rest in
    if is_disabled lib disabled s then kept else s ∷ kept

-- --svc: in the place of the first service of that name, or at the end
unfoldable pub override_one :
    (String → String → Bool) → ServiceConfig → List ServiceConfig → List ServiceConfig
override_one equal_fold new [] = new ∷ []
override_one equal_fold new (s ∷ rest) =
    let later = override_one equal_fold new rest in
    if equal_fold s.name new.name then new ∷ rest else s ∷ later

unfoldable pub override_each :
    (String → String → Bool) → List ServiceConfig → List ServiceConfig → List ServiceConfig
override_each equal_fold [] services = services
override_each equal_fold (new ∷ rest) services =
    override_each equal_fold rest (override_one equal_fold new services)

unfoldable pub or_given : String → String → String
or_given given old = if is_empty given then old else given

-- the flags over what was loaded
unfoldable pub apply_flags : GoLib → Sources → App → List ServiceConfig → Config → Config
apply_flags lib src a cli c = record c {
  context = or_given a.cli_context c.context;
  namespace = or_given a.cli_namespace c.namespace;
  services = override_each src.equal_fold cli (without_disabled lib a.disable_services c.services);
}

-- the configuration, if it is valid
unfoldable pub accept : GoLib → App → Config → Result LoadError App
accept lib a c = elim (validate_config lib c) [
  | err e ↦ err (not_valid e)
  | ok _ ↦ ok (record a { cfg = some c })
]

-- buildConfigFromCLI
unfoldable pub build_config_from_cli : GoLib → App → List ServiceConfig → Result LoadError App
build_config_from_cli lib a services =
    if not (nonempty services)
    then err no_services_given
    else accept lib a (new_in_memory a.cli_context (or_given a.cli_namespace "default") services)

-- from the file at the path; `none` means that the fuel ran out
unfoldable pub load_file :
    GoLib → Sources → App → List ServiceConfig → String → Option (Result LoadError App)
load_file lib src a cli path = elim (load lib src.decode src.fuel src.environment path) [
  | none ↦ none
  | some (err e) ↦ some (err (not_loaded e))
  | some (ok c) ↦ some (accept lib (record a { config_file = path }) (apply_flags lib src a cli c))
]

unfoldable pub load_with :
    GoLib → Sources → App → List ServiceConfig → Option (Result LoadError App)
load_with lib src a cli =
    if a.no_config
    then some (build_config_from_cli lib a cli)
    else if not (is_empty a.config_file)
    then load_file lib src a cli a.config_file
    else elim src.discovered [
      | some path ↦ load_file lib src a cli path
      | none ↦
          if nonempty cli
          then some (build_config_from_cli lib a cli)
          else some (err no_config_found)
    ]

-- loadConfig
unfoldable pub load_config : GoLib → FlagLib → Sources → App → Option (Result LoadError App)
load_config lib f src a = elim (parse_cli_services lib f a.cli_services) [
  | err e ↦ some (err (bad_flag e))
  | ok cli ↦ load_with lib src a cli
]
