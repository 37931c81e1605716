-- ===== src/Config/Edit.antt =====
-- Editing and saving a configuration: AddService, RemoveService, LoadForEdit, LoadServices, Save, SaveTo,
-- Init, NewInMemory and the paths that depend on the configuration alone, of pkg/config/config.go.
-- The disk is a table from paths to what was encoded there; what the encoders and decoders do is an
-- argument.
pub mod Names
mod Tests
use kubeport.Prelude.{
  ℕ, suc, String, Bool, true, false, ◌&&◌, not, Option, none, some, List, [], ◌∷◌, ◌++◌, str_eq,
  if◌then◌else◌,
}
use kubeport.Prelude.Int.{pos}
use kubeport.Prelude.Result.{Result, ok, err}
use kubeport.Prelude.Table.{Table, lookup, insert, has}
use kubeport.Prelude.GoLib.{GoLib}
use kubeport.Config.{
  ServiceConfig, Config, Format, format_yaml, is_empty, no_network, no_chaos, SupervisorConfig,
  ProxyServerConfig,
}
use kubeport.Config.Error
use kubeport.Config.Error.{ConfigError}
use kubeport.Config.Validate.{validate_service}
use kubeport.Config.Load.{load_raw}

-- AddService
abbrev pub has_service : String → List ServiceConfig → Bool
has_service name [] = false
has_service name (s ∷ rest) = if str_eq s.name name then true else has_service name rest

unfoldable pub add_service : Config → ServiceConfig → Result ConfigError Config
add_service c s =
    if has_service s.name c.services
    then err (Error.service_exists s.name)
    else ok (record c { services = c.services ++ s ∷ [] })

-- the loop of RemoveService
unfoldable pub without_service : String → List ServiceConfig → Option (List ServiceConfig)
without_service name [] = none
without_service name (s ∷ rest) =
    let later = without_service name rest in
    if str_eq s.name name
    then some rest
    else elim later [ none ↦ none | some others ↦ some (s ∷ others) ]

-- RemoveService
unfoldable pub remove_service : Config → String → Result ConfigError Config
remove_service c name = elim (without_service name c.services) [
  | none ↦ err (Error.service_not_found name)
  | some others ↦ ok (record c { services = others })
]

-- the loop of LoadServices
unfoldable pub check_each : GoLib → ℕ → List ServiceConfig → Result ConfigError (Unit {0})
check_each lib i [] = ok tt
check_each lib i (s ∷ rest) =
    let later = check_each lib (suc i) rest in
    elim (validate_service lib s) [ err e ↦ err (Error.in_service i e) | ok _ ↦ later ]

-- LoadServices
unfoldable pub load_services :
    GoLib → (String → Option Config) → String → Result ConfigError (List ServiceConfig)
load_services lib decode path = elim (load_raw lib decode path) [
  | err e ↦ err e
  | ok c ↦ elim (check_each lib 0 c.services) [ err e ↦ err e | ok _ ↦ ok c.services ]
]

-- LoadForEdit
unfoldable pub load_for_edit : GoLib → (String → Option Config) → String → Result ConfigError Config
load_for_edit lib decode path = load_raw lib decode path

-- an encoded configuration
pub record Encoded : Type 0 where
  pub format : Format
  pub content : Config

abbrev pub Disk : Type 0
Disk = Table Encoded

pub data SaveError : Type 0 where
  no_file_path : SaveError
  marshal_failed : SaveError
  directory_failed : SaveError
  write_failed : SaveError
  config_exists : String → SaveError

-- which steps of SaveTo fail
pub record SaveFailures : Type 0 where
  pub marshal : Bool
  pub directory : Bool
  pub write : Bool

-- the configuration and the disk after an operation, and its error
pub record Saving : Type 0 where
  pub config : Config
  pub disk : Disk
  pub failure : Option SaveError

-- an API key without an id gets one; `uuid` is the new id
unfoldable pub with_key_id : String → Config → Config
with_key_id uuid c =
    if not (is_empty c.api_key) && is_empty c.key_id then record c { key_id = uuid } else c

-- SaveTo
unfoldable pub save_to : SaveFailures → String → Config → String → Format → Disk → Saving
unfolding with_key_id
save_to f uuid c path format disk =
    let c₁ = with_key_id uuid c in
    if f.marshal
    then record { config = c₁; disk = disk; failure = some marshal_failed }
    else if f.directory
    then record { config = c₁; disk = disk; failure = some directory_failed }
    else if f.write
    then record { config = c₁; disk = disk; failure = some write_failed }
    else record {
      config = record c₁ { file_path = path; format = format };
      disk = insert path (record { format = format; content = c₁ }) disk;
      failure = none;
    }

-- Save
unfoldable pub save : SaveFailures → String → Config → Disk → Saving
save f uuid c disk =
    if is_empty c.file_path
    then record { config = c; disk = disk; failure = some no_file_path }
    else save_to f uuid c c.file_path c.format disk

abbrev no_proxy_server : ProxyServerConfig
no_proxy_server = record {
  enabled = none;
  listen = "";
  username = "";
  password = "";
  fuzzy_match = none;
}

abbrev no_supervisor_config : SupervisorConfig
no_supervisor_config = record {
  max_restarts = pos 0;
  health_check_interval = "";
  health_check_threshold = pos 0;
  ready_timeout = "";
  backoff_initial = "";
  backoff_max = "";
  max_connection_age = "";
  connection_mode = "";
}

-- NewInMemory; a configuration without a file has no format either, which stands here as YAML
unfoldable pub new_in_memory : String → String → List ServiceConfig → Config
new_in_memory kube_context ns given = record {
  extends = "";
  context = kube_context;
  namespace = ns;
  log_file_path = "";
  log_level = "";
  listen = "";
  api_key = "";
  key_id = "";
  host = "";
  services = given;
  hooks = [];
  supervisor = no_supervisor_config;
  network = no_network;
  chaos = no_chaos;
  socks = no_proxy_server;
  http_proxy = no_proxy_server;
  file_path = "";
  format = format_yaml;
}

-- Init: the configuration that was written, if it was, with the disk
unfoldable pub init :
    SaveFailures → String → String → Format → Disk → Result SaveError Config × Disk
init f uuid path format disk =
    if has path disk
    then (err (config_exists path), disk)
    else let fresh = record (new_in_memory "" "default" []) { file_path = path; format = format } in
      let saving = save_to f uuid fresh path format disk in
      (elim saving.failure [ some e ↦ err e | none ↦ ok saving.config ], saving.disk)
