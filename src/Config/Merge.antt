-- ===== src/Config/Merge.antt =====
-- pkg/config/merge.go: a parent configuration under a child that overrides it.
pub mod Chain
use kubeport.Prelude.{String, Bool, true, false, Option, none, some, List, if◌then◌else◌}
use kubeport.Prelude.Int.{ℤ, pos, eq_ℤ}
use kubeport.Config.{
  ServiceConfig, HookConfig, SupervisorConfig, Config, ChaosConfig, ProxyServerConfig, is_empty,
}
use kubeport.Config.Keyed
use kubeport.Config.Network.{resolve_network}

-- `if result.X == "" { result.X = base.X }`
abbrev pub text_or : String → String → String
text_or base over = if is_empty over then base else over

abbrev pub int_or : ℤ → ℤ → ℤ
int_or base over = if eq_ℤ over (pos 0) then base else over

-- inherited unless the override sets `enabled`
abbrev pub unless_set {ℓ} : {A : Type ℓ} → Option Bool → A → A → A
unless_set none base over = base
unless_set (some b) base over = over

unfoldable pub merge_supervisor : SupervisorConfig → SupervisorConfig → SupervisorConfig
merge_supervisor base over = record {
  max_restarts = int_or base.max_restarts over.max_restarts;
  health_check_interval = text_or base.health_check_interval over.health_check_interval;
  health_check_threshold = int_or base.health_check_threshold over.health_check_threshold;
  ready_timeout = text_or base.ready_timeout over.ready_timeout;
  backoff_initial = text_or base.backoff_initial over.backoff_initial;
  backoff_max = text_or base.backoff_max over.backoff_max;
  max_connection_age = text_or base.max_connection_age over.max_connection_age;
  connection_mode = text_or base.connection_mode over.connection_mode;
}

-- ResolveConnectionMode
unfoldable pub resolve_connection_mode : SupervisorConfig → ServiceConfig → String
resolve_connection_mode global per_service =
    if is_empty per_service.connection_mode
    then (if is_empty global.connection_mode then "mux" else global.connection_mode)
    else per_service.connection_mode

abbrev pub service_key : ServiceConfig → Option String
service_key s = some s.name

-- an unnamed hook has no key
abbrev pub hook_key : HookConfig → Option String
hook_key h = if is_empty h.name then none else some h.name

unfoldable pub merge_services : List ServiceConfig → List ServiceConfig → List ServiceConfig
merge_services base over = Keyed.merge service_key base over

unfoldable pub merge_hooks : List HookConfig → List HookConfig → List HookConfig
merge_hooks base over = Keyed.merge hook_key base over

-- mergeConfigs
unfoldable pub merge_configs : Config → Config → Config
merge_configs base over = record {
  extends = "";
  context = text_or base.context over.context;
  namespace = text_or base.namespace over.namespace;
  log_file_path = text_or base.log_file_path over.log_file_path;
  log_level = text_or base.log_level over.log_level;
  listen = text_or base.listen over.listen;
  api_key = text_or base.api_key over.api_key;
  key_id = text_or base.key_id over.key_id;
  host = text_or base.host over.host;
  services = merge_services base.services over.services;
  hooks = merge_hooks base.hooks over.hooks;
  supervisor = merge_supervisor base.supervisor over.supervisor;
  network = resolve_network base.network over.network;
  chaos = unless_set over.chaos.enabled base.chaos over.chaos;
  socks = unless_set over.socks.enabled base.socks over.socks;
  http_proxy = unless_set over.http_proxy.enabled base.http_proxy over.http_proxy;
  file_path = over.file_path;
  format = over.format;
}
