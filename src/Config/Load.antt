-- ===== src/Config/Load.antt =====
-- Loading a file with its chain of parents: loadRaw, detectFormat, migrateHookEventNames,
-- loadWithInheritance and Load of pkg/config/config.go, resolveExtendsPath of pkg/config/merge.go.
-- Reading and decoding a file (os.ReadFile and the YAML and TOML packages) is the parameter
-- `decode`; `none` is its error.
pub mod Chain
use Prim.Native.Nat.{zero, suc}
use Prim.Native.String.{len, slice}
use text.Mathlib.Text.{starts_with}
use kubeport.Prelude.{
  ℕ, String, Bool, true, false, Option, none, some, List, [], ◌∷◌, ◌++◌, map, any, str_eq,
  if◌then◌else◌,
}
use kubeport.Prelude.Result.{Result, ok, err}
use kubeport.Prelude.Table.{Table, empty, insert, lookup}
use kubeport.Prelude.GoLib.{GoLib}
use kubeport.Config.{HookConfig, Config, Format, format_yaml, format_toml, is_empty, nonempty}
use kubeport.Config.Error
use kubeport.Config.Error.{ConfigError}
use kubeport.Config.Merge.{merge_configs}

abbrev pub legacy_event_names : Table String
legacy_event_names =
    ("manager_starting", "manager:starting")
    ∷ ("manager_stopped", "manager:stopped")
    ∷ ("forward_connected", "forward:connected")
    ∷ ("forward_disconnected", "forward:disconnected")
    ∷ ("forward_failed", "forward:failed")
    ∷ ("forward_stopped", "forward:stopped")
    ∷ ("health_check_failed", "health:check_failed")
    ∷ ("service_added", "service:added")
    ∷ ("service_removed", "service:removed")
    ∷ []

unfoldable pub migrate_name : String → String
migrate_name name = elim (lookup name legacy_event_names) [ some new ↦ new | none ↦ name ]

-- the loop over the shell commands, in the order in which the map yields them
unfoldable pub migrate_shell : Table String → Table String → Table String
migrate_shell migrated [] = migrated
migrate_shell migrated ((name, cmd) ∷ rest) =
    migrate_shell (insert (migrate_name name) cmd migrated) rest

-- migrateHookEventNames
unfoldable pub migrate_hook_event_names : HookConfig → HookConfig
migrate_hook_event_names h = record h {
  events = map migrate_name h.events;
  shell = if nonempty h.shell then migrate_shell empty h.shell else h.shell;
}

-- the environment variables that Load reads; an unset variable is ""
pub record Environment : Type 0 where
  pub k8s_context : String
  pub k8s_namespace : String
  pub kubeport_api_key : String

unfoldable pub apply_environment : Environment → Config → Config
apply_environment env c = record c {
  context = if is_empty env.k8s_context then c.context else env.k8s_context;
  namespace = if is_empty env.k8s_namespace then c.namespace else env.k8s_namespace;
  api_key = if is_empty env.kubeport_api_key then c.api_key else env.kubeport_api_key;
}

-- what the parent's result becomes for its child
unfoldable pub under : Config → String → Result ConfigError Config → Result ConfigError Config
under child parent_path (err e) = err (Error.in_parent parent_path e)
under child parent_path (ok parent) = ok (merge_configs parent child)

module _ (lib : GoLib) where
  open lib use {to_lower, ext, user_home_dir, join, is_abs, dir, clean}

  unfoldable pub detect_format : String → Format
  detect_format path = if str_eq (to_lower (ext path)) ".toml" then format_toml else format_yaml

  -- `~/` stands for the home directory
  unfoldable pub expand_home : String → Result ConfigError String
  expand_home extends =
      if starts_with extends "~/"
      then elim user_home_dir [
        | none ↦ err (Error.bad_extends_path extends)
        | some home ↦ ok (join home (slice extends 2 (len extends)))
      ]
      else ok extends

  unfoldable pub resolve_extends_path : String → String → Result ConfigError String
  resolve_extends_path extends config_file_path = elim (expand_home extends) [
    | err e ↦ err e
    | ok path ↦ ok (clean (if is_abs path then path else join (dir config_file_path) path))
  ]

module _ (lib : GoLib) (decode : String → Option Config) where
  unfoldable pub load_raw : String → Result ConfigError Config
  load_raw path = elim (decode path) [
    | none ↦ err (Error.unreadable path)
    | some c ↦ ok (record c {
      file_path = path;
      format = detect_format lib path;
      hooks = map migrate_hook_event_names c.hooks;
    })
  ]

  -- loadWithInheritance; `visiting` is the chain so far, `none` means that the fuel ran out
  unfoldable pub load_chain : ℕ → List String → String → Option (Result ConfigError Config)
  load_chain zero visiting path = none
  load_chain (suc fuel) visiting path = elim (any (str_eq path) visiting) [
    | true ↦ some (err (Error.circular_extends path))
    | false ↦ elim (load_raw path) [
      | err e ↦ some (err e)
      | ok child ↦ elim (is_empty child.extends) [
        | true ↦ some (ok child)
        | false ↦ elim (resolve_extends_path lib child.extends path) [
          | err e ↦ some (err e)
          | ok parent_path ↦ elim (load_chain fuel (visiting ++ path ∷ []) parent_path) [
            | none ↦ none
            | some r ↦ some (under child parent_path r)
          ]
        ]
      ]
    ]
  ]

  -- Load
  unfoldable pub load : ℕ → Environment → String → Option (Result ConfigError Config)
  load fuel env path = elim (load_chain fuel [] path) [
    | none ↦ none
    | some (err e) ↦ some (err e)
    | some (ok c) ↦ some (ok (apply_environment env c))
  ]
