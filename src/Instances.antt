-- ===== src/Instances.antt =====
-- internal/registry/registry.go: the list of running instances that the daemons of one user keep in a
-- file. Which calls of the operating system fail is an argument.
pub mod Steps
pub mod Effect
pub mod Kept
mod Tests
use kubeport.Prelude.{
  String, Bool, true, false, ◌&&◌, not, Option, none, some, List, [], ◌∷◌, str_eq, if◌then◌else◌,
}
use kubeport.Prelude.Int.{ℤ, pos, eq_ℤ, ltb_ℤ}
use kubeport.Prelude.Result.{Result, ok, err}
use kubeport.Config.{is_empty}

pub record Entry : Type 0 where
  pub pid : ℤ
  pub config_file : String
  pub pid_file : String
  pub log_file : String
  pub socket : String
  pub tcp_address : String
  pub auth_enabled : Bool
  pub key_id : String
  pub version : String
  pub started_at : ℤ
  pub delegate : Bool
  pub primary_socket : String

-- instances.json: absent, not parsable, or with entries; an empty file has none
pub data Stored : Type 0 where
  absent : Stored
  corrupt : Stored
  holding : List Entry → Stored

pub data RegistryError : Type 0 where
  invalid_entry : RegistryError
  no_lock : RegistryError
  parse_failed : RegistryError
  read_failed : RegistryError
  marshal_failed : RegistryError
  write_failed : RegistryError
  replace_failed : RegistryError
  close_failed : RegistryError
  path_failed : RegistryError

-- which steps of withLock fail
pub record Failures : Type 0 where
  pub lock : Bool
  pub read : Bool
  pub marshal : Bool
  pub write : Bool
  pub replace : Bool
  pub close : Bool

-- what withLock reports, and the file it leaves
abbrev pub StoreOutcome : Type 0
StoreOutcome = Option RegistryError × Stored

-- the reading of the file
unfoldable pub read_store : Failures → Stored → Result RegistryError (List Entry)
read_store f absent = if f.read then err read_failed else ok []
read_store f corrupt = if f.read then err read_failed else err parse_failed
read_store f (holding es) = if f.read then err read_failed else ok es

-- from the reading to the renaming, under the lock
unfoldable pub rewrite_store : Failures → (List Entry → List Entry) → Stored → StoreOutcome
rewrite_store f change file = elim (read_store f file) [
  | err e ↦ (some e, file)
  | ok es ↦
      if f.marshal
      then (some marshal_failed, file)
      else if f.write
      then (some write_failed, file)
      else if f.replace
      then (some replace_failed, file)
      else (none, holding (change es))
]

-- the deferred closing of the lock file, whose error counts if there is no other
unfoldable pub close_lock : Failures → StoreOutcome → StoreOutcome
close_lock f (none, file) = (if f.close then some close_failed else none, file)
close_lock f (some e, file) = (some e, file)

unfoldable pub with_lock : Failures → (List Entry → List Entry) → Stored → StoreOutcome
with_lock f change file =
    if f.lock then (some no_lock, file) else close_lock f (rewrite_store f change file)

-- the body of Register: the first entry of the process is replaced, else the entry is appended
unfoldable pub put_entry : Entry → List Entry → List Entry
put_entry e [] = e ∷ []
put_entry e (x ∷ rest) =
    let later = put_entry e rest in if eq_ℤ x.pid e.pid then e ∷ rest else x ∷ later

unfoldable pub register_entry : Failures → Entry → Stored → StoreOutcome
register_entry f e file =
    if not (ltb_ℤ (pos 0) e.pid)
    then (some invalid_entry, file)
    else if is_empty e.socket && is_empty e.tcp_address
    then (some invalid_entry, file)
    else with_lock f (put_entry e) file

unfoldable pub without_pid : ℤ → List Entry → List Entry
without_pid pid [] = []
without_pid pid (x ∷ rest) =
    let later = without_pid pid rest in if eq_ℤ x.pid pid then later else x ∷ later

unfoldable pub deregister : Failures → ℤ → Stored → StoreOutcome
deregister f pid file = with_lock f (without_pid pid) file

-- isAlive; `kill` says whether the process takes signal 0
unfoldable pub is_alive : (ℤ → Bool) → ℤ → Bool
is_alive kill pid = if not (ltb_ℤ (pos 0) pid) then false else kill pid

unfoldable pub alive_entries : (ℤ → Bool) → List Entry → List Entry
alive_entries kill [] = []
alive_entries kill (x ∷ rest) =
    let later = alive_entries kill rest in if is_alive kill x.pid then x ∷ later else later

-- List: the file is pruned; the result stays empty if the file could not be read
unfoldable pub list_entries : Failures → (ℤ → Bool) → Stored → List Entry × StoreOutcome
list_entries f kill file = (
  if f.lock then [] else elim (read_store f file) [ err e ↦ [] | ok es ↦ alive_entries kill es ],
  with_lock f (alive_entries kill) file,
)

-- the loop of FindByConfig; `abs` is filepath.Abs, none on an error
unfoldable pub entry_with_path : (String → Option String) → String → List Entry → Option Entry
entry_with_path abs path [] = none
entry_with_path abs path (x ∷ rest) =
    let later = entry_with_path abs path rest in
    elim (abs x.config_file) [ none ↦ later | some p ↦ if str_eq p path then some x else later ]

unfoldable pub find_by_config :
    Failures
    → (ℤ → Bool)
    → (String → Option String)
    → String
    → Stored
    → Result RegistryError (Option Entry) × Stored
find_by_config f kill abs path file = if is_empty path then (ok none, file) else elim (abs path) [
  | none ↦ (err path_failed, file)
  | some p ↦
      let (entries, (failure, after)) = list_entries f kill file in
      (elim failure [ some e ↦ err e | none ↦ ok (entry_with_path abs p entries) ], after)
]
