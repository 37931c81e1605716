-- ===== src/Config/Paths.antt =====
-- Where the files of an instance are: CentralDir, InstanceID, PIDFile, LogFile, SocketFile,
-- ListenAddress, ResolvedKeyID and Discover of pkg/config/config.go. The directories that they create
-- on the way are left out; which files exist is an argument.
use Prim.Native.String.{◌++◌ as cat}
use text.Mathlib.Text.{starts_with}
use kubeport.Prelude.{
  String, Bool, ◌&&◌, ◌||◌, not, Option, none, some, List, [], ◌∷◌, ◌++◌, map, any, str_eq,
  if◌then◌else◌,
}
use kubeport.Prelude.GoLib.{GoLib, cut_prefix}
use kubeport.Config.{Config, is_empty}

-- what the code asks of the system and of Go's library beside GoLib
pub record System : Type 0 where
  -- os.Stat succeeds
  pub exists : String → Bool
  -- os.TempDir
  pub temp_dir : String
  -- os.Getwd; "" on an error
  pub getwd : String
  -- filepath.Abs, none on an error, when the first result is ""
  pub abs : String → Option String
  -- filepath.Base
  pub base : String → String
  -- the characters but letters, digits and '_' replaced by '-'
  pub sanitize : String → String
  -- the first eight digits of the SHA-256 sum
  pub digest : String → String
  -- the first sixteen digits of the HMAC of an API key
  pub fingerprint : String → String

abbrev config_names : List String
config_names = "kubeport.yaml" ∷ "kubeport.yml" ∷ "kubeport.toml" ∷ []

abbrev dot_config_names : List String
dot_config_names = ".kubeport.yaml" ∷ ".kubeport.yml" ∷ ".kubeport.toml" ∷ []

abbrev pub or_empty : Option String → String
or_empty none = ""
or_empty (some s) = s

-- the path is the directory or inside it
unfoldable pub is_inside : String → String → Bool
is_inside dir path = starts_with path (cat dir "/") || str_eq path dir

-- the first of the names that exists
unfoldable pub first_existing : (String → Bool) → List String → Option String
first_existing exists [] = none
first_existing exists (p ∷ rest) =
    let later = first_existing exists rest in if exists p then some p else later

pub data ListenMode : Type 0 where
  listen_unix listen_tcp : ListenMode

pub record ListenConfig : Type 0 where
  pub mode : ListenMode
  pub address : String

module _ (lib : GoLib) (sys : System) where
  open lib use {join, user_home_dir, dir}
  open sys use {exists, temp_dir, getwd, abs, base, sanitize, digest, fingerprint}

  abbrev pub xdg_dir : String → String
  xdg_dir home = join (join home ".config") "kubeport"

  abbrev pub dot_dir : String → String
  dot_dir home = join home ".kubeport"

  abbrev has_config : String → Bool
  has_config d = any (λ name. exists (join d name)) config_names

  -- CentralDir
  unfoldable pub central_dir : String → String
  central_dir cfg_path = elim user_home_dir [
    | none ↦ temp_dir
    | some home ↦
        let path = or_empty (abs cfg_path) in
        if not (is_empty cfg_path) && is_inside (xdg_dir home) path
        then xdg_dir home
        else if not (is_empty cfg_path) && is_inside (dot_dir home) path
        then dot_dir home
        else if has_config (xdg_dir home)
        then xdg_dir home
        else if has_config (dot_dir home)
        then dot_dir home
        else xdg_dir home
  ]

  -- InstanceID
  unfoldable pub instance_id : Config → String
  instance_id c =
      let path =
        or_empty (abs (if is_empty c.file_path then join getwd "_inline" else c.file_path)) in
      let parent = base (dir path) in
      let readable =
        if str_eq parent "." || is_empty parent || str_eq parent "/" then "kubeport" else parent in
      cat (sanitize readable) (cat "-" (digest path))

  -- PIDFile
  unfoldable pub pid_file : Config → String
  pid_file c = join (central_dir c.file_path) (cat (instance_id c) ".pid")

  -- LogFile
  unfoldable pub log_file : Config → String
  log_file c =
      if not (is_empty c.log_file_path)
      then c.log_file_path
      else join (join (central_dir c.file_path) "logs") (cat (instance_id c) ".log")

  -- SocketFile
  unfoldable pub socket_file : Config → String
  socket_file c = elim (cut_prefix c.listen "sock://") [
    | some path ↦ path
    | none ↦ join (central_dir c.file_path) (cat (instance_id c) ".sock")
  ]

  -- ListenAddress
  unfoldable pub listen_address : Config → ListenConfig
  listen_address c = elim (cut_prefix c.listen "tcp://") [
    | some addr ↦ record { mode = listen_tcp; address = addr }
    | none ↦ record { mode = listen_unix; address = socket_file c }
  ]

  -- ResolvedKeyID
  unfoldable pub resolved_key_id : Config → String
  resolved_key_id c =
      if not (is_empty c.key_id)
      then c.key_id
      else if is_empty c.api_key
      then ""
      else fingerprint c.api_key

  -- Discover; `none` is ErrNoConfig
  unfoldable pub discover : Option String
  discover = elim (first_existing exists (config_names ++ dot_config_names)) [
    | some name ↦ elim (abs name) [ none ↦ some name | some path ↦ some path ]
    | none ↦ elim user_home_dir [
      | none ↦ none
      | some home ↦
          first_existing exists
            (map (join (xdg_dir home)) config_names ++ map (join (dot_dir home)) config_names)
    ]
  ]
