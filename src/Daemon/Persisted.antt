-- ===== src/Daemon/Persisted.antt =====
-- An AddService request with `persist` writes the service into the daemon's file.
use kubeport.Prelude.{
  ◌≡◌, refl, ap, ◌∙◌, String, true, false, Option, none, some, List, all, [], ◌∷◌, ◌++◌, map, arith,
  str_eq_refl,
}
use kubeport.Prelude.Int.{ℤ}
use kubeport.Prelude.Result.{Result, ok, err}
use kubeport.Prelude.Table.{lookup, insert, delete, lookup-insert, lookup-delete}
use kubeport.Prelude.GoLib.{GoLib}
use kubeport.Config.{Config, format_toml, is_empty}
use kubeport.Config.Error.{ConfigError}
use kubeport.Config.Load.{load_raw, detect_format, migrate_hook_event_names}
use kubeport.Config.PortsField.{Emitted, Raw}
use kubeport.Config.PortsField.RoundTrip.{RereadsRaw, no_name_all}
use kubeport.Config.Toml.{marshal_toml, unmarshal_toml}
use kubeport.Config.Toml.RoundTrip.{persisted, reread_config, unmarshal-marshal_toml}
use kubeport.Config.Edit
use kubeport.Config.Edit.{
  Encoded, Disk, SaveFailures, has_service, load_for_edit, with_key_id, save, save_to,
}
use kubeport.Manager.Status.{ForwardStatus}
use kubeport.Daemon.{
  Server, AddServiceRequest, Surroundings, decoded, requested_service, persist_edit, persisted_when,
  serve_add_service,
}
use kubeport.Daemon.Convert.{ServiceInfo}

-- what the program reads of a TOML file that it wrote; `reread` is what the TOML package decodes of
-- the ports that it encoded, `fresh` the configuration that is filled
unfoldable pub read_back : (Emitted → Raw) → Config → Config → Option Config
read_back reread fresh c = elim (unmarshal_toml (reread_config reread (marshal_toml c)) fresh) [
  | err e ↦ none
  | ok c' ↦ some c'
]

-- the decoder is unmarshalTOML on the files that marshalTOML wrote
abbrev pub ReadsToml : (Emitted → Raw) → Config → (Encoded → Option Config) → Type 0
ReadsToml reread fresh decode =
    (e : Encoded) → e.format ≡ format_toml → decode e ≡ read_back reread fresh e.content

abbrev pub NoFailures : SaveFailures → Type 0
NoFailures f = ((f.marshal ≡ false) × (f.directory ≡ false) × (f.write ≡ false))

path-load_for_edit :
    (lib : GoLib) (decode : String → Option Config) (path : String) {c : Config}
    → load_for_edit lib decode path ≡ ok c
    → c.file_path ≡ path
unfolding load_for_edit load_raw
path-load_for_edit lib decode path read = ground arith

services-with_key_id : (uuid : String) (c : Config) → (with_key_id uuid c).services ≡ c.services
unfolding with_key_id
services-with_key_id uuid c = ground arith

disk-save :
    (f : SaveFailures) (uuid : String) (c : Config) (disk : Disk)
    → NoFailures f
    → is_empty c.file_path ≡ false
    → (save f uuid c disk).disk
      ≡ insert c.file_path (record { format = c.format; content = with_key_id uuid c }) disk
unfolding save save_to
disk-save f uuid c disk sound named = ground arith

read_back-persisted :
    (reread : Emitted → Raw) (fresh c : Config)
    → RereadsRaw reread
    → all (λ s. no_name_all s.ports) c.services ≡ true
    → read_back reread fresh c
      ≡ some (record c {
        services = map persisted c.services;
        file_path = fresh.file_path;
        format = fresh.format;
      })
unfolding read_back
read_back-persisted reread fresh c rereads allowed =
    ground (arith, unmarshal-marshal_toml reread c fresh rereads allowed)

-- a file that was saved loads with the services that were saved
load-insert :
    (lib : GoLib) (decode : Encoded → Option Config) (path : String) (e : Encoded) (disk : Disk)
    (c : Config)
    → decode e ≡ some c
    → (c₁ : Config) × (load_for_edit lib (decoded decode (insert path e disk)) path ≡ ok c₁)
      × (c₁.services ≡ c.services)
unfolding load_for_edit load_raw decoded
load-insert lib decode path e disk c reads = (
  record c {
    file_path = path;
    format = detect_format lib path;
    hooks = map migrate_hook_event_names c.hooks;
  },
  ground (arith, lookup-insert path path e disk, str_eq_refl path, reads),
  refl,
)

module _ (lib : GoLib) (around : Surroundings) (sound : NoFailures around.failures) where
  -- the file after an edit that succeeds
  persist_edit-insert :
      (edit : Config → Result ConfigError Config) (path : String) (disk : Disk) (c c₁ : Config)
      → load_for_edit lib (decoded around.decode disk) path ≡ ok c
      → edit c ≡ ok c₁
      → c₁.file_path ≡ path
      → is_empty path ≡ false
      → persist_edit lib around edit path disk
        ≡ insert path (record { format = c₁.format; content = with_key_id around.uuid c₁ }) disk
  unfolding persist_edit
  persist_edit-insert edit path disk c c₁ read edited here named =
      ground (arith, read, edited, here, disk-save around.failures around.uuid c₁ disk sound)

  disk-serve_add_service :
      (polls : List (List ForwardStatus)) (srv : Server) (req : AddServiceRequest)
      (si : ServiceInfo) {after : Server} {port : ℤ}
      → req.service ≡ some si
      → req.persist ≡ true
      → is_empty srv.cfg.file_path ≡ false
      → serve_add_service lib around polls srv req ≡ (after, ok port)
      → after.disk
        ≡ persist_edit lib around
            (λ c. Edit.add_service c (requested_service req si))
            srv.cfg.file_path
            srv.disk
  unfolding serve_add_service persisted_when
  disk-serve_add_service polls srv req si given asked named served =
      ground (arith, given, asked, named)

  -- If an AddService request with `persist` succeeds on a daemon with a TOML file, the file loaded
  -- before without a service of that name, saving does not fail, no service of the file nor the new
  -- one selects a port by the name "all" alone, and the TOML package reads back the ports that it
  -- wrote, then the file loads again, its services are those of before and the new one, without the
  -- marks of a running service and the selectors beside "all", and every other file is as it was.
  pub add-persists :
      (polls : List (List ForwardStatus)) (srv : Server) (req : AddServiceRequest)
      (si : ServiceInfo) (c : Config) (reread : Emitted → Raw) (fresh : Config) {after : Server}
      {port : ℤ}
      → req.service ≡ some si
      → req.persist ≡ true
      → is_empty srv.cfg.file_path ≡ false
      → load_for_edit lib (decoded around.decode srv.disk) srv.cfg.file_path ≡ ok c
      → c.format ≡ format_toml
      → RereadsRaw reread
      → ReadsToml reread fresh around.decode
      → all (λ s. no_name_all s.ports) (c.services ++ requested_service req si ∷ []) ≡ true
      → has_service (requested_service req si).name c.services ≡ false
      → serve_add_service lib around polls srv req ≡ (after, ok port)
      → ((c₁ : Config) × (load_for_edit lib (decoded around.decode after.disk) srv.cfg.file_path
            ≡ ok c₁)
          × (c₁.services ≡ map persisted (c.services ++ requested_service req si ∷ [])))
        × ((p : String)
            → lookup p (delete srv.cfg.file_path after.disk)
              ≡ lookup p (delete srv.cfg.file_path srv.disk))
  unfolding Edit.add_service
  add-persists polls srv req si c reread fresh {after} given asked named read toml rereads reads
        allowed new served =
      let svc = requested_service req si in
      let path = srv.cfg.file_path in
      let c₁ : Config = record c { services = c.services ++ svc ∷ [] } in
      let content = with_key_id around.uuid c₁ in
      let e : Encoded = record { format = c₁.format; content = content } in
      let same : content.services ≡ c₁.services = services-with_key_id around.uuid c₁ in
      let back =
        reads e toml
        ∙ read_back-persisted reread fresh content rereads
            (ap (all (λ s. no_name_all s.ports)) same ∙ allowed) in
      let (c₂, loads, services) = load-insert lib around.decode path e srv.disk _ back in
      let written : after.disk ≡ insert path e srv.disk =
        disk-serve_add_service polls srv req si given asked named served
        ∙ persist_edit-insert (λ c. Edit.add_service c svc) path srv.disk c c₁ read (rw new refl)
            (path-load_for_edit lib _ path read) named in
      (
        (
          c₂,
          ap (λ d. load_for_edit lib (decoded around.decode d) path) written ∙ loads,
          services ∙ ap (map persisted) same,
        ),
        λ p. ground (
          arith,
          ap (λ d. lookup p (delete path d)) written,
          lookup-delete path p (insert path e srv.disk),
          lookup-delete path p srv.disk,
          lookup-insert path p e srv.disk,
        ),
      )
