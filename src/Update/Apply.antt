-- ===== src/Update/Apply.antt =====
-- doUpdateApply of internal/cli/cmd_update.go: from the check for a release to the new executable. The
-- temporary file of the download has a new name and is removed on every path, so it is not among the
-- files of the disk; what is written to it is the result of the download.
use Prim.Native.String.{◌++◌}
use kubeport.Prelude.{
  ℕ, String, Bool, ◌&&◌, not, Option, none, some, List, [], ◌∷◌, length, ltb, str_eq, if◌then◌else◌,
}
use kubeport.Prelude.Table.{Table, insert, delete}
use kubeport.Prelude.Result.{Result, ok, err}
use kubeport.Update.{
  UpdateError, write_failed, create_failed, seek_failed, locate_failed, archive_broken,
  binary_broken, binary_too_large, binary_not_found, chmod_failed, close_failed, replace_failed,
  Version, ReleaseInfo, ReleaseProvider, TextLib, check_update, take, download_and_verify,
}

-- an entry of an archive, the bytes of it that can be read and whether reading fails after them
pub record ArchiveEntry : Type 0 where
  pub name : String
  pub is_regular : Bool
  pub content : List ℕ
  pub is_broken : Bool

-- the entries that can be read, and whether the archive ends after them without an error
pub record Archive : Type 0 where
  pub entries : List ArchiveEntry
  pub ends : Bool

-- 256 << 20
abbrev pub max_binary_size : ℕ
max_binary_size = 268435456

-- io.ReadAll of one byte more than is allowed
unfoldable pub read_binary : ArchiveEntry → Result UpdateError (List ℕ)
read_binary e =
    if ltb max_binary_size (length e.content)
    then err binary_too_large
    else if e.is_broken
    then err binary_broken
    else ok e.content

-- the loop of extractBinary, where `base` is filepath.Base
unfoldable pub find_binary :
    (String → String) → String → Bool → List ArchiveEntry → Result UpdateError (List ℕ)
find_binary base name ends [] = if ends then err binary_not_found else err archive_broken
find_binary base name ends (e ∷ rest) =
    let found = find_binary base name ends rest in
    if str_eq (base e.name) name && e.is_regular then read_binary e else found

-- the system: the platform in the asset's name, the archive in a compressed file (`none` if it is
-- not one), which calls fail, and the paths of the executable and of the temporary file beside it
pub record Machine : Type 0 where
  pub goos : String
  pub goarch : String
  pub base : String → String
  pub archive_in : List ℕ → Option Archive
  pub temp_fails : Bool
  pub temp_write_fails_after : Option ℕ
  pub seek_fails : Bool
  pub executable : Option String
  pub temp_path : String
  pub create_fails : Bool
  pub write_fails_after : Option ℕ
  pub chmod_fails : Bool
  pub close_fails : Bool
  pub rename_fails : Bool

unfoldable pub extract_binary : Machine → List ℕ → String → Result UpdateError (List ℕ)
extract_binary m bytes name = elim (m.archive_in bytes) [
  | none ↦ err archive_broken
  | some archive ↦ find_binary m.base name archive.ends archive.entries
]

abbrev pub Files : Type 0
Files = Table (List ℕ)

-- the temporary file with that content is removed again
abbrev pub cleaned_up : Machine → List ℕ → Files → Files
cleaned_up m content disk = delete m.temp_path (insert m.temp_path content disk)

-- replaceBinary
unfoldable pub replace_binary : Machine → String → List ℕ → Files → Files × Option UpdateError
replace_binary m path binary disk =
    if m.create_fails then (disk, some create_failed) else elim m.write_fails_after [
      | some n ↦ (cleaned_up m (take n binary) disk, some write_failed)
      | none ↦
          if m.chmod_fails
          then (cleaned_up m binary disk, some chmod_failed)
          else if m.close_fails
          then (cleaned_up m binary disk, some close_failed)
          else if m.rename_fails
          then (cleaned_up m binary disk, some replace_failed)
          else (insert path binary (cleaned_up m binary disk), none)
    ]

unfoldable pub asset_name : Machine → ReleaseInfo → String
asset_name m release =
    "kubeport_" ++ release.version ++ "_" ++ m.goos ++ "_" ++ m.goarch ++ ".tar.gz"

-- the binary of a release, downloaded, verified and taken out of its archive
unfoldable pub fetch_binary : Machine → ReleaseProvider → ReleaseInfo → Result UpdateError (List ℕ)
fetch_binary m p release =
    if m.temp_fails
    then err create_failed
    else let (content, failed) =
        download_and_verify p m.temp_write_fails_after release (asset_name m release) in
      elim failed [
        | some e ↦ err e
        | none ↦ if m.seek_fails then err seek_failed else extract_binary m content "kubeport"
      ]

-- the executable is replaced by that binary
unfoldable pub install : Machine → List ℕ → Files → Files × Option UpdateError
install m binary disk = elim m.executable [
  | none ↦ (disk, some locate_failed)
  | some path ↦ replace_binary m path binary disk
]

unfoldable pub do_update_apply :
    TextLib → Machine → ReleaseProvider → Version → Files → Files × Option UpdateError
do_update_apply lib m p current disk = elim (check_update lib p current) [
  | err e ↦ (disk, some e)
  | ok info ↦ if not info.available then (disk, none) else elim (fetch_binary m p info.latest) [
    | err e ↦ (disk, some e)
    | ok binary ↦ install m binary disk
  ]
]
