-- ===== src/Update.antt =====
-- internal/update/update.go: comparing versions and downloading a verified asset. A provider of
-- releases is an interface, which Update/Github fills.
pub mod Github
pub mod Apply
pub mod Order
pub mod Verified
mod Tests
use kubeport.Prelude.{
  ℕ, zero, suc, ◌+◌, String, Bool, true, false, not, Option, none, some, List, [], ◌∷◌,
  if◌then◌else◌,
}
use kubeport.Prelude.Int.{ℤ, pos, eq_ℤ, ltb_ℤ}
use kubeport.Prelude.GoLib.{trim_prefix, cut_text}
use kubeport.Prelude.Result.{Result, ok, err}

-- the fields of go-version's Version that the code uses
pub record Version : Type 0 where
  pub raw : String
  pub major : ℤ
  pub minor : ℤ
  pub patch : ℤ
  pub pre_release : String

pub record ReleaseInfo : Type 0 where
  pub version : String
  pub tag : String
  pub url : String

pub data UpdateError : Type 0 where
  url_not_https url_host_denied request_failed read_failed decode_failed : UpdateError
  status_not_ok : ℕ → UpdateError
  checksum_not_found checksum_mismatch : UpdateError
  check_failed download_failed verify_failed : UpdateError → UpdateError
  write_failed : UpdateError
  create_failed seek_failed locate_failed : UpdateError
  archive_broken binary_broken binary_too_large binary_not_found : UpdateError
  chmod_failed close_failed replace_failed : UpdateError

-- ReleaseProvider
pub record ReleaseProvider : Type 0 where
  pub latest_release : Result UpdateError ReleaseInfo
  pub download : ReleaseInfo → String → Result UpdateError (List ℕ)
  pub verify : ReleaseInfo → String → List ℕ → Option UpdateError

-- what the code calls of Go's library on texts: strings.Split, and the number that
-- fmt.Sscanf(s, "%d", &n) leaves in n where n is 0 before
pub record TextLib : Type 0 where
  pub split : String → String → List String
  pub scan_int : String → ℤ

-- the numbers of the first three segments, if there are three
unfoldable pub version_numbers : TextLib → List String → ℤ × ℤ × ℤ
version_numbers lib (major ∷ minor ∷ patch ∷ _) =
    (lib.scan_int major, lib.scan_int minor, lib.scan_int patch)
version_numbers lib _ = (pos 0, pos 0, pos 0)

unfoldable pub parse_version : TextLib → String → Version
parse_version lib s =
    let (numbers, after_dash) = cut_text (trim_prefix s "v") "-" in
    let (major_number, minor_number, patch_number) = version_numbers lib (lib.split numbers ".") in
    record {
      raw = s;
      major = major_number;
      minor = minor_number;
      patch = patch_number;
      pre_release = elim after_dash [ none ↦ "" | some rest ↦ rest ];
    }

unfoldable pub is_newer : (current latest : Version) → Bool
is_newer current latest =
    if not (eq_ℤ latest.major current.major)
    then ltb_ℤ current.major latest.major
    else if not (eq_ℤ latest.minor current.minor)
    then ltb_ℤ current.minor latest.minor
    else ltb_ℤ current.patch latest.patch

pub record UpdateInfo : Type 0 where
  pub current : Version
  pub latest : ReleaseInfo
  pub available : Bool

unfoldable pub check_update : TextLib → ReleaseProvider → Version → Result UpdateError UpdateInfo
check_update lib p v = elim p.latest_release [
  | err e ↦ err (check_failed e)
  | ok release ↦ ok (record {
    current = v;
    latest = release;
    available = is_newer v (parse_version lib release.version);
  })
]

unfoldable pub take : ℕ → List ℕ → List ℕ
take n [] = []
take zero (b ∷ rest) = []
take (suc n) (b ∷ rest) = b ∷ take n rest

-- DownloadAndVerify on an empty destination: what it then holds, and the error. A write to the
-- destination may fail after some bytes.
unfoldable pub download_and_verify :
    ReleaseProvider → Option ℕ → ReleaseInfo → String → List ℕ × Option UpdateError
download_and_verify p fails_after release asset = elim (p.download release asset) [
  | err e ↦ ([], some (download_failed e))
  | ok bytes ↦ elim (p.verify release asset bytes) [
    | some e ↦ ([], some (verify_failed e))
    | none ↦ elim fails_after [ some n ↦ (take n bytes, some write_failed) | none ↦ (bytes, none) ]
  ]
]
