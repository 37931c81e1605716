-- ===== src/Update/Tests.antt =====
-- Version 0.7.0 of a repository, with the binary 42; the running version is 0.6.9.
use kubeport.Prelude.{
  ℕ, ◌≡◌, ◌≢◌, refl, String, true, false, ◌&&◌, Option, none, some, List, [], ◌∷◌, ◌⊎◌, ◌==◌,
  str_eq, str_eq_iff, if◌then◌else◌,
}
use kubeport.Prelude.GoLib.{cut_prefix, trim_prefix, cut_text}
use kubeport.Prelude.Int.{pos}
use kubeport.Prelude.Result.{ok}
use kubeport.Prelude.Table.{lookup, insert, delete}
use kubeport.Update.{
  Version, ReleaseInfo, TextLib, parse_version, version_numbers, is_newer, check_update,
  download_and_verify, take,
}
use kubeport.Update.Github.{
  HttpResponse, GithubLib, GithubProvider, github, latest_release, download_url,
  validate_github_url, host_of, is_allowed, asset_url, find_checksum, find_in_lines, checksum_in,
  checksum_of, verify,
}
use kubeport.Update.Apply.{
  Machine, Files, asset_name, extract_binary, find_binary, read_binary, fetch_binary, install,
  replace_binary, do_update_apply,
}
use kubeport.Update.Verified.{IsVerified, apply-IsVerified}

abbrev text : TextLib
text = record {
  split = λ s sep. if str_eq s "0.7.0" then "0" ∷ "7" ∷ "0" ∷ [] else [];
  scan_int = λ s. if str_eq s "7" then pos 7 else pos 0;
}

abbrev answer : List ℕ → Option HttpResponse
answer bytes = some (record { status_code = 200; body = bytes; is_broken = false })

-- the API, the asset and the checksums
abbrev fetch : String → Option HttpResponse
fetch url =
    if str_eq url "https://api.github.com/repos/o/k/releases/latest"
    then answer (1 ∷ [])
    else if str_eq url
        "https://github.com/o/k/releases/download/v0.7.0/kubeport_0.7.0_linux_arm64.tar.gz"
    then answer (2 ∷ [])
    else if str_eq url "https://github.com/o/k/releases/download/v0.7.0/checksums.txt"
    then answer (3 ∷ [])
    else none

abbrev hash : List ℕ → String
hash [] = "other"
hash (b ∷ rest) = if b == 2 then "abc" else "other"

abbrev lib : GithubLib
lib = record {
  fetch = fetch;
  decode_release = λ body. some (record { tag_name = "v0.7.0"; html_url = "" });
  hash = hash;
  text_of = λ bytes. "ABC  kubeport_0.7.0_linux_arm64.tar.gz";
  lines = λ s. s ∷ [];
  trim_space = λ s. s;
  fields = λ s. "ABC" ∷ "kubeport_0.7.0_linux_arm64.tar.gz" ∷ [];
  equal_fold = λ s t. str_eq s "abc" && str_eq t "ABC";
  last_index = λ s t. none;
}

abbrev repository : GithubProvider
repository = record { owner = "o"; repo = "k"; checksum = "checksums.txt" }

abbrev machine : Machine
machine = record {
  goos = "linux";
  goarch = "arm64";
  base = λ path. "kubeport";
  archive_in = λ bytes. some (record {
    entries =
        record { name = "kubeport"; is_regular = true; content = 42 ∷ []; is_broken = false } ∷ [];
    ends = true;
  });
  temp_fails = false;
  temp_write_fails_after = none;
  seek_fails = false;
  executable = some "/bin/kubeport";
  temp_path = "/bin/.kubeport-update-1";
  create_fails = false;
  write_fails_after = none;
  chmod_fails = false;
  close_fails = false;
  rename_fails = false;
}

abbrev running : Version
running = record { raw = "0.6.9"; major = pos 0; minor = pos 6; patch = pos 9; pre_release = "" }

abbrev disk : Files
disk = ("/bin/kubeport", 41 ∷ []) ∷ []

updated :
    do_update_apply text machine (github lib repository) running disk
    ≡ (("/bin/kubeport", 42 ∷ []) ∷ [], none)
unfolding do_update_apply github check_update parse_version version_numbers trim_prefix cut_text
    is_newer download_and_verify latest_release download_url validate_github_url host_of is_allowed
    asset_url find_checksum find_in_lines checksum_in checksum_of verify asset_name extract_binary
    find_binary read_binary fetch_binary install replace_binary take cut_prefix lookup insert delete
updated = refl

other_path : "/bin/kubeport" ≢ machine.temp_path
other_path same =
    let equal : false ≡ true = (str_eq_iff "/bin/kubeport" machine.temp_path).1 same in cc

apply-IsVerified_example :
    (lookup "/bin/kubeport" (do_update_apply text machine (github lib repository) running disk).0
      ≡ lookup "/bin/kubeport" disk)
    ⊎ ((machine.executable ≡ some "/bin/kubeport")
        × ((release : ReleaseInfo) × (latest_release lib repository ≡ ok release)
            × (is_newer running (parse_version text release.version) ≡ true)
            × ((binary : List ℕ) × (lookup "/bin/kubeport"
                    (do_update_apply text machine (github lib repository) running disk).0
                  ≡ some binary)
                × IsVerified machine lib repository release binary)))
apply-IsVerified_example =
    apply-IsVerified text lib repository machine running disk "/bin/kubeport" other_path
