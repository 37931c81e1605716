-- ===== src/Update/Github.antt =====
-- internal/update/github.go: releases of a GitHub repository. HTTP, JSON and hashing are arguments.
use Prim.Native.String.{◌++◌, slice}
use kubeport.Prelude.{
  ℕ, String, Bool, ◌&&◌, ◌||◌, not, Option, none, some, List, [], ◌∷◌, length, ltb, ◌==◌, str_eq,
  if◌then◌else◌,
}
use kubeport.Prelude.GoLib.{cut_prefix, trim_prefix, cut_text}
use kubeport.Prelude.Result.{Result, ok, err}
use kubeport.Config.{is_empty}
use kubeport.Update.{
  UpdateError, url_not_https, url_host_denied, request_failed, read_failed, status_not_ok,
  decode_failed, checksum_not_found, checksum_mismatch, ReleaseInfo, ReleaseProvider, take,
}

-- the status, the bytes of the body that arrive, and whether reading fails after them
pub record HttpResponse : Type 0 where
  pub status_code : ℕ
  pub body : List ℕ
  pub is_broken : Bool

-- the repository and the options of the provider; the client is the function `fetch`
pub record GithubProvider : Type 0 where
  pub owner : String
  pub repo : String
  pub checksum : String

pub record GithubRelease : Type 0 where
  pub tag_name : String
  pub html_url : String

-- what the provider calls: the HTTP client, where `none` is an error; the JSON decoder; the hash in
-- hexadecimal; bytes as text, its lines, strings.TrimSpace, Fields, EqualFold and LastIndex
pub record GithubLib : Type 0 where
  pub fetch : String → Option HttpResponse
  pub decode_release : List ℕ → Option GithubRelease
  pub hash : List ℕ → String
  pub text_of : List ℕ → String
  pub lines : String → List String
  pub trim_space : String → String
  pub fields : String → List String
  pub equal_fold : String → String → Bool
  pub last_index : String → String → Option ℕ

-- 512 << 20
abbrev pub max_response_size : ℕ
max_response_size = 536870912

unfoldable pub is_allowed : String → Bool
is_allowed host =
    str_eq host "api.github.com"
    || (str_eq host "github.com" || str_eq host "objects.githubusercontent.com")

-- the host of what follows the scheme, without its port
unfoldable pub host_of : GithubLib → String → String
host_of lib rest =
    let (host, path) = cut_text rest "/" in
    elim (lib.last_index host ":") [ none ↦ host | some i ↦ slice host 0 i ]

unfoldable pub validate_github_url : GithubLib → String → Option UpdateError
validate_github_url lib url = elim (cut_prefix url "https://") [
  | none ↦ some url_not_https
  | some rest ↦ if not (is_allowed (host_of lib rest)) then some url_host_denied else none
]

unfoldable pub download_url : GithubLib → String → Result UpdateError (List ℕ)
download_url lib url = elim (validate_github_url lib url) [
  | some e ↦ err e
  | none ↦ elim (lib.fetch url) [
    | none ↦ err request_failed
    | some response ↦
        if not (response.status_code == 200)
        then err (status_not_ok response.status_code)
        else if response.is_broken && ltb (length response.body) max_response_size
        then err read_failed
        else ok (take max_response_size response.body)
  ]
]

unfoldable pub latest_release : GithubLib → GithubProvider → Result UpdateError ReleaseInfo
latest_release lib p =
    let api_url =
      "https://api.github.com/repos/" ++ p.owner ++ "/" ++ p.repo ++ "/releases/latest" in
    elim (validate_github_url lib api_url) [
      | some e ↦ err e
      | none ↦ elim (lib.fetch api_url) [
        | none ↦ err request_failed
        | some response ↦
            if not (response.status_code == 200)
            then err (status_not_ok response.status_code)
            else elim (lib.decode_release response.body) [
              | none ↦ err decode_failed
              | some release ↦ ok (record {
                version = trim_prefix release.tag_name "v";
                tag = release.tag_name;
                url = release.html_url;
              })
            ]
      ]
    ]

-- the URL of an asset of a release
unfoldable pub asset_url : GithubProvider → ReleaseInfo → String → String
asset_url p release asset =
    "https://github.com/" ++ p.owner ++ "/" ++ p.repo ++ "/releases/download/" ++ release.tag ++ "/"
    ++ asset

-- two fields of which the second is the asset's name
unfoldable pub checksum_of : String → List String → Option String
checksum_of asset (sum ∷ name ∷ []) = if str_eq name asset then some sum else none
checksum_of asset _ = none

-- the hash of the asset in one line
unfoldable pub checksum_in : GithubLib → String → String → Option String
checksum_in lib asset line =
    let trimmed = lib.trim_space line in
    if is_empty trimmed then none else checksum_of asset (lib.fields trimmed)

-- the loop of findChecksum
unfoldable pub find_in_lines : GithubLib → String → List String → Result UpdateError String
find_in_lines lib asset [] = err checksum_not_found
find_in_lines lib asset (line ∷ rest) = elim (checksum_in lib asset line) [
  | some sum ↦ ok sum
  | none ↦ find_in_lines lib asset rest
]

unfoldable pub find_checksum : GithubLib → String → String → Result UpdateError String
find_checksum lib content asset = find_in_lines lib asset (lib.lines content)

unfoldable pub verify :
    GithubLib → GithubProvider → ReleaseInfo → String → List ℕ → Option UpdateError
verify lib p release asset bytes = elim (download_url lib (asset_url p release p.checksum)) [
  | err e ↦ some (UpdateError.download_failed e)
  | ok sums ↦ elim (find_checksum lib (lib.text_of sums) asset) [
    | err e ↦ some e
    | ok expected ↦
        if not (lib.equal_fold (lib.hash bytes) expected) then some checksum_mismatch else none
  ]
]

-- GitHubProvider as a ReleaseProvider
unfoldable pub github : GithubLib → GithubProvider → ReleaseProvider
github lib p = record {
  latest_release = latest_release lib p;
  download = λ release asset. download_url lib (asset_url p release asset);
  verify = verify lib p;
}
