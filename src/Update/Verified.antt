-- ===== src/Update/Verified.antt =====
-- What an update leaves on the disk.
use kubeport.Prelude.{
  ℕ, ◌≡◌, ◌≢◌, String, Bool, true, false, none, some, List, ◌⊎◌, inl, inr, arith, str_eq_iff,
  Bool-cases, Option-cases,
}
use kubeport.Prelude.Table.{lookup, insert, lookup-insert, lookup-delete}
use kubeport.Prelude.Result.{ok, err, Result-cases}
use kubeport.Update.{
  Version, ReleaseInfo, TextLib, take, check_update, is_newer, parse_version, download_and_verify,
}
use kubeport.Update.Github.{
  GithubLib, GithubProvider, github, latest_release, asset_url, download_url, find_checksum, verify,
}
use kubeport.Update.Apply.{
  Machine, Files, cleaned_up, asset_name, extract_binary, fetch_binary, replace_binary, install,
  do_update_apply,
}

-- the asset whose bytes are the argument has the hash that the checksum file of its release names
abbrev pub has_checksum : GithubLib → GithubProvider → ReleaseInfo → String → List ℕ → Bool
has_checksum lib p release asset bytes = elim (download_url lib (asset_url p release p.checksum)) [
  | err e ↦ false
  | ok sums ↦ elim (find_checksum lib (lib.text_of sums) asset) [
    | err e ↦ false
    | ok expected ↦ lib.equal_fold (lib.hash bytes) expected
  ]
]

verify-has_checksum :
    (lib : GithubLib) (p : GithubProvider) (release : ReleaseInfo) (asset : String) (bytes : List ℕ)
    → verify lib p release asset bytes ≡ none
    → has_checksum lib p release asset bytes ≡ true
unfolding verify
verify-has_checksum lib p release asset bytes passed = ground (arith, passed)

-- a binary that may be installed: from the bytes of that release's asset, which have its checksum
abbrev pub IsVerified : Machine → GithubLib → GithubProvider → ReleaseInfo → List ℕ → Type 0
IsVerified m lib p release binary =
    (bytes : List ℕ) × (download_url lib (asset_url p release (asset_name m release)) ≡ ok bytes)
    × (has_checksum lib p release (asset_name m release) bytes ≡ true)
    × (extract_binary m bytes "kubeport" ≡ ok binary)

fetch_binary-IsVerified :
    (m : Machine) (lib : GithubLib) (p : GithubProvider) (release : ReleaseInfo) (binary : List ℕ)
    → fetch_binary m (github lib p) release ≡ ok binary
    → IsVerified m lib p release binary
unfolding fetch_binary download_and_verify github
fetch_binary-IsVerified m lib p release binary fetched =
    elim (Result-cases (download_url lib (asset_url p release (asset_name m release)))) [
      | inl (e, failed) ↦ absurd (ground (arith, fetched, failed))
      | inr (bytes, downloaded) ↦
          elim (Option-cases (verify lib p release (asset_name m release) bytes)) [
            | inl passed ↦ (
              bytes,
              downloaded,
              verify-has_checksum lib p release (asset_name m release) bytes passed,
              ground (arith, fetched, downloaded, passed),
            )
            | inr (e, refused) ↦ absurd (ground (arith, fetched, downloaded, refused))
          ]
    ]

lookup-cleaned_up :
    (m : Machine) (content : List ℕ) (disk : Files) (path : String)
    → path ≢ m.temp_path
    → lookup path (cleaned_up m content disk) ≡ lookup path disk
lookup-cleaned_up m content disk path other = ground (
  arith,
  lookup-delete m.temp_path path (insert m.temp_path content disk),
  lookup-insert m.temp_path path content disk,
  str_eq_iff m.temp_path path,
  other,
)

lookup-replace_binary :
    (m : Machine) (target : String) (binary : List ℕ) (disk : Files) (path : String)
    → path ≢ m.temp_path
    → (lookup path (replace_binary m target binary disk).0 ≡ lookup path disk)
      ⊎ ((target ≡ path) × (lookup path (replace_binary m target binary disk).0 ≡ some binary))
unfolding replace_binary
lookup-replace_binary m target binary disk path other = elim (Option-cases m.write_fails_after) [
  | inl writes ↦ ground (
    arith,
    writes,
    lookup-cleaned_up m binary disk path other,
    lookup-insert target path binary (cleaned_up m binary disk),
    str_eq_iff target path,
  )
  | inr (n, stops) ↦
      inl (ground (arith, stops, lookup-cleaned_up m (take n binary) disk path other))
]

lookup-install :
    (m : Machine) (binary : List ℕ) (disk : Files) (path : String)
    → path ≢ m.temp_path
    → (lookup path (install m binary disk).0 ≡ lookup path disk)
      ⊎ ((m.executable ≡ some path) × (lookup path (install m binary disk).0 ≡ some binary))
unfolding install
lookup-install m binary disk path other = elim (Option-cases m.executable) [
  | inl missing ↦ inl (ground (arith, missing))
  | inr (target, located) ↦
      ground (arith, located, lookup-replace_binary m target binary disk path other)
]

-- Whatever fails on the way, an update leaves each file but its own temporary one as it was, or
-- the file is the executable, the latest release is newer than the running version, and the file
-- now is the binary in the archive that was downloaded for that release, which has the hash that
-- the checksum file of the release names.
pub apply-IsVerified :
    (text : TextLib) (lib : GithubLib) (p : GithubProvider) (m : Machine) (current : Version)
    (disk : Files) (path : String)
    → path ≢ m.temp_path
    → (lookup path (do_update_apply text m (github lib p) current disk).0 ≡ lookup path disk)
      ⊎ ((m.executable ≡ some path)
          × ((release : ReleaseInfo) × (latest_release lib p ≡ ok release)
              × (is_newer current (parse_version text release.version) ≡ true)
              × ((binary : List ℕ) × (lookup path
                      (do_update_apply text m (github lib p) current disk).0
                    ≡ some binary)
                  × IsVerified m lib p release binary)))
unfolding do_update_apply check_update github
apply-IsVerified text lib p m current disk path other = elim (Result-cases (latest_release lib p)) [
  | inl (e, failed) ↦ inl (ground (arith, failed))
  | inr (release, latest) ↦
      elim (Bool-cases (is_newer current (parse_version text release.version))) [
        | inr old ↦ inl (ground (arith, latest, old))
        | inl newer ↦ elim (Result-cases (fetch_binary m (github lib p) release)) [
          | inl (e, failed) ↦ inl (ground (arith, latest, newer, failed))
          | inr (binary, fetched) ↦ elim (lookup-install m binary disk path other) [
            | inl kept ↦ inl (ground (arith, latest, newer, fetched, kept))
            | inr (here, installed) ↦ inr (
              here,
              (
                release,
                latest,
                newer,
                (
                  binary,
                  ground (arith, latest, newer, fetched, installed),
                  fetch_binary-IsVerified m lib p release binary fetched,
                ),
              ),
            )
          ]
        ]
      ]
]
