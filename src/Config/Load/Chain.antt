-- ===== src/Config/Load/Chain.antt =====
-- The extends chain: it ends on every finite set of files, and a chain that runs into a cycle is
-- reported instead of followed.
use kubeport.Prelude.{
  ℕ, zero, suc, ◌+◌, ◌<◌, ◌≤◌, String, ◌≡◌, ◌≢◌, true, false, Option, none, some, List, [], ◌∷◌,
  ◌++◌, any, any-append, length, str_eq, str_eq_iff, arith, Bool-cases, Option-cases, inl, inr,
  if◌then◌else◌, is_some,
}
use kubeport.Prelude.Result.{Result, ok, Result-cases}
use kubeport.Prelude.GoLib.{GoLib}
use kubeport.Config.{Config, is_empty}
use kubeport.Config.Error.{ConfigError}
use kubeport.Config.Merge.{merge_configs}
use kubeport.Config.Load.{load_raw, resolve_extends_path, under, load_chain}

-- how many of the files are not in the chain yet
remaining : List String → List String → ℕ
remaining visiting [] = 0
remaining visiting (f ∷ fs) = (if any (str_eq f) visiting then 0 else 1) + remaining visiting fs

remaining_le :
    (visiting files : List String) (path : String)
    → remaining (visiting ++ path ∷ []) files ≤ remaining visiting files
unfolding remaining
remaining_le visiting [] path = omega arith
remaining_le visiting (f ∷ fs) path =
    ground (arith, remaining_le visiting fs path, any-append (str_eq f) visiting (path ∷ []))

-- a file that joins the chain is one fewer
remaining_lt :
    (visiting files : List String) (path : String)
    → any (str_eq path) visiting ≡ false
    → any (str_eq path) files ≡ true
    → remaining (visiting ++ path ∷ []) files < remaining visiting files
unfolding remaining
remaining_lt visiting [] path new known = cc
remaining_lt visiting (f ∷ fs) path new known = elim (Bool-cases (str_eq path f)) [
  | inl same ↦
      let e : path ≡ f = (str_eq_iff path f).0 same in
      ground (
        arith,
        remaining_le visiting fs path,
        any-append (str_eq f) visiting (path ∷ []),
        e,
        str_eq_iff f path,
      )
  | inr other ↦
      ground (
        arith,
        remaining_lt visiting fs path new,
        any-append (str_eq f) visiting (path ∷ []),
        other,
      )
]

remaining-le-length : (visiting files : List String) → remaining visiting files ≤ length files
unfolding remaining
remaining-le-length visiting [] = omega arith
remaining-le-length visiting (f ∷ fs) = ground (arith, remaining-le-length visiting fs)

module _ (lib : GoLib) (decode : String → Option Config) where
  -- every file that decodes is on the list
  abbrev pub Covers : List String → Type 0
  Covers files = (path : String) → is_some (decode path) ≡ true → any (str_eq path) files ≡ true

  load_raw-decodes :
      (path : String) (c : Config) → load_raw lib decode path ≡ ok c → is_some (decode path) ≡ true
  unfolding load_raw
  load_raw-decodes path c h = ground arith

  load_chain_total :
      (files : List String)
      → Covers files
      → (fuel : ℕ) (visiting : List String) (path : String) → remaining visiting files < fuel
      → load_chain lib decode fuel visiting path ≢ none
  unfolding load_chain
  load_chain_total files cover zero visiting path h = elim h [ ]
  load_chain_total files cover (suc fuel) visiting path h =
      elim (Bool-cases (any (str_eq path) visiting)) [
        | inl e ↦ λ p. ground (arith, e)
        | inr new ↦ elim (Result-cases (load_raw lib decode path)) [
          | inl (x, e) ↦ λ p. ground (arith, new, e)
          | inr (child, e) ↦ elim (Result-cases (resolve_extends_path lib child.extends path)) [
            | inl (x, r) ↦ λ p. ground (arith, new, e, r)
            | inr (parent, r) ↦ λ p. ground (
              arith,
              new,
              e,
              r,
              load_chain_total files cover fuel (visiting ++ path ∷ []) parent,
              remaining_lt visiting files path,
              cover path (load_raw-decodes path child e),
            )
          ]
        ]
      ]

  -- If the files that decode are among a finite list, the chain of parents ends within one more step than the list is long, with a configuration or an error.
  pub load_chain_ends :
      (files : List String)
      → Covers files
      → (path : String) → load_chain lib decode (suc (length files)) [] path ≢ none
  load_chain_ends files cover path =
      load_chain_total files cover (suc (length files)) [] path
        (omega (arith, remaining-le-length [] files))

  raw-file_path :
      (path : String) (c : Config) → load_raw lib decode path ≡ ok c → c.file_path ≡ path
  unfolding load_raw
  raw-file_path path c h = ground arith

  under-resolved :
      (child : Config) (parent : String) (r : Result ConfigError Config) (c : Config)
      → under child parent r ≡ ok c
      → (c.file_path ≡ child.file_path) × (c.extends ≡ "")
  unfolding under merge_configs
  under-resolved child parent r c h = ground arith

  -- A configuration that loads names no further parent, and its file is the one that was asked for, not a parent's.
  pub load_chain_resolved :
      (fuel : ℕ) (path : String) (c : Config)
      → load_chain lib decode fuel [] path ≡ some (ok c)
      → (c.file_path ≡ path) × (c.extends ≡ "")
  unfolding load_chain
  load_chain_resolved zero path c h = cc
  load_chain_resolved (suc fuel) path c h = elim (Result-cases (load_raw lib decode path)) [
    | inl (x, e) ↦ ground (arith, e)
    | inr (child, e) ↦ elim (Bool-cases (is_empty child.extends)) [
      | inl last ↦ ground (arith, e, last, raw-file_path path c, str_eq_iff child.extends "")
      | inr more ↦ elim (Result-cases (resolve_extends_path lib child.extends path)) [
        | inl (x, r) ↦ ground (arith, e, more, r)
        | inr (parent, r) ↦ elim (Option-cases (load_chain lib decode fuel (path ∷ []) parent)) [
          | inl o ↦ ground (arith, e, more, r, o)
          | inr (q, o) ↦
              ground
                (arith, e, more, r, o, raw-file_path path child, under-resolved child parent q c)
        ]
      ]
    ]
  ]
