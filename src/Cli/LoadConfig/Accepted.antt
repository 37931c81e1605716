-- ===== src/Cli/LoadConfig/Accepted.antt =====
-- The configuration that a command works with.
use kubeport.Prelude.{
  ◌≡◌, refl, ap, ◌∙◌, String, Bool, true, ◌||◌, some, List, [], ◌∷◌, all, arith, Bool-cases,
  Option-cases, inl, inr,
}
use kubeport.Prelude.GoLib.{GoLib}
use kubeport.Prelude.Result.{ok, Result-cases}
use kubeport.Config.{ServiceConfig, Config, is_empty, nonempty}
use kubeport.Config.Validate.{validate_config}
use kubeport.Config.Validate.Accepted.{IsAccepted, validate_config-IsAccepted}
use kubeport.Config.Load.{load}
use kubeport.Config.Edit.{new_in_memory}
use kubeport.Cli.{App}
use kubeport.Cli.ServiceFlag.{FlagLib, parse_cli_services}
use kubeport.Cli.LoadConfig.{
  Sources, is_disabled, without_disabled, override_one, override_each, or_given, apply_flags,
  accept, build_config_from_cli, load_file, load_with, load_config,
}

-- A property of services that those of the flags have, and those of the file that are not disabled.
module _ (lib : GoLib) (holds : ServiceConfig → Bool) where
  abbrev pub enabled_hold : List String → List ServiceConfig → Bool
  enabled_hold disabled services = all (λ s. is_disabled lib disabled s || holds s) services

  all-without_disabled :
      (disabled : List String) (services : List ServiceConfig)
      → enabled_hold disabled services ≡ true
      → all holds (without_disabled lib disabled services) ≡ true
  unfolding without_disabled
  all-without_disabled disabled [] given = refl
  all-without_disabled disabled (s ∷ rest) given =
      ground (arith, given, all-without_disabled disabled rest)

  all-override_one :
      (equal_fold : String → String → Bool) (new : ServiceConfig) (services : List ServiceConfig)
      → holds new ≡ true
      → all holds services ≡ true
      → all holds (override_one equal_fold new services) ≡ true
  unfolding override_one
  all-override_one equal_fold new [] good given = ground (arith, good)
  all-override_one equal_fold new (s ∷ rest) good given =
      ground (arith, good, given, all-override_one equal_fold new rest)

  all-override_each :
      (equal_fold : String → String → Bool) (cli services : List ServiceConfig)
      → all holds cli ≡ true
      → all holds services ≡ true
      → all holds (override_each equal_fold cli services) ≡ true
  unfolding override_each
  all-override_each equal_fold [] services good given = given
  all-override_each equal_fold (new ∷ rest) services good given =
      all-override_each equal_fold rest (override_one equal_fold new services)
        (ground (arith, good))
        (all-override_one equal_fold new services (ground (arith, good)) given)

  -- the outcome of loading: a valid configuration all of whose services have the property
  abbrev IsGood : App → Type 0
  IsGood a = (c : Config) × (a.cfg ≡ some c) × IsAccepted lib c × (all holds c.services ≡ true)

  accept-IsGood :
      (a : App) (c : Config) (after : App)
      → all holds c.services ≡ true
      → accept lib a c ≡ ok after
      → IsGood after
  unfolding accept
  accept-IsGood a c after given accepted = elim (Result-cases (validate_config lib c)) [
    | inl (e, refused) ↦ absurd (ground (arith, accepted, refused))
    | inr (tt, valid) ↦
        (c, ground (arith, accepted, valid), validate_config-IsAccepted lib c valid, given)
  ]

  build-IsGood :
      (a : App) (cli : List ServiceConfig) (after : App)
      → all holds cli ≡ true
      → build_config_from_cli lib a cli ≡ ok after
      → IsGood after
  unfolding build_config_from_cli new_in_memory
  build-IsGood a cli after good built = elim (Bool-cases (nonempty cli)) [
    | inr none_given ↦ absurd (ground (arith, built, none_given))
    | inl some_given ↦
        accept-IsGood a (new_in_memory a.cli_context (or_given a.cli_namespace "default") cli) after
          good (ground (arith, built, some_given))
  ]

  module _ (src : Sources) where
    -- what the services of a file that can be loaded must satisfy
    abbrev pub FilesHold : App → Type 0
    FilesHold a =
        (path : String) (c : Config)
        → load lib src.decode src.fuel src.environment path ≡ some (ok c)
        → enabled_hold a.disable_services c.services ≡ true

    load_file-IsGood :
        (a : App) (cli : List ServiceConfig) (path : String) (after : App)
        → all holds cli ≡ true
        → FilesHold a
        → load_file lib src a cli path ≡ some (ok after)
        → IsGood after
    unfolding load_file apply_flags
    load_file-IsGood a cli path after good files finished =
        elim (Option-cases (load lib src.decode src.fuel src.environment path)) [
          | inl unfinished ↦ absurd (ground (arith, finished, unfinished))
          | inr (r, loaded) ↦ elim (Result-cases r) [
            | inl (e, failed) ↦ absurd (ground (arith, finished, loaded, failed))
            | inr (c, read) ↦
                accept-IsGood (record a { config_file = path }) (apply_flags lib src a cli c) after
                  (all-override_each src.equal_fold cli
                    (without_disabled lib a.disable_services c.services) good
                    (all-without_disabled a.disable_services c.services
                      (files path c (loaded ∙ ap some read))))
                  (ground (arith, finished, loaded, read))
          ]
        ]

    load_with-IsGood :
        (a : App) (cli : List ServiceConfig) (after : App)
        → all holds cli ≡ true
        → FilesHold a
        → load_with lib src a cli ≡ some (ok after)
        → IsGood after
    unfolding load_with
    load_with-IsGood a cli after good files finished = elim (Bool-cases a.no_config) [
      | inl no_file ↦ build-IsGood a cli after good (ground (arith, finished, no_file))
      | inr may_read ↦ elim (Bool-cases (is_empty a.config_file)) [
        | inr named ↦
            load_file-IsGood a cli a.config_file after good files
              (ground (arith, finished, may_read, named))
        | inl unnamed ↦ elim (Option-cases src.discovered) [
          | inl nothing ↦
              build-IsGood a cli after good (ground (arith, finished, may_read, unnamed, nothing))
          | inr (path, found) ↦
              load_file-IsGood a cli path after good files
                (ground (arith, finished, may_read, unnamed, found))
        ]
      ]
    ]

    -- If loadConfig succeeds, the configuration that the command works with satisfies every
    -- condition of the validation, also with the flags applied; and whatever holds of the services
    -- of the --svc flags and of those of each file that are not disabled holds of all its services.
    pub load_config-IsAccepted :
        (f : FlagLib) (a : App) (cli : List ServiceConfig) (after : App)
        → parse_cli_services lib f a.cli_services ≡ ok cli
        → all holds cli ≡ true
        → FilesHold a
        → load_config lib f src a ≡ some (ok after)
        → (c : Config) × (after.cfg ≡ some c) × IsAccepted lib c × (all holds c.services ≡ true)
    unfolding load_config
    load_config-IsAccepted f a cli after parsed good files finished =
        load_with-IsGood a cli after good files (ground (arith, finished, parsed))
