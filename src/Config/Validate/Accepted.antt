-- ===== src/Config/Validate/Accepted.antt =====
-- What the daemon may rely on once Config.Validate has accepted a configuration.
use kubeport.Prelude.{
  ℕ, suc, ◌≡◌, ◌≢◌, String, true, false, none, some, List, [], ◌∷◌, arith, All, any, map, str_eq,
  str_eq_iff,
}
use kubeport.Prelude.Result.{ok}
use kubeport.Prelude.GoLib.{GoLib, cut_prefix}
use kubeport.Config.{HookConfig, SupervisorConfig, Config, network_is_set, chaos_is_set}
use kubeport.Config.Error
use kubeport.Config.Error.{ConfigError}
use kubeport.Config.Network.{ParsedNetworkConfig, parse_network}
use kubeport.Config.Chaos.{ParsedChaosConfig, parse_chaos}
use kubeport.Config.Validate.{
  check_listen, check_filter, validate_hook, check_hooks, bad_duration, check_durations,
  validate_supervisor, check_services, validate_config, checked,
}
use kubeport.Config.Validate.Service.{IsValidService, checked_iff}
use kubeport.Config.Validate.Whole.{AllApart, check_services_iff}

-- every service that a hook filters by is configured
abbrev pub Known : List String → HookConfig → Type 0
Known names h = All (λ f. any (str_eq f) names ≡ true) h.filter_services

module _ (lib : GoLib) where
  abbrev pub GoodDurations : SupervisorConfig → Type 0
  GoodDurations s =
      (bad_duration lib s.health_check_interval ≡ false)
      × (bad_duration lib s.ready_timeout ≡ false)
      × (bad_duration lib s.backoff_initial ≡ false)
      × (bad_duration lib s.backoff_max ≡ false)
      × (bad_duration lib s.max_connection_age ≡ false)

  pub record IsAccepted (c : Config) : Type 0 where
    pub some_service : c.services ≢ []
    pub each_service : All (IsValidService lib) c.services
    pub ports_apart : AllApart c.services
    pub tcp_has_key :
        (addr : String)
        → cut_prefix c.listen "sock://" ≡ none
        → cut_prefix c.listen "tcp://" ≡ some addr
        → c.listen ≢ ""
        → (c.api_key ≢ "") × (lib.split_host_port addr ≢ none)
    pub hooks_known : All (Known (map (λ s. s.name) c.services)) c.hooks
    pub durations : GoodDurations c.supervisor
    pub network :
        network_is_set c.network ≡ true
        → (p : ParsedNetworkConfig) × (parse_network lib c.network ≡ ok p)
    pub chaos :
        chaos_is_set c.chaos ≡ true → (p : ParsedChaosConfig) × (parse_chaos lib c.chaos ≡ ok p)

  listen_key :
      (c : Config) (addr : String)
      → check_listen lib c ≡ ok tt
      → cut_prefix c.listen "sock://" ≡ none
      → cut_prefix c.listen "tcp://" ≡ some addr
      → c.listen ≢ ""
      → (c.api_key ≢ "") × (lib.split_host_port addr ≢ none)
  unfolding check_listen
  listen_key c addr h s t l = ground (arith, str_eq_iff c.listen "", str_eq_iff c.api_key "")

  filter_known :
      (i : ℕ) (names fs : List String)
      → check_filter lib i names fs ≡ ok tt
      → All (λ f. any (str_eq f) names ≡ true) fs
  unfolding check_filter
  filter_known i names [] h = tt
  filter_known i names (f ∷ fs) h = ground (arith, filter_known i names fs)

  hook-Known :
      (i : ℕ) (h : HookConfig) (names : List String)
      → validate_hook lib i h names ≡ ok tt
      → Known names h
  unfolding validate_hook
  hook-Known i h names e = filter_known i names h.filter_services (ground arith)

  hooks_known_lem :
      (i : ℕ) (hs : List HookConfig) (names : List String)
      → check_hooks lib i hs names ≡ ok tt
      → All (Known names) hs
  unfolding check_hooks
  hooks_known_lem i [] names e = tt
  hooks_known_lem i (h ∷ hs) names e =
      (hook-Known i h names (ground arith), hooks_known_lem (suc i) hs names (ground arith))

  durations_good : (s : SupervisorConfig) → validate_supervisor lib s ≡ ok tt → GoodDurations s
  unfolding validate_supervisor check_durations
  durations_good s e = ground arith

  -- the six checks behind the test for an empty list
  accepted_parts :
      (c : Config)
      → validate_config lib c ≡ ok tt
      → (c.services ≢ [])
        × (check_services lib 0 [] c.services ≡ ok tt)
        × (check_listen lib c ≡ ok tt)
        × (check_hooks lib 0 c.hooks (map (λ s. s.name) c.services) ≡ ok tt)
        × (validate_supervisor lib c.supervisor ≡ ok tt)
        × (checked (network_is_set c.network) Error.in_global_network (parse_network lib c.network)
            ≡ ok tt)
        × (checked (chaos_is_set c.chaos) Error.in_global_chaos (parse_chaos lib c.chaos) ≡ ok tt)
  unfolding validate_config
  accepted_parts c h = ground arith

  -- An accepted configuration has at least one service, only valid services, no two single-port services with the same non-zero local port, an API key and a well-formed address if it listens on tcp, hooks that filter by configured services only, supervisor durations that parse, and global network and chaos settings that parse where they are set.
  pub validate_config-IsAccepted : (c : Config) → validate_config lib c ≡ ok tt → IsAccepted c
  validate_config-IsAccepted c h =
      let (ne, ss, l, hk, sup, net, ch) = accepted_parts c h in
      let services = (check_services_iff lib c.services).0 ss in
      record {
        some_service = ne;
        each_service = services.0;
        ports_apart = services.1;
        tcp_has_key = λ addr. listen_key c addr l;
        hooks_known = hooks_known_lem 0 c.hooks (map (λ s. s.name) c.services) hk;
        durations = durations_good c.supervisor sup;
        network =
            (checked_iff (network_is_set c.network) Error.in_global_network
                (parse_network lib c.network)).0
              net;
        chaos =
            (checked_iff (chaos_is_set c.chaos) Error.in_global_chaos (parse_chaos lib c.chaos)).0
              ch;
      }
