-- ===== src/Config/Validate.antt =====
-- ValidateService, Config.Validate, validateHook and SupervisorConfig.validate of
-- pkg/config/config.go. `none` of a Go error is `ok tt`.
pub mod Service
pub mod Whole
pub mod Accepted
use kubeport.Prelude.{
  ℕ, suc, String, Bool, true, false, ◌&&◌, ◌||◌, not, Option, none, some, List, [], ◌∷◌, map, any,
  str_eq, if◌then◌else◌,
}
use kubeport.Prelude.Int.{ℤ, pos, ltb_ℤ, leb_ℤ, eq_ℤ}
use kubeport.Prelude.Result.{Result, ok, err, wrap, ◌>>=◌, ◌>>◌}
use kubeport.Prelude.GoLib.{GoLib, cut_prefix}
use kubeport.Config.{
  PortSelector, ServiceConfig, HookConfig, SupervisorConfig, Config, is_empty, nonempty,
  is_multi_port, network_is_set, chaos_is_set,
}
use kubeport.Config.Error
use kubeport.Config.Error.{ParseError, ServiceError, ConfigError}
use kubeport.Config.Network.{parse_network}
use kubeport.Config.Chaos.{parse_chaos}

unfoldable pub check_target : ServiceConfig → Result ServiceError (Unit {0})
check_target s =
    if is_empty s.name
    then err Error.name_required
    else if is_empty s.service && is_empty s.pod
    then err Error.target_missing
    else if not (is_empty s.service) && not (is_empty s.pod)
    then err Error.target_ambiguous
    else ok tt

-- outside 0 to 65535
abbrev pub out_of_range : ℤ → Bool
out_of_range p = ltb_ℤ p (pos 0) || ltb_ℤ (pos 65535) p

-- the loop over the selectors, with its index
unfoldable pub check_selectors : ℕ → List PortSelector → Result ServiceError (Unit {0})
check_selectors j [] = ok tt
check_selectors j (sel ∷ rest) =
    let later = check_selectors (suc j) rest in
    if is_empty sel.name && eq_ℤ sel.port (pos 0)
    then err (Error.selector_empty j)
    else if out_of_range sel.port
    then err (Error.selector_port j)
    else if out_of_range sel.local_port
    then err (Error.selector_local_port j)
    else later

unfoldable pub check_multi : ServiceConfig → Result ServiceError (Unit {0})
check_multi s =
    if not (eq_ℤ s.remote_port (pos 0))
    then err Error.remote_port_in_multi
    else if not (eq_ℤ s.local_port (pos 0))
    then err Error.local_port_in_multi
    else if nonempty s.exclude_ports && not s.ports.all
    then err Error.exclude_without_all
    else if ltb_ℤ s.local_port_offset (pos 0)
    then err Error.negative_offset
    else check_selectors 0 s.ports.selectors

unfoldable pub check_single : ServiceConfig → Result ServiceError (Unit {0})
check_single s =
    if nonempty s.exclude_ports
    then err Error.exclude_in_single
    else if not (eq_ℤ s.local_port_offset (pos 0))
    then err Error.offset_in_single
    else if out_of_range s.local_port
    then err Error.bad_local_port
    else if leb_ℤ s.remote_port (pos 0) || ltb_ℤ (pos 65535) s.remote_port
    then err Error.bad_remote_port
    else ok tt

unfoldable pub check_ports : ServiceConfig → Result ServiceError (Unit {0})
check_ports s = if is_multi_port s then check_multi s else check_single s

unfoldable pub check_mode : ServiceConfig → Result ServiceError (Unit {0})
check_mode s =
    if not (is_empty s.connection_mode)
      && not (str_eq s.connection_mode "mux")
      && not (str_eq s.connection_mode "isolated")
    then err Error.bad_connection_mode
    else if str_eq s.connection_mode "isolated" && is_multi_port s
    then err Error.isolated_multi_port
    else ok tt

-- `if set { if _, err := Parse(); err != nil { return err } }`
abbrev pub checked {ℓ} :
    {E F : Type 0} {A : Type ℓ} → Bool → (E → F) → Result E A → Result F (Unit {0})
checked set context (ok a) = ok tt
checked set context (err e) = if set then err (context e) else ok tt

module _ (lib : GoLib) where
  unfoldable pub check_network : ServiceConfig → Result ServiceError (Unit {0})
  check_network s =
      checked (network_is_set s.network) Error.in_network (parse_network lib s.network)

  unfoldable pub check_chaos : ServiceConfig → Result ServiceError (Unit {0})
  check_chaos s = checked (chaos_is_set s.chaos) Error.in_chaos (parse_chaos lib s.chaos)

  -- ValidateService
  unfoldable pub validate_service : ServiceConfig → Result ServiceError (Unit {0})
  validate_service s = do
    check_target s
    check_ports s
    check_network s
    check_chaos s
    check_mode s

-- The map `seen` from a static local port to the service that claimed it.
unfoldable pub claimed_by : ℤ → List (ℤ × String) → Option String
claimed_by port [] = none
claimed_by port ((p, name) ∷ seen) = if eq_ℤ p port then some name else claimed_by port seen

-- a single-port service with a fixed local port
unfoldable pub claims : ServiceConfig → Bool
claims s = not (is_multi_port s) && not (eq_ℤ s.local_port (pos 0))

-- `path after sock://`
check_socket_path : (String → String) → (String → Bool) → String → Result ConfigError (Unit {0})
check_socket_path clean has_dot_dot path =
    if is_empty path
    then err Error.empty_socket_path
    else if has_dot_dot (clean path)
    then err Error.dot_dot_in_socket_path
    else ok tt

check_tcp : Option (String × String) → String → Result ConfigError (Unit {0})
check_tcp none api_key = err Error.bad_tcp_address
check_tcp (some hp) api_key = if is_empty api_key then err Error.api_key_required else ok tt

module _ (lib : GoLib) where
  open lib use {parse_duration, split_host_port, clean, has_dot_dot}

  -- the loop over the services; `i` is the index, `seen` the static ports claimed so far
  unfoldable pub check_services :
      ℕ → List (ℤ × String) → List ServiceConfig → Result ConfigError (Unit {0})
  check_services i seen [] = ok tt
  check_services i seen (s ∷ rest) = do
    wrap (Error.in_service i) (validate_service lib s)
    let seen' = if claims s then (s.local_port, s.name) ∷ seen else seen
    elim (if claims s then claimed_by s.local_port seen else none) [
      | some prev ↦ err (Error.port_taken i s.local_port prev)
      | none ↦ check_services (suc i) seen' rest
    ]

  unfoldable pub check_listen : Config → Result ConfigError (Unit {0})
  unfolding check_socket_path check_tcp
  check_listen c = if is_empty c.listen then ok tt else elim (cut_prefix c.listen "sock://") [
    | some path ↦ check_socket_path clean has_dot_dot path
    | none ↦ elim (cut_prefix c.listen "tcp://") [
      | some addr ↦ check_tcp (split_host_port addr) c.api_key
      | none ↦ err Error.bad_listen_scheme
    ]
  ]

  -- the loop over filter_services
  unfoldable pub check_filter : ℕ → List String → List String → Result ConfigError (Unit {0})
  check_filter i names [] = ok tt
  check_filter i names (f ∷ rest) =
      let later = check_filter i names rest in
      if any (str_eq f) names then later else err (Error.hook_filter i f)

  unfoldable pub bad_duration : String → Bool
  bad_duration s = not (is_empty s) && (elim (parse_duration s) [ none ↦ true | some d ↦ false ])

  -- validateHook
  unfoldable pub validate_hook : ℕ → HookConfig → List String → Result ConfigError (Unit {0})
  validate_hook i h names =
      if is_empty h.name
      then err (Error.hook_name i)
      else if is_empty h.kind
      then err (Error.hook_type i)
      else if bad_duration h.timeout
      then err (Error.hook_timeout i)
      else if not (is_empty h.fail_mode)
          && not (str_eq h.fail_mode "open")
          && not (str_eq h.fail_mode "closed")
      then err (Error.hook_fail_mode i)
      else check_filter i names h.filter_services

  unfoldable pub check_hooks : ℕ → List HookConfig → List String → Result ConfigError (Unit {0})
  check_hooks i [] names = ok tt
  check_hooks i (h ∷ rest) names = do validate_hook i h names; check_hooks (suc i) rest names

  -- the loop over the named durations
  unfoldable pub check_durations : List (String × String) → Result ParseError (Unit {0})
  check_durations [] = ok tt
  check_durations ((name, val) ∷ rest) =
      let later = check_durations rest in
      if bad_duration val then err (Error.invalid_duration name val) else later

  -- SupervisorConfig.validate
  unfoldable pub validate_supervisor : SupervisorConfig → Result ParseError (Unit {0})
  validate_supervisor s = check_durations (
      ("health_check_interval", s.health_check_interval)
      ∷ ("ready_timeout", s.ready_timeout)
      ∷ ("backoff_initial", s.backoff_initial)
      ∷ ("backoff_max", s.backoff_max)
      ∷ ("max_connection_age", s.max_connection_age)
      ∷ [])

  -- Config.Validate
  unfoldable pub validate_config : Config → Result ConfigError (Unit {0})
  validate_config c = if not (nonempty c.services) then err Error.no_services else do
    check_services 0 [] c.services
    check_listen c
    check_hooks 0 c.hooks (map (λ s. s.name) c.services)
    wrap Error.in_supervisor (validate_supervisor c.supervisor)
    checked (network_is_set c.network) Error.in_global_network (parse_network lib c.network)
    checked (chaos_is_set c.chaos) Error.in_global_chaos (parse_chaos lib c.chaos)
