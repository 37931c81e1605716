-- ===== src/Cli/Add/Valid.antt =====
-- The services that the add command asks for.
use kubeport.Prelude.{
  ◌≡◌, refl, sym, ap, ◌∙◌, String, Bool, true, false, ◌&&◌, not, Option, none, some, List, [], ◌∷◌,
  all, map, arith, Bool-cases, Option-cases, inl, inr, ℕ, suc, if◌then◌else◌,
}
use kubeport.Prelude.Int.{ℤ, pos, negsuc, ltb_ℤ, wrap32}
use kubeport.Prelude.GoLib.{GoLib}
use kubeport.Prelude.Result.{ok, ◌>>◌, >>=-eq-ok}
use kubeport.Prelude.Table.{lookup}
use kubeport.Config.{
  is_empty, nonempty, is_multi_port, ports_is_set, PortSelector, ServiceConfig, no_network,
  no_chaos, network_is_set, chaos_is_set, bool_val,
}
use kubeport.Config.Validate.{
  validate_service, check_target, check_ports, check_multi, check_selectors, check_single,
  check_network, check_chaos, check_mode,
}
use kubeport.Config.Validate.Service.{check_network_iff, check_chaos_iff}
use kubeport.Daemon.{AddServiceRequest, requested_service}
use kubeport.Daemon.Convert.{ServiceInfo, PortSpec, service_info_to_config, port_spec_to_config}
use kubeport.Cli.ServiceFlag.{FlagLib}
use kubeport.Cli.Add.{
  AddArgs, no_add_args, AddFlag, add_name, add_service_flag, add_pod, add_namespace, add_local_port,
  add_remote_port, add_ports, add_exclude_ports, add_offset, is_port, port_of_text, set_add_flag,
  add_switch, parse_add_args, check_add_target, check_add_ports, add_port_spec, add_request,
  add_info, cmd_add, add_flags,
}

-- the numbers of the arguments are in the range of a port
abbrev in_range : AddArgs → Bool
in_range a = is_port a.local_port && (is_port a.remote_port && is_port a.local_port_offset)

wrap32-is_port : (p : ℤ) → is_port p ≡ true → wrap32 p ≡ p
unfolding wrap32
wrap32-is_port (pos n) good = ground (arith, good)
wrap32-is_port (negsuc n) good = ground (arith, good)

set_add_flag-in_range :
    (f : FlagLib) (flag : AddFlag) (v : String) (a b : AddArgs)
    → in_range a ≡ true
    → set_add_flag f flag v a ≡ ok b
    → in_range b ≡ true
unfolding set_add_flag port_of_text
set_add_flag-in_range f add_name v a b good set = ground (arith, good, set)
set_add_flag-in_range f add_service_flag v a b good set = ground (arith, good, set)
set_add_flag-in_range f add_pod v a b good set = ground (arith, good, set)
set_add_flag-in_range f add_namespace v a b good set = ground (arith, good, set)
set_add_flag-in_range f add_local_port v a b good set = ground (arith, good, set)
set_add_flag-in_range f add_remote_port v a b good set = ground (arith, good, set)
set_add_flag-in_range f add_ports v a b good set = ground (arith, good, set)
set_add_flag-in_range f add_exclude_ports v a b good set = ground (arith, good, set)
set_add_flag-in_range f add_offset v a b good set = ground (arith, good, set)

add_switch-in_range :
    (arg : String) (a b : AddArgs) → in_range a ≡ true → add_switch arg a ≡ ok b → in_range b ≡ true
unfolding add_switch
add_switch-in_range arg a b good switched = ground (arith, good, switched)

parse_add_args-in_range :
    (f : FlagLib) (args : List String) (a b : AddArgs)
    → in_range a ≡ true
    → parse_add_args f args a ≡ ok b
    → in_range b ≡ true
unfolding parse_add_args
parse_add_args-in_range f [] a b good parsed = ground (arith, good, parsed)
parse_add_args-in_range f (arg ∷ []) a b good parsed =
    ground (arith, good, parsed, add_switch-in_range arg a b good)
parse_add_args-in_range f (arg ∷ value ∷ rest) a b good parsed =
    elim (Option-cases (lookup arg add_flags)) [
      | inr (flag, named) ↦
          let (next, set, later) =
            >>=-eq-ok (set_add_flag f flag value a) (parse_add_args f rest)
              (ground (arith, parsed, named)) in
          parse_add_args-in_range f rest next b (set_add_flag-in_range f flag value a next good set)
            later
      | inl word ↦
          let (next, set, later) =
            >>=-eq-ok (add_switch arg a) (parse_add_args f (value ∷ rest))
              (ground (arith, parsed, word)) in
          parse_add_args-in_range f (value ∷ rest) next b (add_switch-in_range arg a next good set)
            later
    ]

-- a list of ports as validation wants it: all of them, or names that are not empty and no exclusions
abbrev pub is_sound : PortSpec → Bool
is_sound ps =
    if ps.all
    then not (nonempty ps.port_names)
    else nonempty ps.port_names
      && (all (λ n. not (is_empty n)) ps.port_names && not (nonempty ps.exclude_ports))

abbrev named_port : String → PortSelector
named_port n = record { name = n; port = pos 0; local_port = pos 0 }

nonempty-named : (names : List String) → nonempty (map named_port names) ≡ nonempty names
nonempty-named [] = refl
nonempty-named (n ∷ ns) = refl

check_selectors-named :
    (j : ℕ) (names : List String)
    → all (λ n. not (is_empty n)) names ≡ true
    → check_selectors j (map named_port names) ≡ ok tt
unfolding check_selectors
check_selectors-named j [] named = refl
check_selectors-named j (n ∷ ns) named = ground (arith, named, check_selectors-named (suc j) ns)

abbrev pub spec_sound : AddServiceRequest → Bool
spec_sound req = elim req.ports [ none ↦ true | some ps ↦ is_sound ps ]

-- the service that is requested, in the two modes
abbrev add_single : AddArgs → ServiceConfig
add_single a = service_info_to_config (add_info a)

abbrev add_multi : FlagLib → AddArgs → ServiceConfig
add_multi f a =
    let (selected, excluded, offset) = port_spec_to_config (some (add_port_spec f a)) in
    record (add_single a) {
      ports = selected;
      exclude_ports = excluded;
      local_port_offset = offset;
      remote_port = pos 0;
      local_port = pos 0;
    }

-- the request with that list of ports
abbrev with_spec : FlagLib → AddArgs → Option PortSpec → AddServiceRequest
with_spec f a o = record (add_request f a) { ports = o }

requested-single :
    (f : FlagLib) (a : AddArgs)
    → is_empty a.ports_flag ≡ true
    → requested_service (add_request f a) (add_info a) ≡ add_single a
unfolding add_request requested_service service_info_to_config
requested-single f a single =
    let without : (add_request f a).ports ≡ none = ground (arith, single) in
    ap (λ o. requested_service (with_spec f a o) (add_info a)) without

requested-multi :
    (f : FlagLib) (a : AddArgs)
    → is_empty a.ports_flag ≡ false
    → (requested_service (add_request f a) (add_info a) ≡ add_multi f a)
      × (spec_sound (add_request f a) ≡ is_sound (add_port_spec f a))
unfolding add_request requested_service service_info_to_config port_spec_to_config
requested-multi f a multi =
    let listed : (add_request f a).ports ≡ some (add_port_spec f a) = ground (arith, multi) in
    (
      ap (λ o. requested_service (with_spec f a o) (add_info a)) listed,
      ap (λ o. spec_sound (with_spec f a o)) listed,
    )

module _ (lib : GoLib) where
  -- the settings that a request does not have
  blank-valid :
      (s : ServiceConfig)
      → s.network ≡ no_network
      → s.chaos ≡ no_chaos
      → check_mode s ≡ ok tt
      → check_target s ≡ ok tt
      → check_ports s ≡ ok tt
      → validate_service lib s ≡ ok tt
  unfolding validate_service network_is_set chaos_is_set bool_val
  blank-valid s network chaos mode target ports =
      let quiet : check_network lib s ≡ ok tt = (check_network_iff lib s).1 (λ set.
        let unset : network_is_set s.network ≡ false = ap network_is_set network in absurd cc) in
      let calm : check_chaos lib s ≡ ok tt =
        (check_chaos_iff lib s).1
          (λ set. let unset : chaos_is_set s.chaos ≡ false = ap chaos_is_set chaos in absurd cc) in
      ground (arith, target, ports, quiet, calm, mode)

  add_single-valid :
      (a : AddArgs)
      → in_range a ≡ true
      → is_empty a.ports_flag ≡ true
      → check_add_target a ≡ ok tt
      → check_add_ports a ≡ ok tt
      → validate_service lib (add_single a) ≡ ok tt
  unfolding add_info service_info_to_config check_target check_ports check_single check_add_target
      check_add_ports is_multi_port ports_is_set check_mode
  add_single-valid a good single target ports =
      blank-valid (add_single a) refl refl refl (ground (arith, target)) (
        ground
          (arith, ports, single, good, wrap32-is_port a.local_port, wrap32-is_port a.remote_port))

  offset-positive :
      (f : FlagLib) (a : AddArgs)
      → in_range a ≡ true
      → ltb_ℤ (add_port_spec f a).local_port_offset (pos 0) ≡ false
  unfolding add_port_spec
  offset-positive f a good = ground (arith, good, wrap32-is_port a.local_port_offset)

  add_multi-valid :
      (f : FlagLib) (a : AddArgs)
      → in_range a ≡ true
      → check_add_target a ≡ ok tt
      → is_sound (add_port_spec f a) ≡ true
      → validate_service lib (add_multi f a) ≡ ok tt
  unfolding add_info service_info_to_config port_spec_to_config check_target check_ports check_multi
      check_add_target is_multi_port ports_is_set check_mode
  add_multi-valid f a good target sound =
      let ps : PortSpec = add_port_spec f a in
      blank-valid (add_multi f a) refl refl refl (ground (arith, target)) (
        ground (
          arith,
          sound,
          offset-positive f a good,
          nonempty-named ps.port_names,
          check_selectors-named 0 ps.port_names,
        ))

  add_request-valid :
      (f : FlagLib) (a : AddArgs)
      → in_range a ≡ true
      → check_add_target a ≡ ok tt
      → check_add_ports a ≡ ok tt
      → spec_sound (add_request f a) ≡ true
      → validate_service lib (requested_service (add_request f a) (add_info a)) ≡ ok tt
  add_request-valid f a good target ports sound = elim (Bool-cases (is_empty a.ports_flag)) [
    | inl single ↦
        ap (validate_service lib) (requested-single f a single)
        ∙ add_single-valid a good single target ports
    | inr multi ↦
        let (as_multi, same) = requested-multi f a multi in
        ap (validate_service lib) as_multi ∙ add_multi-valid f a good target (sym same ∙ sound)
  ]

  checks_passed :
      (f : FlagLib) (args : List String) (req : AddServiceRequest)
      → cmd_add f args ≡ ok req
      → (a : AddArgs) × (parse_add_args f args no_add_args ≡ ok a)
        × (check_add_target a ≡ ok tt)
        × (check_add_ports a ≡ ok tt)
        × (req ≡ add_request f a)
  unfolding cmd_add
  checks_passed f args req sent =
      let (a, parsed, later) =
        >>=-eq-ok (parse_add_args f args no_add_args)
          (λ a. check_add_target a >> (check_add_ports a >> ok (add_request f a))) sent in
      (a, parsed, ground (arith, later), ground (arith, later), ground (arith, later))

  -- The service of a request that the add command sends is one that validation accepts, if the
  -- request has no list of ports, or all ports without names, or names that are not empty and no
  -- excluded ports.
  pub cmd_add-valid :
      (f : FlagLib) (args : List String) (req : AddServiceRequest)
      → cmd_add f args ≡ ok req
      → spec_sound req ≡ true
      → (si : ServiceInfo) × (req.service ≡ some si)
        × (validate_service lib (requested_service req si) ≡ ok tt)
  unfolding add_request
  cmd_add-valid f args req sent sound =
      let (a, parsed, target, ports, built) = checks_passed f args req sent in
      let good : in_range a ≡ true = parse_add_args-in_range f args no_add_args a refl parsed in
      let sound_too : spec_sound (add_request f a) ≡ true = sym (ap spec_sound built) ∙ sound in
      (
        add_info a,
        ap (λ r. r.service) built,
        ap (λ r. validate_service lib (requested_service r (add_info a))) built
            ∙ add_request-valid f a good target ports sound_too,
      )
