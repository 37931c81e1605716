-- ===== src/Config/Validate/Service.antt =====
-- ValidateService accepts exactly the services that its rules describe.
use kubeport.Prelude.{
  ℕ, suc, ◌≡◌, refl, ◌≢◌, ◌↔◌, ◌⊎◌, Bool, true, false, List, [], ◌∷◌, arith, All, str_eq_iff,
}
use kubeport.Prelude.Int.{ℤ, pos, ◌≤ℤ◌, ◌<ℤ◌}
use kubeport.Prelude.Result.{Result, ok, err, ◌>>◌}
use kubeport.Prelude.GoLib.{GoLib}
use kubeport.Config.{PortSelector, ServiceConfig, is_multi_port, network_is_set, chaos_is_set}
use kubeport.Config.Error.{in_network, in_chaos}
use kubeport.Config.Network.{ParsedNetworkConfig, parse_network}
use kubeport.Config.Chaos.{ParsedChaosConfig, parse_chaos}
use kubeport.Config.Validate.{
  check_target, check_selectors, check_multi, check_single, check_ports, check_mode, check_network,
  check_chaos, validate_service, checked,
}

-- a port number, or 0 where it is left open
abbrev pub InRange : ℤ → Type 0
InRange p = (pos 0 ≤ℤ p) × (p ≤ℤ pos 65535)

-- exactly one of the two targets is set
abbrev pub OneTarget : ServiceConfig → Type 0
OneTarget s = ((s.service ≢ "") × (s.pod ≡ "")) ⊎ ((s.service ≡ "") × (s.pod ≢ ""))

abbrev pub SelectorOk : PortSelector → Type 0
SelectorOk sel = ((sel.name ≢ "") ⊎ (sel.port ≢ pos 0)) × InRange sel.port × InRange sel.local_port

pub record MultiOk (s : ServiceConfig) : Type 0 where
  pub no_remote : s.remote_port ≡ pos 0
  pub no_local : s.local_port ≡ pos 0
  pub exclude_needs_all : (s.exclude_ports ≡ []) ⊎ (s.ports.all ≡ true)
  pub offset : pos 0 ≤ℤ s.local_port_offset
  pub each : All SelectorOk s.ports.selectors

pub record SingleOk (s : ServiceConfig) : Type 0 where
  pub no_exclude : s.exclude_ports ≡ []
  pub no_offset : s.local_port_offset ≡ pos 0
  pub local : InRange s.local_port
  pub remote : (pos 0 <ℤ s.remote_port) × (s.remote_port ≤ℤ pos 65535)

abbrev pub PortsOk : ServiceConfig → Type 0
PortsOk s = ((is_multi_port s ≡ true) × MultiOk s) ⊎ ((is_multi_port s ≡ false) × SingleOk s)

abbrev pub ModeOk : ServiceConfig → Type 0
ModeOk s =
    (s.connection_mode ≡ "")
    ⊎ (s.connection_mode ≡ "mux")
    ⊎ ((s.connection_mode ≡ "isolated") × (is_multi_port s ≡ false))

check_target_iff : (s : ServiceConfig) → (check_target s ≡ ok tt) ↔ ((s.name ≢ "") × OneTarget s)
unfolding check_target
check_target_iff s =
    ground (arith, str_eq_iff s.name "", str_eq_iff s.service "", str_eq_iff s.pod "")

check_selectors_iff :
    (j : ℕ) (sels : List PortSelector) → (check_selectors j sels ≡ ok tt) ↔ All SelectorOk sels
unfolding check_selectors
check_selectors_iff j [] = ground arith
check_selectors_iff j (sel ∷ rest) =
    ground (arith, str_eq_iff sel.name "", check_selectors_iff (suc j) rest)

check_single_iff : (s : ServiceConfig) → (check_single s ≡ ok tt) ↔ SingleOk s
unfolding check_single
check_single_iff s = ground arith

check_multi_iff : (s : ServiceConfig) → (check_multi s ≡ ok tt) ↔ MultiOk s
unfolding check_multi
check_multi_iff s = ground (arith, check_selectors_iff 0 s.ports.selectors)

check_ports_iff : (s : ServiceConfig) → (check_ports s ≡ ok tt) ↔ PortsOk s
unfolding check_ports
check_ports_iff s = ground (arith, check_multi_iff s, check_single_iff s)

check_mode_iff : (s : ServiceConfig) → (check_mode s ≡ ok tt) ↔ ModeOk s
unfolding check_mode
check_mode_iff s = ground (
  arith,
  str_eq_iff s.connection_mode "",
  str_eq_iff s.connection_mode "mux",
  str_eq_iff s.connection_mode "isolated",
  str_eq_iff "" "isolated",
  str_eq_iff "mux" "isolated",
)

pub checked_iff :
    {E F A : Type 0} (set : Bool) (context : E → F) (r : Result E A)
    → (checked set context r ≡ ok tt) ↔ (set ≡ true → (a : A) × (r ≡ ok a))
checked_iff set context (ok a) = (λ _ _. (a, refl), λ _. refl)
checked_iff true context (err e) = (λ h. cc, λ h. cc (h refl).1)
checked_iff false context (err e) = (λ _ h. cc, λ _. refl)

-- a chain of five checks succeeds only if each does
five :
    {E : Type 0} (a b c d e : Result E (Unit {0}))
    → (a >> (b >> (c >> (d >> e)))) ≡ ok tt
    → (a ≡ ok tt) × (b ≡ ok tt) × (c ≡ ok tt) × (d ≡ ok tt) × (e ≡ ok tt)
five a b c d e h = ground arith

module _ (lib : GoLib) where
  pub record IsValidService (s : ServiceConfig) : Type 0 where
    pub named : s.name ≢ ""
    pub one_target : OneTarget s
    pub ports : PortsOk s
    pub network :
        network_is_set s.network ≡ true
        → (p : ParsedNetworkConfig) × (parse_network lib s.network ≡ ok p)
    pub chaos :
        chaos_is_set s.chaos ≡ true → (p : ParsedChaosConfig) × (parse_chaos lib s.chaos ≡ ok p)
    pub mode : ModeOk s

  pub check_network_iff :
      (s : ServiceConfig)
      → (check_network lib s ≡ ok tt) ↔ (
          network_is_set s.network ≡ true
          → (p : ParsedNetworkConfig) × (parse_network lib s.network ≡ ok p))
  unfolding check_network
  check_network_iff s =
      checked_iff (network_is_set s.network) in_network (parse_network lib s.network)

  pub check_chaos_iff :
      (s : ServiceConfig)
      → (check_chaos lib s ≡ ok tt)
        ↔ (chaos_is_set s.chaos ≡ true → (p : ParsedChaosConfig) × (parse_chaos lib s.chaos ≡ ok p))
  unfolding check_chaos
  check_chaos_iff s = checked_iff (chaos_is_set s.chaos) in_chaos (parse_chaos lib s.chaos)

  -- A service is accepted exactly if it has a name, exactly one of service and pod, ports that fit its mode (single-port: a remote port in 1 to 65535 and a local port in 0 to 65535; multi-port: neither of the two, selectors in range that name a port), network and chaos settings that parse where they are set, and a known connection mode, which is not isolated beside multi-port.
  pub validate_service_iff :
      (s : ServiceConfig) → (validate_service lib s ≡ ok tt) ↔ IsValidService s
  unfolding validate_service
  validate_service_iff s = (
    λ h.
        let (a, b, c, d, e) =
          five (check_target s) (check_ports s) (check_network lib s) (check_chaos lib s)
            (check_mode s) h in
        let t = (check_target_iff s).0 a in
        record {
          named = t.0;
          one_target = t.1;
          ports = (check_ports_iff s).0 b;
          network = (check_network_iff s).0 c;
          chaos = (check_chaos_iff s).0 d;
          mode = (check_mode_iff s).0 e;
        },
    λ v. rw (
      (check_target_iff s).1 (v.named, v.one_target),
      (check_ports_iff s).1 v.ports,
      (check_network_iff s).1 v.network,
      (check_chaos_iff s).1 v.chaos,
      (check_mode_iff s).1 v.mode,
    ),
  )
