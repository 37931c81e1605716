-- ===== src/Manager/Status.antt =====
-- Manager.Status and Manager.Stop of internal/proxy/manager.go. The counters and times of a forward,
-- which nothing else of the model reads, and whether a local port is open are arguments.
pub mod Names
use kubeport.Prelude.{
  ℕ, String, Bool, true, false, ◌&&◌, not, Option, none, some, List, [], ◌∷◌, ◌++◌, if◌then◌else◌,
}
use kubeport.Prelude.Int.{ℤ, pos, ltb_ℤ, eq_ℤ}
use kubeport.Prelude.Result.{Result, ok, err}
use kubeport.Prelude.Table.{Table, lookup}
use kubeport.Prelude.GoLib.{GoLib, Float64}
use kubeport.Config.{ServiceConfig, NetworkConfig, is_empty}
use kubeport.Config.Network.{ParsedNetworkConfig, resolve_network, check_jitter, bandwidth_field}
use kubeport.Config.Chaos.{ParsedChaosConfig, disabled, injects}
use kubeport.Config.Merge.{resolve_connection_mode}
use kubeport.Manager.{
  Manager, ManagerError, PortForward, ForwardState, ExternalForward, external, stopped,
}

-- the counters and times of a forward; `none` is the zero time
pub record Gauges : Type 0 where
  pub last_start : Option ℤ
  pub next_retry : Option ℤ
  pub bytes_in : ℤ
  pub bytes_out : ℤ
  pub conn_bytes_in : ℤ
  pub conn_bytes_out : ℤ
  pub chaos_errors_injected : ℤ
  pub chaos_spikes_injected : ℤ
  pub tunnel_open : Bool

abbrev pub no_gauges : Gauges
no_gauges = record {
  last_start = none;
  next_retry = none;
  bytes_in = pos 0;
  bytes_out = pos 0;
  conn_bytes_in = pos 0;
  conn_bytes_out = pos 0;
  chaos_errors_injected = pos 0;
  chaos_spikes_injected = pos 0;
  tunnel_open = false;
}

pub record ForwardStatus : Type 0 where
  pub service : ServiceConfig
  pub state : ForwardState
  pub error : Option ManagerError
  pub restarts : ℕ
  pub connected : Bool
  pub actual_port : ℤ
  pub gauges : Gauges
  pub effective_network : ParsedNetworkConfig
  pub chaos_enabled : Bool
  pub effective_chaos : ParsedChaosConfig
  pub lazy : Bool
  pub connection_mode : String
  pub source_config : String
  pub external_instance : String
  pub external_pid : ℤ

abbrev no_simulation : ParsedNetworkConfig
no_simulation = record { latency = pos 0; jitter = pos 0; bytes_per_sec = pos 0 }

-- the port to show: the assigned one, or the configured one
unfoldable pub shown_port : PortForward → ℤ
shown_port pf = if eq_ℤ pf.actual_port (pos 0) then pf.svc.local_port else pf.actual_port

-- the live chaos settings, if any were stored
unfoldable pub live_chaos : PortForward → ParsedChaosConfig
live_chaos pf = elim pf.chaos_override [ none ↦ disabled | some cfg ↦ cfg ]

-- the status of a service that another instance manages
unfoldable pub external_status : ExternalForward → ForwardStatus
external_status ef = record {
  service = ef.service;
  state = external;
  error = none;
  restarts = 0;
  connected = false;
  actual_port = ef.actual_port;
  gauges = no_gauges;
  effective_network = no_simulation;
  chaos_enabled = false;
  effective_chaos = disabled;
  lazy = false;
  connection_mode = "";
  source_config = "";
  external_instance = ef.instance_endpoint;
  external_pid = ef.pid;
}

-- the loop over the external forwards
unfoldable pub external_statuses : Table ExternalForward → List ForwardStatus
external_statuses [] = []
external_statuses ((name, ef) ∷ rest) = external_status ef ∷ external_statuses rest

module _ (lib : GoLib) where
  open lib use {parse_duration}

  -- a duration, 0 if it is not one
  unfoldable pub duration_shown : String → ℤ
  duration_shown s =
      if is_empty s then pos 0 else elim (parse_duration s) [ none ↦ pos 0 | some d ↦ d ]

  -- the field is given and refused
  unfoldable pub bad_field : String → Bool
  bad_field s =
      if is_empty s
      then false
      else elim (parse_duration s) [ none ↦ true | some d ↦ ltb_ℤ d (pos 0) ]

  -- the first result of NetworkConfig.Parse, which is filled in as far as the checks were passed
  unfoldable pub network_so_far : NetworkConfig → ParsedNetworkConfig
  network_so_far n =
      let only_latency = record no_simulation { latency = duration_shown n.latency } in
      let both = record only_latency { jitter = duration_shown n.jitter } in
      if bad_field n.latency
      then only_latency
      else if bad_field n.jitter
      then both
      else elim (check_jitter both.latency both.jitter) [
        | err e ↦ both
        | ok _ ↦ elim (bandwidth_field lib n.bandwidth) [
          | err e ↦ both
          | ok bytes ↦ record both { bytes_per_sec = bytes }
        ]
      ]

module _ (lib : GoLib) (port_open : ℤ → Bool) (gauges_of : String → Gauges) where
  -- the status of one forward
  unfoldable pub forward_status : Manager → String → PortForward → ForwardStatus
  forward_status m name pf = record {
    service = pf.svc;
    state = pf.state;
    error = pf.error;
    restarts = pf.restarts;
    connected = ltb_ℤ (pos 0) (shown_port pf) && port_open (shown_port pf);
    actual_port = shown_port pf;
    gauges = gauges_of name;
    effective_network = network_so_far lib (resolve_network m.cfg.network pf.svc.network);
    chaos_enabled = injects (live_chaos pf);
    effective_chaos = live_chaos pf;
    lazy = pf.svc.lazy;
    connection_mode = resolve_connection_mode m.cfg.supervisor pf.svc;
    source_config = pf.source_config;
    external_instance = "";
    external_pid = pos 0;
  }

  -- the loop over the order; `none` is the nil dereference of a name without a forward
  unfoldable pub statuses_along : Manager → List String → Option (List ForwardStatus)
  statuses_along m [] = some []
  statuses_along m (name ∷ rest) = elim (lookup name m.forwards) [
    | none ↦ none
    | some pf ↦ elim (statuses_along m rest) [
      | none ↦ none
      | some more ↦ some (forward_status m name pf ∷ more)
    ]
  ]

  -- Status
  unfoldable pub status : Manager → Option (List ForwardStatus)
  status m = elim (statuses_along m m.order) [
    | none ↦ none
    | some own ↦ some (own ++ external_statuses m.external_forwards)
  ]

-- the loop of Stop, which marks every forward
unfoldable pub mark_stopped : Table PortForward → Table PortForward
mark_stopped [] = []
mark_stopped ((name, pf) ∷ rest) = (name, record pf { state = stopped }) ∷ mark_stopped rest

-- Stop; that it also ends the event loop and every attempt is not part of this state
unfoldable pub stop : Manager → Manager
stop m = record m { forwards = mark_stopped m.forwards }
