-- ===== src/Attempt.antt =====
-- One attempt of a forward: runPortForward and handlePodEvents of internal/proxy/manager.go,
-- isolatedSupervise of internal/proxy/isolated.go and the events of internal/proxy/pod_watcher.go.
-- What the Kubernetes API, the tunnel, the timers and the local port do are inputs.
pub mod Degraded
pub mod Health
pub mod PodEvents
mod Tests
use kubeport.Prelude.{
  ℕ, suc, String, Bool, true, false, ◌&&◌, not, Option, none, some, List, [], ◌∷◌, ◌++◌, length,
  ltb, str_eq, if◌then◌else◌,
}
use kubeport.Prelude.Int.{ℤ, pos, ltb_ℤ, leb_ℤ}
use kubeport.Prelude.Result.{Result, ok, err}
use kubeport.Prelude.GoLib.{GoLib}
use kubeport.Config.{ChaosConfig, is_empty}
use kubeport.Config.Chaos.{parsed_so_far, resolve_chaos}
use kubeport.Hook.{EventType, forward_connected, health_check_failed}
use kubeport.Manager.{PortForward, ManagerError, running}
use kubeport.Supervise.{ParsedSupervisorConfig, AttemptEnd, preempted, failed_after}

pub data AttemptError : Type 0 where
  unresolved : ManagerError → AttemptError
  no_dialer : AttemptError
  no_forwarder : AttemptError
  bind_failed : AttemptError
  startup_failed : AttemptError
  closed_before_ready : AttemptError
  not_ready_in_time : AttemptError
  cancelled_attempt : AttemptError
  closed_forward : AttemptError
  age_reached : AttemptError
  err_preempted : AttemptError
  degraded : ℕ → AttemptError
  unhealthy : ℕ → AttemptError

-- what an attempt reads and writes: the forward, its counters of health and the events fired
pub record Attempt : Type 0 where
  pub forward : PortForward
  pub current_pod : String
  pub current_target_port : ℤ
  pub fail_count : ℕ
  pub last_stream_errors : ℕ
  pub fired : List EventType

-- an attempt and its error, if it has ended
abbrev pub Ran : Type 0
Ran = Attempt × Option AttemptError

-- the end of the wait for the tunnel; the forwarder may end with an error or without
pub data Readiness : Type 0 where
  is_up : Readiness
  forwarder_ended : (with_error : Bool) → Readiness
  context_done : Readiness
  timed_out : Readiness

-- what happens up to the health checks; `assigned` is the first forwarded port, if GetPorts has one
pub record Opening : Type 0 where
  pub resolved : Result ManagerError (String × ℤ)
  pub dialer_made : Bool
  pub forwarder_made : Bool
  pub readiness : Readiness
  pub assigned : Option ℤ
  pub stream_errors : ℕ

-- the settings of fault injection, unless a live update has replaced them
unfoldable pub start_chaos : GoLib → ChaosConfig → PortForward → PortForward
start_chaos lib global pf =
    if pf.has_chaos_override
    then pf
    else record pf { chaos_override = some (parsed_so_far lib (resolve_chaos global pf.svc.chaos)) }

-- the forward is reached under that port
unfoldable pub connected : ℤ → Attempt → Attempt
connected port a = record a {
  forward = record a.forward { state = running; actual_port = port; error = none };
  fail_count = 0;
  fired = a.fired ++ forward_connected ∷ [];
}

-- the tunnel is up
unfoldable pub tunnel_up : Opening → Attempt → Attempt
tunnel_up o a =
    record (connected (elim o.assigned [ none ↦ a.forward.svc.local_port | some port ↦ port ]) a) {
      last_stream_errors = o.stream_errors;
    }

unfoldable pub when_ready : Opening → Readiness → Attempt → Ran
when_ready o is_up a = (tunnel_up o a, none)
when_ready o (forwarder_ended with_error) a =
    (a, some (if with_error then startup_failed else closed_before_ready))
when_ready o context_done a = (a, some cancelled_attempt)
when_ready o timed_out a = (a, some not_ready_in_time)

-- runPortForward up to its health checks
unfoldable pub open_forward : GoLib → ChaosConfig → Opening → Attempt → Ran
open_forward lib global o a = elim o.resolved [
  | err e ↦ (a, some (unresolved e))
  | ok (pod, target_port) ↦
      let a₁ = record a { current_pod = pod } in
      if not o.dialer_made
      then (a₁, some no_dialer)
      else let a₂ = record a₁ { forward = start_chaos lib global a₁.forward } in
        if not o.forwarder_made then (a₂, some no_forwarder) else when_ready o o.readiness a₂
]

-- runIsolatedPortForward up to its accept loop, with the port that the listener has got, if any
unfoldable pub open_isolated : Result ManagerError (String × ℤ) → Option ℤ → Attempt → Ran
open_isolated resolved bound a = elim resolved [
  | err e ↦ (a, some (unresolved e))
  | ok (pod, target_port) ↦
      let a₁ = record a { current_pod = pod; current_target_port = target_port } in
      elim bound [ none ↦ (a₁, some bind_failed) | some port ↦ (connected port a₁, none) ]
]

-- what the loop of the health checks selects on; a tick comes with the stream errors so far and
-- whether the local port is open
pub data Happening : Type 0 where
  forward_ended : Happening
  context_cancelled : Happening
  age_timer : Happening
  preempt : (replacement : String) → Happening
  tick : (stream_errors : ℕ) (port_open : Bool) → Happening

-- a failed health check
unfoldable pub check_failed : ParsedSupervisorConfig → Attempt → Ran
check_failed p a =
    let a₁ = record a {
      fail_count = suc a.fail_count;
      fired = a.fired ++ health_check_failed ∷ [];
    } in
    (
      a₁,
      if leb_ℤ p.health_check_threshold (pos (suc a.fail_count))
          then some (unhealthy (suc a.fail_count))
          else none,
    )

-- one round of the loop; without a greatest age its timer never fires
unfoldable pub health_step : ParsedSupervisorConfig → Attempt → Happening → Ran
health_step p a forward_ended = (a, some closed_forward)
health_step p a context_cancelled = (a, some cancelled_attempt)
health_step p a age_timer =
    (a, if ltb_ℤ (pos 0) p.max_connection_age then some age_reached else none)
health_step p a (preempt replacement) = (a, some err_preempted)
health_step p a (tick stream_errors port_open) =
    if ltb a.last_stream_errors stream_errors
    then (a, some (degraded stream_errors))
    else if not port_open
    then check_failed p a
    else (record a { fail_count = 0 }, none)

-- the loop over what happens, until it ends or nothing has happened yet
unfoldable pub health_loop : ParsedSupervisorConfig → Attempt → List Happening → Ran
health_loop p a [] = (a, none)
health_loop p a (h ∷ rest) =
    let (a₁, ended) = health_step p a h in
    elim ended [ some e ↦ (a₁, some e) | none ↦ health_loop p a₁ rest ]

-- runPortForward
unfoldable pub run_port_forward :
    GoLib → ChaosConfig → ParsedSupervisorConfig → Opening → List Happening → Attempt → Ran
run_port_forward lib global p o happenings a =
    let (a₁, ended) = open_forward lib global o a in
    elim ended [ some e ↦ (a₁, some e) | none ↦ health_loop p a₁ happenings ]

-- how superviseSingle sees the end of an attempt
unfoldable pub attempt_end : AttemptError → ℤ → ℕ → AttemptEnd
attempt_end err_preempted duration stream_errors = preempted
attempt_end _ duration stream_errors = failed_after duration stream_errors

-- what isolatedSupervise selects on; a hint of a replacement comes with what resolving gives
pub data IsolatedHappening : Type 0 where
  isolated_cancelled : IsolatedHappening
  isolated_age_timer : IsolatedHappening
  isolated_hint : Result ManagerError (String × ℤ) → IsolatedHappening
  isolated_tick : (port_open : Bool) → IsolatedHappening

-- one round of isolatedSupervise
unfoldable pub isolated_step : ParsedSupervisorConfig → Attempt → IsolatedHappening → Ran
isolated_step p a isolated_cancelled = (a, some cancelled_attempt)
isolated_step p a isolated_age_timer = (
  if ltb_ℤ (pos 0) p.max_connection_age
      then record a { current_pod = ""; current_target_port = pos 0 }
      else a,
  none,
)
isolated_step p a (isolated_hint (err e)) = (a, none)
isolated_step p a (isolated_hint (ok (pod, port))) =
    (record a { current_pod = pod; current_target_port = port }, none)
isolated_step p a (isolated_tick port_open) =
    if not port_open then check_failed p a else (record a { fail_count = 0 }, none)

unfoldable pub isolated_loop : ParsedSupervisorConfig → Attempt → List IsolatedHappening → Ran
isolated_loop p a [] = (a, none)
isolated_loop p a (h ∷ rest) =
    let (a₁, ended) = isolated_step p a h in
    elim ended [ some e ↦ (a₁, some e) | none ↦ isolated_loop p a₁ rest ]

-- the pod of a new client of an isolated forward, from what is kept when the client comes; if
-- nothing is, a pod is resolved and kept unless another one is by then; `none` drops the client
unfoldable pub isolated_pod :
    Attempt → Result ManagerError (String × ℤ) → Attempt → Attempt × Option (String × ℤ)
isolated_pod a answer later =
    if not (is_empty a.current_pod)
    then (later, some (a.current_pod, a.current_target_port))
    else elim answer [
      | err e ↦ (later, none)
      | ok (pod, port) ↦ (
        if is_empty later.current_pod
            then record later { current_pod = pod; current_target_port = port }
            else later,
        some (pod, port),
      )
    ]
