-- ===== src/Attempt/Tests.antt =====
-- Two closed ports in a row end a forward whose limit is two; a forward moves from web-0 to web-1.
use kubeport.Prelude.{
  Bool, ◌≡◌, ◌≢◌, refl, true, false, none, some, List, [], ◌∷◌, String, arith, map, is_some,
}
use kubeport.Prelude.Int.{pos}
use kubeport.Prelude.Result.{ok}
use kubeport.Config.{is_pod, no_chaos}
use kubeport.Manager.{placeholder}
use kubeport.Supervise.{ParsedSupervisorConfig}
use kubeport.Pods.{
  Pod, Answers, resolve_pod, choose_pod, is_ready, port_of, wanted_port, wanted_by,
  resolve_named_port,
}
use kubeport.Attempt.{
  Attempt, Opening, is_up, run_port_forward, open_forward, when_ready, tunnel_up, connected,
  start_chaos, health_loop, health_step, check_failed, tick, isolated_tick, isolated_loop,
  unhealthy, degraded, Happening,
}
use kubeport.Attempt.Health.{ends-closed_in_a_row, closed_in_a_row, quiet_ticks}
use kubeport.Attempt.PodEvents.{
  WatchedPod, PodEvent, Preemption, drain, drain_each, drain_one, offer, handle_pod_event, signal,
}
use kubeport.Attempt.PodEvents.Replacement.{preempts-eligible, has_eligible}
use kubeport.Samples.{web, go_lib, two_services}

abbrev limit_two : ParsedSupervisorConfig
limit_two = record {
  max_restarts = pos 0;
  health_check_threshold = pos 2;
  health_check_interval = pos 10_000_000_000;
  ready_timeout = pos 15_000_000_000;
  backoff_initial = pos 1_000_000_000;
  backoff_max = pos 30_000_000_000;
  max_connection_age = pos 0;
}

abbrev fresh : Attempt
fresh = record {
  forward = placeholder two_services web;
  current_pod = "web-0";
  current_target_port = pos 80;
  fail_count = 0;
  last_stream_errors = 0;
  fired = [];
}

abbrev opening : Opening
opening = record {
  resolved = ok ("web-0", pos 80);
  dialer_made = true;
  forwarder_made = true;
  readiness = is_up;
  assigned = some (pos 8080);
  stream_errors = 0;
}

-- open, closed, closed: the second failure in a row ends the attempt
closed_twice :
    (run_port_forward go_lib no_chaos limit_two opening
      (tick 0 true ∷ tick 0 false ∷ tick 0 false ∷ tick 0 true ∷ [])
      fresh).1
    ≡ some (unhealthy 2)
unfolding run_port_forward open_forward when_ready tunnel_up connected start_chaos health_loop
    health_step check_failed
closed_twice = refl

ends-closed_in_a_row_example :
    (is_some (health_loop limit_two fresh (quiet_ticks fresh (true ∷ false ∷ false ∷ []))).1
      ≡ closed_in_a_row 2 (true ∷ false ∷ false ∷ []))
    × (is_some (isolated_loop limit_two fresh (map isolated_tick (true ∷ false ∷ false ∷ []))).1
        ≡ closed_in_a_row 2 (true ∷ false ∷ false ∷ []))
ends-closed_in_a_row_example =
    ends-closed_in_a_row limit_two 2 fresh (true ∷ false ∷ false ∷ []) refl (omega arith) refl

abbrev pod_named : String → Bool → Pod
pod_named pod_name marked = record {
  name = pod_name;
  running = true;
  terminating = marked;
  conditions = ("Ready", true) ∷ [];
  ports = [];
}

abbrev answers : Answers
answers = record {
  service = some (record {
    has_selector = true;
    ports = record { port = pos 80; target_port = record { int_value = pos 8061; text = "" } } ∷ [];
  });
  pods = some (pod_named "web-0" true ∷ pod_named "web-1" false ∷ []);
}

abbrev on_web_0 : Preemption
on_web_0 = record { current_pod = "web-0"; pending = none; fired = [] }

abbrev web_0_ends : PodEvent
web_0_ends = record { pod_name = "web-0"; namespace = "default" }

abbrev dying : WatchedPod
dying = record {
  name = "web-0";
  namespace = "default";
  resource_version = "7";
  terminating = true;
  running = true;
}

drained :
    (drain
      (record { resource_version = ""; queue = [] })
      (record { modified = true; object = some dying }
        ∷ record { modified = true; object = none }
        ∷ []))
    ≡ record { resource_version = "7"; queue = web_0_ends ∷ [] }
unfolding drain drain_each drain_one offer
drained = refl

moved : (handle_pod_event on_web_0 web_0_ends (resolve_pod web answers)).pending ≡ some "web-1"
unfolding handle_pod_event signal resolve_pod is_pod choose_pod is_ready port_of wanted_port
    wanted_by resolve_named_port
moved = refl

not_direct : is_pod web ≡ false
unfolding is_pod
not_direct = refl

preempts-eligible_example :
    (web_0_ends.pod_name ≡ on_web_0.current_pod)
    × ("web-1" ≢ on_web_0.current_pod)
    × ((pods : List Pod) × (answers.pods ≡ some pods) × (has_eligible "web-1" pods ≡ true))
preempts-eligible_example =
    preempts-eligible on_web_0 web_0_ends web answers "web-1" not_direct refl moved

-- a stream fails in the second round
abbrev degrading : List Happening
degrading = tick 0 true ∷ tick 4 true ∷ tick 4 true ∷ []

degrades :
    (run_port_forward go_lib no_chaos limit_two opening degrading fresh).1 ≡ some (degraded 4)
unfolding run_port_forward open_forward when_ready tunnel_up connected start_chaos health_loop
    health_step check_failed
degrades = refl
