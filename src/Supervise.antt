-- ===== src/Supervise.antt =====
-- superviseSingle of internal/proxy/manager.go: the life of one forward, from attempt to attempt, with
-- ParsedSupervisor of pkg/config/config.go for its limits. What happens inside an attempt, how long
-- it lasts and whether the manager's context is done are inputs of the steps.
pub mod Steps
pub mod Restarts
pub mod Backoff
mod Tests
use kubeport.Prelude.{
  ℕ, suc, String, Bool, true, false, ◌&&◌, not, Option, none, some, List, [], ◌∷◌, ◌++◌, ◌==◌,
  if◌then◌else◌,
}
use kubeport.Prelude.Int.{ℤ, pos, ◌+ℤ◌, ltb_ℤ, leb_ℤ, wrap64}
use kubeport.Prelude.Result.{Result, ok, err, ◌>>=◌}
use kubeport.Prelude.GoLib.{GoLib}
use kubeport.Config.{SupervisorConfig, is_empty}
use kubeport.Config.Error.{ParseError, invalid_duration}
use kubeport.Hook.{EventType, forward_stopped, forward_disconnected, forward_failed}
use kubeport.Manager.{ForwardState, starting, failed, stopped}

pub record ParsedSupervisorConfig : Type 0 where
  pub max_restarts : ℤ
  pub health_check_threshold : ℤ
  pub health_check_interval : ℤ
  pub ready_timeout : ℤ
  pub backoff_initial : ℤ
  pub backoff_max : ℤ
  pub max_connection_age : ℤ

-- config.parseDuration under the context of its field
unfoldable pub duration_or : GoLib → String → ℤ → String → Result ParseError ℤ
duration_or lib field default s =
    if is_empty s
    then ok default
    else elim (lib.parse_duration s) [ none ↦ err (invalid_duration field s) | some d ↦ ok d ]

-- SupervisorConfig.ParsedSupervisor
unfoldable pub parsed_supervisor :
    GoLib → SupervisorConfig → Result ParseError ParsedSupervisorConfig
parsed_supervisor lib s = do
  interval ← duration_or lib "health_check_interval" (pos 10_000_000_000) s.health_check_interval
  ready ← duration_or lib "ready_timeout" (pos 15_000_000_000) s.ready_timeout
  initial ← duration_or lib "backoff_initial" (pos 1_000_000_000) s.backoff_initial
  max ← duration_or lib "backoff_max" (pos 30_000_000_000) s.backoff_max
  age ← duration_or lib "max_connection_age" (pos 0) s.max_connection_age
  ok (record {
    max_restarts = s.max_restarts;
    health_check_threshold =
        if leb_ℤ s.health_check_threshold (pos 0) then pos 3 else s.health_check_threshold;
    health_check_interval = interval;
    ready_timeout = ready;
    backoff_initial = initial;
    backoff_max = max;
    max_connection_age = age;
  })

-- where the loop stands: at its top, in an attempt, waiting for the next one, or over
pub data Phase : Type 0 where
  at_top in_attempt in_backoff returned : Phase

pub record Supervisor : Type 0 where
  pub phase : Phase
  pub state : ForwardState
  pub restarts : ℕ
  pub backoff : ℤ
  pub fired : List EventType

-- how an attempt ends: preempted by a pod event, or with any other result after some time; the loop
-- does not ask why, so an attempt whose own context was cancelled counts as one that failed
pub data AttemptEnd : Type 0 where
  preempted : AttemptEnd
  failed_after : (duration : ℤ) (stream_errors : ℕ) → AttemptEnd

-- the state of superviseSingle when it starts
unfoldable pub supervise_start : ParsedSupervisorConfig → Supervisor
supervise_start p = record {
  phase = at_top;
  state = starting;
  restarts = 0;
  backoff = p.backoff_initial;
  fired = [];
}

-- the top of the loop
unfoldable pub begin_attempt : Bool → Supervisor → Supervisor
begin_attempt done s =
    if done
    then record s { phase = returned; state = stopped; fired = s.fired ++ forward_stopped ∷ [] }
    else record s { phase = in_attempt; state = starting }

-- the limit on restarts, where 0 is none
unfoldable pub gives_up : ParsedSupervisorConfig → ℕ → Bool
gives_up p restarts = ltb_ℤ (pos 0) p.max_restarts && leb_ℤ p.max_restarts (pos restarts)

-- the backoff after an attempt that failed: initial again if the connection was healthy
unfoldable pub backoff_after : ParsedSupervisorConfig → ℤ → ℤ → ℕ → ℤ
backoff_after p backoff duration stream_errors =
    if ltb_ℤ (pos 30_000_000_000) duration && stream_errors == 0 then p.backoff_initial else backoff

unfoldable pub fail_attempt : ParsedSupervisorConfig → ℤ → ℕ → Supervisor → Supervisor
fail_attempt p duration stream_errors s =
    let s₁ = record s {
      state = failed;
      restarts = suc s.restarts;
      fired = s.fired ++ forward_disconnected ∷ [];
    } in
    if gives_up p (suc s.restarts)
    then record s₁ { phase = returned; fired = s₁.fired ++ forward_failed ∷ [] }
    else record s₁ {
      phase = in_backoff;
      backoff = backoff_after p s.backoff duration stream_errors;
    }

-- an attempt is over
unfoldable pub end_attempt : ParsedSupervisorConfig → Bool → AttemptEnd → Supervisor → Supervisor
end_attempt p done preempted s =
    if done
    then record s { phase = returned; state = stopped }
    else record s { phase = at_top; backoff = p.backoff_initial }
end_attempt p done (failed_after duration stream_errors) s =
    if done
    then record s { phase = returned; state = stopped }
    else fail_attempt p duration stream_errors s

-- min(backoff*2, m.backoffMax) on int64
unfoldable pub next_backoff : ℤ → ℤ → ℤ
next_backoff max backoff =
    let doubled = wrap64 (backoff +ℤ backoff) in if ltb_ℤ doubled max then doubled else max

-- the wait before the next attempt is over, or the context is done
unfoldable pub end_backoff : ParsedSupervisorConfig → Bool → Supervisor → Supervisor
end_backoff p done s =
    if done
    then record s { phase = returned }
    else record s { phase = at_top; backoff = next_backoff p.backoff_max s.backoff }
