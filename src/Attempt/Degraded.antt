-- ===== src/Attempt/Degraded.antt =====
-- Attempts that stream failures have ended, seen by the supervisor.
use kubeport.Prelude.{ℕ, ◌≤◌, ◌<◌, ◌≡◌, false, some, List, [], ◌∷◌, arith}
use kubeport.Prelude.Int.{ℤ}
use kubeport.Prelude.GoLib.{GoLib}
use kubeport.Config.{ChaosConfig}
use kubeport.Supervise.{
  ParsedSupervisorConfig, Supervisor, end_attempt, fail_attempt, backoff_after,
}
use kubeport.Attempt.{
  Attempt, Happening, forward_ended, context_cancelled, age_timer, preempt, tick, Opening, degraded,
  check_failed, health_step, health_loop, when_ready, open_forward, run_port_forward, attempt_end,
}

health_step-degraded :
    (p : ParsedSupervisorConfig) (a : Attempt) (h : Happening) (n : ℕ)
    → (health_step p a h).1 ≡ some (degraded n)
    → 0 < n
unfolding health_step check_failed
health_step-degraded p a forward_ended n ended = cc
health_step-degraded p a context_cancelled n ended = cc
health_step-degraded p a age_timer n ended = ground (arith, ended)
health_step-degraded p a (preempt replacement) n ended = cc
health_step-degraded p a (tick stream_errors port_open) n ended = ground (arith, ended)

health_loop-degraded :
    (p : ParsedSupervisorConfig) (a : Attempt) (happenings : List Happening) (n : ℕ)
    → (health_loop p a happenings).1 ≡ some (degraded n)
    → 0 < n
unfolding health_loop
health_loop-degraded p a [] n ended = cc
health_loop-degraded p a (h ∷ rest) n ended = ground (
  arith,
  ended,
  health_step-degraded p a h n,
  health_loop-degraded p (health_step p a h).0 rest n,
)

open_forward-not_degraded :
    (lib : GoLib) (global : ChaosConfig) (o : Opening) (a : Attempt) (n : ℕ)
    → (open_forward lib global o a).1 ≡ some (degraded n)
    → 0 < n
unfolding open_forward when_ready
open_forward-not_degraded lib global o a n ended = ground (arith, ended)

-- If runPortForward ends because streams have failed, the supervisor does not reset its backoff,
-- however long the attempt has lasted and however many streams have failed since.
pub degraded-keeps_backoff :
    (lib : GoLib) (global : ChaosConfig) (p : ParsedSupervisorConfig) (o : Opening)
    (happenings : List Happening) (a : Attempt) (n later : ℕ) (duration : ℤ) (s : Supervisor)
    → (run_port_forward lib global p o happenings a).1 ≡ some (degraded n)
    → n ≤ later
    → (end_attempt p false (attempt_end (degraded n) duration later) s).backoff ≡ s.backoff
unfolding run_port_forward end_attempt attempt_end fail_attempt backoff_after
degraded-keeps_backoff lib global p o happenings a n later duration s ended le =
    let positive : 0 < n = ground (
      arith,
      ended,
      open_forward-not_degraded lib global o a n,
      health_loop-degraded p (open_forward lib global o a).0 happenings n,
    ) in
    ground (arith, positive, le)
