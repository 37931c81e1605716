-- ===== src/Supervise/Tests.antt =====
-- The default limits, with at most three restarts where a limit is needed.
use kubeport.Prelude.{◌≡◌, refl, false, [], ◌∷◌, arith}
use kubeport.Prelude.Int.{pos}
use kubeport.Supervise.{
  ParsedSupervisorConfig, Supervisor, AttemptEnd, failed_after, in_attempt, supervise_start,
  begin_attempt, end_attempt,
}
use kubeport.Supervise.Steps.{Reach, begins, ends, start, next, Run, here, then_begins, then_ends}
use kubeport.Supervise.Restarts.{IsLimited, Reach-IsLimited, supervision_continues}

abbrev defaults : ParsedSupervisorConfig
defaults = record {
  max_restarts = pos 0;
  health_check_threshold = pos 3;
  health_check_interval = pos 10_000_000_000;
  ready_timeout = pos 15_000_000_000;
  backoff_initial = pos 1_000_000_000;
  backoff_max = pos 30_000_000_000;
  max_connection_age = pos 0;
}

abbrev three_restarts : ParsedSupervisorConfig
three_restarts = record defaults { max_restarts = pos 3 }

abbrev five_seconds : AttemptEnd
five_seconds = failed_after (pos 5_000_000_000) 0

-- the first attempt has failed after five seconds
abbrev one_failure : ParsedSupervisorConfig → Supervisor
one_failure p = end_attempt p false five_seconds (begin_attempt false (supervise_start p))

failure-reached : (p : ParsedSupervisorConfig) → Reach p (one_failure p)
unfolding supervise_start begin_attempt
failure-reached p =
    next {done = false} (next {done = false} start (begins refl)) (ends five_seconds refl)

Reach-IsLimited_example : IsLimited 3 (one_failure three_restarts)
Reach-IsLimited_example =
    Reach-IsLimited three_restarts 3 (one_failure three_restarts) refl (omega arith)
      (failure-reached three_restarts)

failure-Run : Run defaults (supervise_start defaults) (five_seconds ∷ []) (one_failure defaults)
unfolding supervise_start begin_attempt
failure-Run = then_ends five_seconds (then_begins here refl) refl

supervision_continues_example :
    ((one_failure defaults).restarts ≡ 1)
    × ((t : Supervisor) × Run defaults (one_failure defaults) [] t
        × (t.phase ≡ in_attempt)
        × (t.restarts ≡ 1))
supervision_continues_example =
    supervision_continues defaults (omega arith) (five_seconds ∷ []) (one_failure defaults)
      failure-Run
