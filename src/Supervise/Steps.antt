-- ===== src/Supervise/Steps.antt =====
-- The supervisor's loop as a step relation; the flag of each step says whether the manager's context
-- is done.
use kubeport.Prelude.{◌≡◌, Bool, false, List, [], ◌∷◌}
use kubeport.Supervise.{
  ParsedSupervisorConfig, Supervisor, AttemptEnd, at_top, in_attempt, in_backoff, supervise_start,
  begin_attempt, end_attempt, end_backoff,
}

module _ (p : ParsedSupervisorConfig) where
  pub data Step (done : Bool) (s : Supervisor) : Supervisor → Type 0 where
    begins : s.phase ≡ at_top → Step done s (begin_attempt done s)
    ends : (e : AttemptEnd) → s.phase ≡ in_attempt → Step done s (end_attempt p done e s)
    wakes : s.phase ≡ in_backoff → Step done s (end_backoff p done s)

  -- reached while the context may end at any step
  pub data Reach : Supervisor → Type 0 where
    start : Reach (supervise_start p)
    next : {s t : Supervisor} {done : Bool} → Reach s → Step done s t → Reach t

  -- what follows `s` while the context lives, with the ends of the attempts, the latest first
  pub data Run (s : Supervisor) : List AttemptEnd → Supervisor → Type 0 where
    here : Run s [] s
    then_begins :
        {es : List AttemptEnd} {t : Supervisor}
        → Run s es t
        → t.phase ≡ at_top
        → Run s es (begin_attempt false t)
    then_ends :
        {es : List AttemptEnd} {t : Supervisor} (e : AttemptEnd)
        → Run s es t
        → t.phase ≡ in_attempt
        → Run s (e ∷ es) (end_attempt p false e t)
    then_wakes :
        {es : List AttemptEnd} {t : Supervisor}
        → Run s es t
        → t.phase ≡ in_backoff
        → Run s es (end_backoff p false t)
