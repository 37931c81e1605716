-- ===== src/Supervise/Restarts.antt =====
-- When supervision ends: not before the limit on restarts, and without a limit only with the manager.
use kubeport.Prelude.{ℕ, suc, ◌≤◌, ◌<◌, ◌≡◌, ◌≢◌, ◌∙◌, refl, Bool, false, List, [], ◌∷◌, arith}
use kubeport.Prelude.Int.{pos, ◌≤ℤ◌}
use kubeport.Supervise.{
  ParsedSupervisorConfig, Phase, Supervisor, AttemptEnd, preempted, failed_after, at_top,
  in_attempt, in_backoff, returned, supervise_start, begin_attempt, end_attempt, end_backoff,
  fail_attempt, gives_up,
}
use kubeport.Supervise.Steps.{
  Step, begins, ends, wakes, Reach, start, next, Run, here, then_begins, then_ends, then_wakes,
}

-- never more restarts than the limit, and none to come once it is met
pub record IsLimited (limit : ℕ) (s : Supervisor) : Type 0 where
  pub bounded : s.restarts ≤ limit
  pub final : s.restarts ≡ limit → s.phase ≡ returned

module _ (p : ParsedSupervisorConfig) (limit : ℕ) where
  begin-IsLimited :
      (done : Bool) (s : Supervisor)
      → s.phase ≡ at_top
      → IsLimited limit s
      → IsLimited limit (begin_attempt done s)
  unfolding begin_attempt
  begin-IsLimited done s h v = record {
    bounded = ground (arith, v.bounded);
    final = λ e. ground (arith, v.final, h, e);
  }

  backoff-IsLimited :
      (done : Bool) (s : Supervisor)
      → s.phase ≡ in_backoff
      → IsLimited limit s
      → IsLimited limit (end_backoff p done s)
  unfolding end_backoff
  backoff-IsLimited done s h v = record {
    bounded = ground (arith, v.bounded);
    final = λ e. ground (arith, v.final, h, e);
  }

  end-IsLimited :
      (done : Bool) (e : AttemptEnd) (s : Supervisor)
      → p.max_restarts ≡ pos limit
      → 0 < limit
      → s.phase ≡ in_attempt
      → IsLimited limit s
      → IsLimited limit (end_attempt p done e s)
  unfolding end_attempt fail_attempt gives_up
  end-IsLimited done preempted s max positive h v = record {
    bounded = ground (arith, v.bounded);
    final = λ q. ground (arith, v.final, h, q);
  }
  end-IsLimited done (failed_after d n) s max positive h v = record {
    bounded = ground (arith, v.bounded, v.final, h, max, positive);
    final = λ q. ground (arith, v.final, h, q, max, positive);
  }

  Step-IsLimited :
      (done : Bool) (s t : Supervisor)
      → p.max_restarts ≡ pos limit
      → 0 < limit
      → Step p done s t
      → IsLimited limit s
      → IsLimited limit t
  Step-IsLimited done s _ max positive (begins h) v = begin-IsLimited done s h v
  Step-IsLimited done s _ max positive (ends e h) v = end-IsLimited done e s max positive h v
  Step-IsLimited done s _ max positive (wakes h) v = backoff-IsLimited done s h v

  -- With a limit on restarts above 0, a supervisor never counts more restarts than the limit, and
  -- it is over as soon as it has counted that many.
  pub Reach-IsLimited :
      (s : Supervisor) → p.max_restarts ≡ pos limit → 0 < limit → Reach p s → IsLimited limit s
  unfolding supervise_start
  Reach-IsLimited s max positive start = record {
    bounded = omega arith;
    final = λ q. ground (arith, positive, q);
  }
  Reach-IsLimited s max positive (next {s = before} {done = done} r st) =
      Step-IsLimited done before s max positive st (Reach-IsLimited before max positive r)

-- the attempts that ended with an error
abbrev pub failures : List AttemptEnd → ℕ
failures [] = 0
failures (preempted ∷ rest) = failures rest
failures (failed_after d n ∷ rest) = suc (failures rest)

-- the loop has not been left, and has counted the failures
record IsLive (es : List AttemptEnd) (s : Supervisor) : Type 0 where
  alive : s.phase ≢ returned
  counted : s.restarts ≡ failures es

module _ (p : ParsedSupervisorConfig) (unlimited : p.max_restarts ≤ℤ pos 0) where
  end-IsLive :
      (es : List AttemptEnd) (e : AttemptEnd) (s : Supervisor)
      → IsLive es s
      → IsLive (e ∷ es) (end_attempt p false e s)
  unfolding end_attempt fail_attempt gives_up
  end-IsLive es preempted s v = record { alive = λ q. cc; counted = ground (arith, v.counted) }
  end-IsLive es (failed_after d n) s v = record {
    alive = λ q. ground (arith, unlimited, q);
    counted = ground (arith, unlimited, v.counted);
  }

  Run-IsLive :
      (es : List AttemptEnd) (s : Supervisor) → Run p (supervise_start p) es s → IsLive es s
  unfolding supervise_start begin_attempt end_backoff
  Run-IsLive es s here = record { alive = λ q. cc; counted = refl }
  Run-IsLive es s (then_begins {t = t} r h) = record {
    alive = λ q. cc;
    counted = (Run-IsLive es t r).counted;
  }
  Run-IsLive es s (then_ends {es = before} {t = t} e r h) =
      end-IsLive before e t (Run-IsLive before t r)
  Run-IsLive es s (then_wakes {t = t} r h) = record {
    alive = λ q. cc;
    counted = (Run-IsLive es t r).counted;
  }

  -- from wherever the loop stands, the next attempt
  next_attempt :
      (phase : Phase) (s : Supervisor)
      → s.phase ≡ phase
      → s.phase ≢ returned
      → (t : Supervisor) × Run p s [] t × (t.phase ≡ in_attempt) × (t.restarts ≡ s.restarts)
  unfolding begin_attempt end_backoff
  next_attempt at_top s h alive = (begin_attempt false s, then_begins here h, refl, refl)
  next_attempt in_attempt s h alive = (s, here, h, refl)
  next_attempt in_backoff s h alive = (
    begin_attempt false (end_backoff p false s),
    then_begins (then_wakes here h) refl,
    refl,
    refl,
  )
  next_attempt returned s h alive = absurd (alive h)

  -- Without a limit on restarts and while the manager's context is alive, supervision goes on
  -- however its attempts have ended: wherever the loop stands, it has counted one restart for each
  -- attempt that ended with an error, and one more attempt is reached before any other ends.
  pub supervision_continues :
      (es : List AttemptEnd) (s : Supervisor)
      → Run p (supervise_start p) es s
      → (s.restarts ≡ failures es)
        × ((t : Supervisor) × Run p s [] t × (t.phase ≡ in_attempt) × (t.restarts ≡ failures es))
  supervision_continues es s r =
      let v = Run-IsLive es s r in
      let (t, on, begun, same) = next_attempt s.phase s refl v.alive in
      (v.counted, (t, on, begun, same ∙ v.counted))
