-- ===== src/Supervise/Backoff.antt =====
-- The backoff: within its bounds in every state, and exponential over failures in a row.
use kubeport.Prelude.{
  ℕ, not, zero, suc, ◌+◌, ◌*◌, ◌^◌, ◌≤◌, ◌<◌, ◌≡◌, refl, ◌∙◌, ap, Bool, true, false, ◌&&◌, min,
  ◌==◌, arith, Bool-cases, inl, inr,
}
use native.Mathlib.Nat.{two-pow-succ, mul-add}
use kubeport.Prelude.Int.{ℤ, pos, ◌+ℤ◌, ◌≤ℤ◌, ltb_ℤ, wrap64}
use kubeport.Supervise.{
  ParsedSupervisorConfig, Supervisor, AttemptEnd, preempted, failed_after, supervise_start,
  begin_attempt, end_attempt, end_backoff, fail_attempt, gives_up, backoff_after, next_backoff,
}
use kubeport.Supervise.Steps.{Step, begins, ends, wakes, Reach, start, next}

wrap64-double : (n : ℕ) → n < 2 ^ 62 → wrap64 (pos n +ℤ pos n) ≡ pos (n + n)
unfolding wrap64 ◌+ℤ◌
wrap64-double n h = ground (arith, h)

next_backoff-double : (a b : ℕ) → a < 2 ^ 62 → next_backoff (pos b) (pos a) ≡ pos (min (a + a) b)
unfolding next_backoff
next_backoff-double a b h = ground (arith, wrap64-double a h)

-- a backoff between the initial one and the greatest
pub record IsBounded (low high : ℕ) (s : Supervisor) : Type 0 where
  pub length : ℕ
  pub is_backoff : s.backoff ≡ pos length
  pub at_least : low ≤ length
  pub at_most : length ≤ high

at-IsBounded :
    (low high n : ℕ) (t : Supervisor)
    → t.backoff ≡ pos n
    → low ≤ n
    → n ≤ high
    → IsBounded low high t
at-IsBounded low high n t e l h = record { length = n; is_backoff = e; at_least = l; at_most = h }

-- a step that leaves the backoff alone
same-IsBounded :
    (low high : ℕ) (s t : Supervisor)
    → t.backoff ≡ s.backoff
    → IsBounded low high s
    → IsBounded low high t
same-IsBounded low high s t e v =
    at-IsBounded low high v.length t (e ∙ v.is_backoff) v.at_least v.at_most

module _ (p : ParsedSupervisorConfig) (low high : ℕ) where
  begin-IsBounded :
      (done : Bool) (s : Supervisor)
      → IsBounded low high s
      → IsBounded low high (begin_attempt done s)
  unfolding begin_attempt
  begin-IsBounded done s v = same-IsBounded low high s (begin_attempt done s) (ground arith) v

  fail-IsBounded :
      (d : ℤ) (n : ℕ) (s : Supervisor)
      → p.backoff_initial ≡ pos low
      → low ≤ high
      → IsBounded low high s
      → IsBounded low high (fail_attempt p d n s)
  unfolding fail_attempt backoff_after
  fail-IsBounded d n s initial order v =
      elim (Bool-cases
        (not (gives_up p (suc s.restarts)) && (ltb_ℤ (pos 30_000_000_000) d && n == 0))) [
          | inl reset ↦
              at-IsBounded low high low (fail_attempt p d n s) (ground (arith, reset, initial))
                (omega arith) order
          | inr kept ↦ same-IsBounded low high s (fail_attempt p d n s) (ground (arith, kept)) v
        ]

  end-IsBounded :
      (done : Bool) (e : AttemptEnd) (s : Supervisor)
      → p.backoff_initial ≡ pos low
      → low ≤ high
      → IsBounded low high s
      → IsBounded low high (end_attempt p done e s)
  unfolding end_attempt
  end-IsBounded true preempted s initial order v = same-IsBounded low high s _ refl v
  end-IsBounded false preempted s initial order v =
      at-IsBounded low high low _ initial (omega arith) order
  end-IsBounded true (failed_after d n) s initial order v = same-IsBounded low high s _ refl v
  end-IsBounded false (failed_after d n) s initial order v = fail-IsBounded d n s initial order v

  wait-IsBounded :
      (done : Bool) (s : Supervisor)
      → p.backoff_max ≡ pos high
      → high < 2 ^ 62
      → IsBounded low high s
      → IsBounded low high (end_backoff p done s)
  unfolding end_backoff
  wait-IsBounded true s max small v = same-IsBounded low high s _ refl v
  wait-IsBounded false s max small v =
      let bound : v.length < 2 ^ 62 = omega (arith, v.at_most, small) in
      let e : next_backoff p.backoff_max s.backoff ≡ pos (min (v.length + v.length) high) =
        rw (max, v.is_backoff) (next_backoff-double v.length high bound) in
      at-IsBounded low high (min (v.length + v.length) high) _ e
        (ground (arith, v.at_least, v.at_most)) (ground arith)

  Step-IsBounded :
      (done : Bool) (s t : Supervisor)
      → p.backoff_initial ≡ pos low
      → p.backoff_max ≡ pos high
      → low ≤ high
      → high < 2 ^ 62
      → Step p done s t
      → IsBounded low high s
      → IsBounded low high t
  Step-IsBounded done s _ initial max order small (begins h) v = begin-IsBounded done s v
  Step-IsBounded done s _ initial max order small (ends e h) v =
      end-IsBounded done e s initial order v
  Step-IsBounded done s _ initial max order small (wakes h) v = wait-IsBounded done s max small v

  -- With an initial backoff that is at most the greatest, and the greatest below 2^62 nanoseconds
  -- (146 years), the backoff of a supervisor is between the two in every state that it reaches:
  -- the doubling never overflows.
  pub Reach-IsBounded :
      (s : Supervisor)
      → p.backoff_initial ≡ pos low
      → p.backoff_max ≡ pos high
      → low ≤ high
      → high < 2 ^ 62
      → Reach p s
      → IsBounded low high s
  unfolding supervise_start
  Reach-IsBounded s initial max order small start =
      at-IsBounded low high low _ initial (omega arith) order
  Reach-IsBounded s initial max order small (next {s = before} {done = done} r st) =
      Step-IsBounded done before s initial max order small st
        (Reach-IsBounded before initial max order small r)

-- one attempt that fails, and the wait after it
abbrev pub round : ParsedSupervisorConfig → ℤ → ℕ → Supervisor → Supervisor
round p d n s = end_backoff p false (end_attempt p false (failed_after d n) (begin_attempt false s))

abbrev pub rounds : ParsedSupervisorConfig → ℤ → ℕ → ℕ → Supervisor → Supervisor
rounds p d n zero s = s
rounds p d n (suc k) s = round p d n (rounds p d n k s)

round-effect :
    (p : ParsedSupervisorConfig) (d : ℤ) (n : ℕ) (s : Supervisor)
    → p.max_restarts ≤ℤ pos 0
    → (ltb_ℤ (pos 30_000_000_000) d && n == 0) ≡ false
    → ((round p d n s).backoff ≡ next_backoff p.backoff_max s.backoff)
      × ((round p d n s).restarts ≡ suc s.restarts)
unfolding end_backoff end_attempt fail_attempt begin_attempt gives_up backoff_after
round-effect p d n s unlimited unhealthy = ground (arith, unlimited, unhealthy)

pow_suc : (low k : ℕ) → low * 2 ^ suc k ≡ low * 2 ^ k + low * 2 ^ k
pow_suc low k = ap (λ x. low * x) (two-pow-succ k) ∙ mul-add low (2 ^ k) (2 ^ k)

-- Without a limit on restarts, k attempts in a row that fail, none of them healthy for 30 seconds,
-- leave k restarts counted and a backoff of the initial one doubled k times, cut at the greatest
-- one, which is below 2^62 nanoseconds.
pub backoff-rounds :
    (p : ParsedSupervisorConfig) (low high k : ℕ) (d : ℤ) (n : ℕ)
    → p.backoff_initial ≡ pos low
    → p.backoff_max ≡ pos high
    → low ≤ high
    → high < 2 ^ 62
    → p.max_restarts ≤ℤ pos 0
    → (ltb_ℤ (pos 30_000_000_000) d && n == 0) ≡ false
    → ((rounds p d n k (supervise_start p)).backoff ≡ pos (min (low * 2 ^ k) high))
      × ((rounds p d n k (supervise_start p)).restarts ≡ k)
unfolding supervise_start
backoff-rounds p low high zero d n initial max order small unlimited unhealthy =
    (initial ∙ ap pos (omega (arith, order)), refl)
backoff-rounds p low high (suc k) d n initial max order small unlimited unhealthy =
    let (backoff, restarts) =
      backoff-rounds p low high k d n initial max order small unlimited unhealthy in
    let (grown, counted) =
      round-effect p d n (rounds p d n k (supervise_start p)) unlimited unhealthy in
    let half = min (low * 2 ^ k) high in
    let bound : half < 2 ^ 62 = omega (arith, small) in
    let doubled : next_backoff p.backoff_max (rounds p d n k (supervise_start p)).backoff
        ≡ pos (min (half + half) high) =
      ap (next_backoff p.backoff_max) backoff
      ∙ ap (λ m. next_backoff m (pos half)) max
      ∙ next_backoff-double half high bound in
    (grown ∙ doubled ∙ ap pos (omega (arith, pow_suc low k)), counted ∙ ap suc restarts)
