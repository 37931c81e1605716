-- ===== src/Attempt/Health.antt =====
-- The counter of failed health checks against runs of failures.
use kubeport.Prelude.{
  ℕ, zero, suc, ◌+◌, ◌≤◌, ◌<◌, ◌≡◌, refl, ap, Bool, true, false, ◌&&◌, ◌||◌, not, List, [], ◌∷◌,
  map, arith, is_some,
}
use kubeport.Prelude.Int.{pos}
use kubeport.Supervise.{ParsedSupervisorConfig}
use kubeport.Attempt.{
  Attempt, Happening, tick, isolated_tick, check_failed, health_step, health_loop, isolated_step,
  isolated_loop,
}

-- the list begins with that many closed ports
abbrev pub begins_closed : ℕ → List Bool → Bool
begins_closed zero opens = true
begins_closed (suc k) [] = false
begins_closed (suc k) (b ∷ rest) = not b && begins_closed k rest

-- somewhere in the list the port is closed that many times in a row
abbrev pub closed_in_a_row : ℕ → List Bool → Bool
closed_in_a_row k [] = begins_closed k []
closed_in_a_row k (b ∷ rest) = begins_closed k (b ∷ rest) || closed_in_a_row k rest

begins-in_a_row :
    (k : ℕ) (opens : List Bool) → begins_closed k opens ≡ true → closed_in_a_row k opens ≡ true
begins-in_a_row k [] begins = begins
begins-in_a_row k (b ∷ rest) begins = ground (arith, begins)

begins_closed_mono :
    (i j : ℕ) (opens : List Bool)
    → j ≤ i
    → begins_closed i opens ≡ true
    → begins_closed j opens ≡ true
begins_closed_mono i zero opens le begins = refl
begins_closed_mono (suc i) (suc j) [] le begins = begins
begins_closed_mono (suc i) (suc j) (b ∷ rest) le begins =
    ground (arith, begins_closed_mono i j rest)
begins_closed_mono zero (suc j) opens le begins = absurd (omega arith)

-- health checks while no stream fails
abbrev pub quiet_ticks : Attempt → List Bool → List Happening
quiet_ticks a opens = map (tick a.last_stream_errors) opens

-- the loop from a counter c, which fails d + 1 closed ports later
health_loop-from :
    (p : ParsedSupervisorConfig) (m c d : ℕ) (a : Attempt) (opens : List Bool)
    → p.health_check_threshold ≡ pos (suc m)
    → a.fail_count ≡ c
    → c + d ≡ m
    → is_some (health_loop p a (quiet_ticks a opens)).1
      ≡ (begins_closed (suc d) opens || closed_in_a_row (suc m) opens)
unfolding health_loop health_step check_failed
health_loop-from p m c d a [] limit counted sum = refl
health_loop-from p m c d a (true ∷ rest) limit counted sum = ground (
  arith,
  health_loop-from p m 0 m (record a { fail_count = 0 }) rest limit refl (omega arith),
  begins-in_a_row (suc m) rest,
)
health_loop-from p m c zero a (false ∷ rest) limit counted sum = ground (arith, limit)
health_loop-from p m c (suc d) a (false ∷ rest) limit counted sum = ground (
  arith,
  limit,
  health_loop-from p m (suc c) d (check_failed p a).0 rest limit (ap suc counted) (omega arith),
  begins_closed_mono m (suc d) rest,
)

isolated_loop-from :
    (p : ParsedSupervisorConfig) (m c d : ℕ) (a : Attempt) (opens : List Bool)
    → p.health_check_threshold ≡ pos (suc m)
    → a.fail_count ≡ c
    → c + d ≡ m
    → is_some (isolated_loop p a (map isolated_tick opens)).1
      ≡ (begins_closed (suc d) opens || closed_in_a_row (suc m) opens)
unfolding isolated_loop isolated_step check_failed
isolated_loop-from p m c d a [] limit counted sum = refl
isolated_loop-from p m c d a (true ∷ rest) limit counted sum = ground (
  arith,
  isolated_loop-from p m 0 m (record a { fail_count = 0 }) rest limit refl (omega arith),
  begins-in_a_row (suc m) rest,
)
isolated_loop-from p m c zero a (false ∷ rest) limit counted sum = ground (arith, limit)
isolated_loop-from p m c (suc d) a (false ∷ rest) limit counted sum = ground (
  arith,
  limit,
  isolated_loop-from p m (suc c) d (check_failed p a).0 rest limit (ap suc counted) (omega arith),
  begins_closed_mono m (suc d) rest,
)

-- With a positive threshold, a mux or isolated forward that has just connected, and to which nothing
-- happens but health checks during which no stream fails, ends exactly if the local port is found
-- closed that many times in a row.
pub ends-closed_in_a_row :
    (p : ParsedSupervisorConfig) (k : ℕ) (a : Attempt) (opens : List Bool)
    → p.health_check_threshold ≡ pos k
    → 0 < k
    → a.fail_count ≡ 0
    → (is_some (health_loop p a (quiet_ticks a opens)).1 ≡ closed_in_a_row k opens)
      × (is_some (isolated_loop p a (map isolated_tick opens)).1 ≡ closed_in_a_row k opens)
ends-closed_in_a_row p (suc m) a opens limit positive fresh = (
  ground (
    arith,
    health_loop-from p m 0 m a opens limit fresh (omega arith),
    begins-in_a_row (suc m) opens,
  ),
  ground (
    arith,
    isolated_loop-from p m 0 m a opens limit fresh (omega arith),
    begins-in_a_row (suc m) opens,
  ),
)
ends-closed_in_a_row p zero a opens limit positive fresh = absurd (omega arith)
