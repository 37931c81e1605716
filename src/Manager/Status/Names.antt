-- ===== src/Manager/Status/Names.antt =====
-- Status lists every registered forward and every external one.
use kubeport.Prelude.{
  ◌≡◌, ◌≢◌, refl, ◌+◌, String, Bool, true, none, some, List, [], ◌∷◌, ◌++◌, arith, length,
  length-append, str_eq_refl, Option-cases, inl, inr,
}
use kubeport.Prelude.Int.{ℤ}
use kubeport.Prelude.Table.{Table, lookup, has}
use kubeport.Prelude.GoLib.{GoLib}
use kubeport.Config.{Config}
use kubeport.Manager.{Manager, ExternalForward}
use kubeport.Manager.Mappings.{mappings}
use kubeport.Manager.Order.{occurrences}
use kubeport.Manager.Status.{
  Gauges, ForwardStatus, external_statuses, statuses_along, forward_status, status,
}
use kubeport.Manager.Steps.{Reach, registered_once, mappings_total}

length-external_statuses : (t : Table ExternalForward) → length (external_statuses t) ≡ length t
unfolding external_statuses
length-external_statuses [] = refl
length-external_statuses ((name, ef) ∷ rest) = omega (arith, length-external_statuses rest)

module _ (lib : GoLib) (port_open : ℤ → Bool) (gauges_of : String → Gauges) where
  -- a list whose names are all registered
  statuses_along_total :
      (m : Manager) (names : List String)
      → ((n : String) → occurrences n names ≢ 0 → has n m.forwards ≡ true)
      → (own : List ForwardStatus) × (statuses_along lib port_open gauges_of m names ≡ some own)
        × (length own ≡ length names)
  unfolding statuses_along occurrences
  statuses_along_total m [] h = ([], refl, refl)
  statuses_along_total m (name ∷ rest) h =
      let (own, found, counted) =
        statuses_along_total m rest (λ n q. h n (λ z. q (omega (arith, z)))) in
      elim (Option-cases (lookup name m.forwards)) [
        | inl missing ↦ absurd (ground (arith, h name, missing, str_eq_refl name))
        | inr (pf, present) ↦ (
          forward_status lib port_open gauges_of m name pf ∷ own,
          rw (present, statuses_along, found),
          omega (arith, counted),
        )
      ]

  -- In every reachable state Status and Mappings find the forward of each name in the order, so that
  -- neither dereferences a missing entry, and Status lists as many forwards as are in the order and
  -- owned by other instances.
  pub views_total :
      (c : Config) (m : Manager) (domain : String)
      → Reach lib c m
      → (mappings lib m domain ≢ none)
        × ((listed : List ForwardStatus) × (status lib port_open gauges_of m ≡ some listed)
            × (length listed ≡ length m.order + length m.external_forwards))
  unfolding status
  views_total c m domain reached =
      let (own, found, counted) =
        statuses_along_total m m.order (registered_once lib c m reached) in
      (
        mappings_total lib c m domain reached,
        (
          own ++ external_statuses m.external_forwards,
          rw (found, status),
          omega (
            arith,
            counted,
            length-append own (external_statuses m.external_forwards),
            length-external_statuses m.external_forwards,
          ),
        ),
      )
