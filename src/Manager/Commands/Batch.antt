-- ===== src/Manager/Commands/Batch.antt =====
-- Apply: every service of the batch ends up registered, or is warned about.
use kubeport.Prelude.{
  ℕ, suc, ◌+◌, ◌≡◌, refl, sym, String, Bool, true, false, ◌||◌, none, List, [], ◌∷◌, length,
  str_eq_refl, arith, All, Bool-cases, inl, inr,
}
use mathlib.Core.Path.{subst}
use kubeport.Prelude.Table.{has, lookup-insert}
use kubeport.Prelude.GoLib.{GoLib}
use kubeport.Prelude.Result.{Result-cases}
use kubeport.Config.{ServiceConfig}
use kubeport.Config.Validate.{validate_service}
use kubeport.Manager.{Manager, do_add, reserve_forward, register, placeholder}
use kubeport.Manager.Remove.{among}
use kubeport.Manager.Commands.{add_service, apply, failed_with}

-- registered as a forward or reserved as a parent
abbrev pub present : Manager → String → Bool
present m n = has n m.forwards || has n m.children

do_add-present :
    (m : Manager) (s : ServiceConfig) (n : String)
    → (present m n ≡ true → present (do_add m s).0 n ≡ true)
      × ((do_add m s).1 ≡ none → present (do_add m s).0 s.name ≡ true)
unfolding do_add reserve_forward register
do_add-present m s n = ground (
  arith,
  lookup-insert s.name n (placeholder m.cfg s) m.forwards,
  lookup-insert s.name n [] m.children,
  lookup-insert s.name s.name (placeholder m.cfg s) m.forwards,
  lookup-insert s.name s.name [] m.children,
  str_eq_refl s.name,
)

-- what a result of Apply says of its batch
abbrev pub Settled : Manager × ℕ × ℕ × List String → List ServiceConfig → Type 0
Settled (m, added, skipped, warnings) ss =
    (added + skipped ≡ length ss)
    × (length warnings ≡ skipped)
    × All (λ s. (among s.name warnings || present m s.name) ≡ true) ss

-- one more warning
warned_more :
    (m : Manager) (x : String) (warnings : List String) (ss : List ServiceConfig)
    → All (λ s. (among s.name warnings || present m s.name) ≡ true) ss
    → All (λ s. (among s.name (x ∷ warnings) || present m s.name) ≡ true) ss
warned_more m x warnings [] h = tt
warned_more m x warnings (s ∷ rest) h = (ground (arith, h.0), warned_more m x warnings rest h.1)

module _ (lib : GoLib) where
  add_service-present :
      (m : Manager) (s : ServiceConfig) (n : String)
      → (present m n ≡ true → present (add_service lib m s).0 n ≡ true)
        × (failed_with (add_service lib m s).1 ≡ false
            → present (add_service lib m s).0 s.name ≡ true)
  unfolding add_service
  add_service-present m s n = elim (Result-cases (validate_service lib s)) [
    | inl (e, h) ↦ rw (h, add_service) (ground arith)
    | inr (u, h) ↦ rw (h, add_service) (ground (arith, do_add-present m s n))
  ]

  apply-present :
      (m : Manager) (ss : List ServiceConfig) (n : String)
      → present m n ≡ true
      → present (apply lib m ss).0 n ≡ true
  unfolding apply
  apply-present m [] n h = h
  apply-present m (s ∷ rest) n h =
      let later = apply-present (add_service lib m s).0 rest n ((add_service-present m s n).0 h) in
      elim (Bool-cases (failed_with (add_service lib m s).1)) [
        | inl e ↦ rw (e, apply) later
        | inr e ↦ rw (e, apply) later
      ]

  -- After Apply every service of the batch is registered as a forward or reserved as a parent, or its
  -- name is in the warnings; there is a warning for each skipped service, and every service is
  -- counted once, as added or as skipped.
  pub apply-settles : (m : Manager) (ss : List ServiceConfig) → Settled (apply lib m ss) ss
  unfolding apply
  apply-settles m [] = (refl, refl, tt)
  apply-settles m (s ∷ rest) =
      let m' = (add_service lib m s).0 in
      let (counted, warned, settled) = apply-settles m' rest in
      elim (Bool-cases (failed_with (add_service lib m s).1)) [
        | inl e ↦
            let r : apply lib m (s ∷ rest) ≡ (
              (apply lib m' rest).0,
              (apply lib m' rest).1,
              suc (apply lib m' rest).2,
              s.name ∷ (apply lib m' rest).3,
            ) =
              rw (e, apply) refl in
            subst (λ x. Settled x (s ∷ rest)) (sym r)
              (
                omega (arith, counted),
                omega (arith, warned),
                (
                  ground (arith, str_eq_refl s.name),
                  warned_more (apply lib m' rest).0 s.name (apply lib m' rest).3 rest settled,
                ),
              )
        | inr e ↦
            let here = apply-present m' rest s.name ((add_service-present m s s.name).1 e) in
            let r : apply lib m (s ∷ rest) ≡ (
              (apply lib m' rest).0,
              suc (apply lib m' rest).1,
              (apply lib m' rest).2,
              (apply lib m' rest).3,
            ) =
              rw (e, apply) refl in
            subst (λ x. Settled x (s ∷ rest)) (sym r)
              (omega (arith, counted), warned, (ground (arith, here), settled))
      ]
