-- ===== src/Manager/Commands/Renewal.antt =====
-- What Reload does to a name: it drops what the configuration no longer names, and leaves a
-- single-port forward that stays.
use kubeport.Prelude.{
  ◌≡◌, refl, ap, ◌∙◌, String, Bool, true, false, ◌&&◌, ◌||◌, not, List, [], ◌∷◌, any, str_eq,
  str_eq_iff, arith, All, Bool-cases, inl, inr, is_some, ◌⊎◌,
}
use kubeport.Prelude.Table.{Table, lookup, has}
use kubeport.Prelude.GoLib.{GoLib}
use kubeport.Prelude.Result.{Result-cases}
use kubeport.Config.{ServiceConfig, is_multi_port}
use kubeport.Config.Validate.{validate_service}
use kubeport.Manager.{Manager, do_remove}
use kubeport.Manager.Remove.{among}
use kubeport.Manager.Commands.{add_service, readd_one, readd_each, add_new}
use kubeport.Manager.Commands.Stale.{
  NoChild, lookup-do_remove, NoChild-do_remove, do_add-steady, do_add-NoChild,
}

-- the services of a table that are not `n`, unless `n` is registered already
abbrev pub Others : String → Bool → Table ServiceConfig → Type 0
Others n registered t = All (λ e. (registered ≡ true) ⊎ (str_eq e.1.name n ≡ false)) t

-- a name of the list is not one that is missing from it
apart :
    (n name : String) (names : List String)
    → among name names ≡ true
    → (among n names ≡ false) ⊎ (str_eq name n ≡ false)
    → str_eq name n ≡ false
apart n name names h (inr other) = other
apart n name names h (inl missing) = elim (Bool-cases (str_eq name n)) [
  | inl same ↦
      let e : name ≡ n = (str_eq_iff name n).0 same in
      let listed : among n names ≡ true = rw (← e) h in ground (arith, listed, missing)
  | inr other ↦ other
]

module _ (lib : GoLib) (n : String) where
  add_service-steady :
      (m : Manager) (s : ServiceConfig)
      → (has n m.forwards ≡ true) ⊎ (str_eq s.name n ≡ false)
      → NoChild n m.children
      → (lookup n (add_service lib m s).0.forwards ≡ lookup n m.forwards)
        × NoChild n (add_service lib m s).0.children
  unfolding add_service
  add_service-steady m s h c = elim (Result-cases (validate_service lib s)) [
    | inl (e, v) ↦ rw (v, add_service) (refl, c)
    | inr (u, v) ↦ rw (v, add_service) (do_add-steady n m s h, do_add-NoChild n m s c)
  ]

  readd_one-steady :
      (parents : List String) (m : Manager) (s : ServiceConfig)
      → (among n parents ≡ false) ⊎ (str_eq s.name n ≡ false)
      → NoChild n m.children
      → (lookup n (readd_one lib parents m s).forwards ≡ lookup n m.forwards)
        × NoChild n (readd_one lib parents m s).children
  unfolding readd_one
  readd_one-steady parents m s h c =
      elim (Bool-cases (is_multi_port s && any (str_eq s.name) parents)) [
        | inr e ↦ rw (e, readd_one) (refl, c)
        | inl e ↦
            let other : str_eq s.name n ≡ false = apart n s.name parents (ground (arith, e)) h in
            let gone = NoChild-do_remove n m s.name c in
            ground (
              arith,
              e,
              other,
              lookup-do_remove n m s.name c,
              str_eq_iff s.name n,
              str_eq_iff n s.name,
              gone,
              add_service-steady (do_remove m s.name).0 s (inr other) gone,
            )
      ]

  pub readd_each-steady :
      (parents : List String) (m : Manager) (desired : Table ServiceConfig)
      → Others n (not (among n parents)) desired
      → NoChild n m.children
      → (lookup n (readd_each lib parents m desired).forwards ≡ lookup n m.forwards)
        × NoChild n (readd_each lib parents m desired).children
  unfolding readd_each
  readd_each-steady parents m [] h c = (refl, c)
  readd_each-steady parents m ((k, s) ∷ rest) h c =
      let one = readd_one-steady parents m s (ground (arith, h.0)) c in
      let others = readd_each-steady parents (readd_one lib parents m s) rest h.1 one.1 in
      (others.0 ∙ one.0, others.1)

  pub add_new-steady :
      (present : String → Bool) (m : Manager) (desired : Table ServiceConfig)
      → Others n (has n m.forwards) desired
      → NoChild n m.children
      → lookup n (add_new lib present m desired).0.forwards ≡ lookup n m.forwards
  unfolding add_new
  add_new-steady present m [] h c = refl
  add_new-steady present m ((k, s) ∷ rest) h c =
      elim (Bool-cases (present k || has k m.external_forwards)) [
        | inl e ↦ rw (e, add_new) (add_new-steady present m rest h.1 c)
        | inr e ↦
            let one = add_service-steady m s h.0 c in
            let same : has n (add_service lib m s).0.forwards ≡ has n m.forwards =
              ap is_some one.0 in
            rw (e, add_new)
              (add_new-steady present (add_service lib m s).0 rest (rw same h.1) one.1 ∙ one.0)
      ]
