-- ===== src/Manager/Commands/Reload.antt =====
-- Reload seen from one name of the manager.
use kubeport.Prelude.{
  ◌≡◌, refl, ap, ◌∙◌, String, Bool, true, false, ◌&&◌, ◌||◌, not, Option, none, some, List, [], ◌∷◌,
  any, str_eq, str_eq_iff, arith, Bool-cases, inl, inr, if◌then◌else◌, is_some, ◌⊎◌,
}
use kubeport.Prelude.Table.{Table, empty, lookup, insert, has, keys, lookup-insert, lookup-empty}
use kubeport.Prelude.GoLib.{GoLib}
use kubeport.Config.{ServiceConfig, Config}
use kubeport.Manager.{Manager, PortForward, ExternalForward}
use kubeport.Manager.Remove.{among}
use kubeport.Manager.Commands.{
  remove_stale, child_names, desired_services, refresh_external_forwards, readd_each, reload,
  prune_external,
}
use kubeport.Manager.Commands.Stale.{NoChild, remove_stale-effect}
use kubeport.Manager.Commands.Renewal.{Others, readd_each-steady, add_new-steady}

-- the configuration has a service of that name
abbrev pub names_it : String → List ServiceConfig → Bool
names_it n ss = any (λ s. str_eq s.name n) ss

among-keys : {V : Type 0} (n : String) (t : Table V) → among n (keys t) ≡ has n t
unfolding lookup
among-keys n [] = refl
among-keys n ((k, v) ∷ rest) = ground (arith, among-keys n rest, str_eq_iff k n, str_eq_iff n k)

has-desired_services :
    (n : String) (t : Table ServiceConfig) (ss : List ServiceConfig)
    → has n (desired_services t ss) ≡ (has n t || names_it n ss)
unfolding desired_services
has-desired_services n t [] = ground arith
has-desired_services n t (s ∷ rest) = ground (
  arith,
  has-desired_services n (insert s.name s t) rest,
  lookup-insert s.name n s t,
  str_eq_iff s.name n,
)

Others-insert :
    (n : String) (b : Bool) (s : ServiceConfig) (t : Table ServiceConfig)
    → (b ≡ true) ⊎ (str_eq s.name n ≡ false)
    → Others n b t
    → Others n b (insert s.name s t)
unfolding insert
Others-insert n b s [] h o = (h, o)
Others-insert n b s ((k, x) ∷ rest) h o = elim (Bool-cases (str_eq k s.name)) [
  | inl e ↦ rw (e, insert) (h, o.1)
  | inr e ↦ rw (e, insert) (o.0, Others-insert n b s rest h o.1)
]

Others-desired_services :
    (n : String) (b : Bool) (t : Table ServiceConfig) (ss : List ServiceConfig)
    → (b ≡ true) ⊎ (names_it n ss ≡ false)
    → Others n b t
    → Others n b (desired_services t ss)
unfolding desired_services
Others-desired_services n b t [] h o = o
Others-desired_services n b t (s ∷ rest) h o =
    Others-desired_services n b (insert s.name s t) rest (ground (arith, h))
      (Others-insert n b s t (ground (arith, h)) o)

module _ (lib : GoLib) (m : Manager) (cfg : Config) (found : Option (List ExternalForward))
    (n : String) where
  -- the manager after the check for external services, and after each removal loop of Reload
  abbrev refreshed : Manager
  refreshed = refresh_external_forwards m found

  abbrev desired : Table ServiceConfig
  desired = desired_services empty cfg.services

  abbrev without_parents : Manager
  without_parents = (remove_stale (λ k. not (has k desired)) refreshed (keys refreshed.children)).0

  abbrev without_stale : Manager
  without_stale =
      (remove_stale
        (λ k. not (has k desired) && not (any (str_eq k) (child_names without_parents.children)))
        without_parents (keys refreshed.forwards)).0

  -- the removal loops at a name that is no child: it goes exactly if the configuration does not name it
  removals :
      NoChild n refreshed.children
      → (lookup n without_stale.forwards
          ≡ (if names_it n cfg.services then lookup n refreshed.forwards else none))
        × NoChild n without_stale.children
  unfolding empty
  removals c =
      let first =
        remove_stale-effect n (λ k. not (has k desired)) refreshed (keys refreshed.children) c in
      let second =
        remove_stale-effect n
          (λ k. not (has k desired) && not (any (str_eq k) (child_names without_parents.children)))
          without_parents (keys refreshed.forwards) first.1 in
      (
        ground (
          arith,
          first,
          second,
          among-keys n refreshed.forwards,
          has-desired_services n empty cfg.services,
          lookup-empty {V = ServiceConfig} n,
        ),
        second.1,
      )

  -- the two loops that add, at a name that none of them adds
  additions :
      NoChild n without_stale.children
      → Others n (not (among n (keys refreshed.children))) desired
      → Others n (has n without_stale.forwards) desired
      → lookup n (reload lib m cfg found).0.forwards ≡ lookup n without_stale.forwards
  unfolding reload
  additions c again new =
      let parents = keys refreshed.children in
      let third = readd_each-steady lib n parents without_stale desired again c in
      let m₄ = readd_each lib parents without_stale desired in
      let same : has n m₄.forwards ≡ has n without_stale.forwards = ap is_some third.0 in
      add_new-steady lib n _
        (record m₄ { external_forwards = prune_external desired m₄.external_forwards }) desired
        (rw same new) third.1
      ∙ third.0

  -- After a Reload, a name that the new configuration does not name is no longer registered, unless
  -- it was listed as a child of a multi-port parent when the removals began.
  pub reload-drops :
      names_it n cfg.services ≡ false
      → NoChild n (refresh_external_forwards m found).children
      → lookup n (reload lib m cfg found).0.forwards ≡ none
  unfolding empty
  reload-drops unnamed c =
      let gone = removals c in
      let others = λ (b : Bool). Others-desired_services n b empty cfg.services (inr unnamed) tt in
      additions gone.1 (others _) (others _) ∙ ground (arith, gone.0, unnamed)

  -- A Reload leaves a forward untouched if it is registered once the external services have been
  -- stopped, the new configuration still names it, and it is neither a multi-port parent nor
  -- listed as a child of one.
  pub reload-keeps :
      (pf : PortForward)
      → names_it n cfg.services ≡ true
      → NoChild n (refresh_external_forwards m found).children
      → has n (refresh_external_forwards m found).children ≡ false
      → lookup n (refresh_external_forwards m found).forwards ≡ some pf
      → lookup n (reload lib m cfg found).0.forwards ≡ some pf
  unfolding empty
  reload-keeps pf named c single here =
      let kept = removals c in
      let stays : lookup n without_stale.forwards ≡ some pf = ground (arith, kept.0, named, here) in
      let others =
        λ (b : Bool) (e : b ≡ true). Others-desired_services n b empty cfg.services (inl e) tt in
      additions kept.1 (others _ (ground (arith, among-keys n refreshed.children, single)))
        (others _ (ap is_some stays))
      ∙ stays
