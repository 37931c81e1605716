-- ===== src/Manager/Chaos/Targets.antt =====
-- Which forwards UpdateChaos and ResetChaos write.
use mathlib.Core.Option.{map as map_option}
use kubeport.Prelude.{
  ◌≡◌, refl, ap, String, Bool, true, false, ◌&&◌, ◌||◌, not, Option, none, some, List, [], ◌∷◌, map,
  any, str_eq, str_eq_iff, if◌then◌else◌, Option-cases, Bool-cases, inl, inr, arith,
}
use kubeport.Prelude.GoLib.{GoLib}
use kubeport.Prelude.Table.{Table, lookup, insert, has, keys, lookup-insert}
use kubeport.Config.Chaos.{ParsedChaosConfig, parsed_so_far, resolve_chaos}
use kubeport.Manager.{Manager, PortForward}
use kubeport.Manager.Chaos.{
  update_forward, named_targets, resolve_chaos_targets, write_targets, update_chaos, reset_chaos,
}

-- the name is a target that is registered
abbrev marked : String → Table Bool → Bool
marked asked [] = false
marked asked ((name, found) ∷ rest) = (found && str_eq name asked) || marked asked rest

lookup-update_forward :
    (m : Manager) (name : String) (write : PortForward → PortForward) (asked : String)
    → lookup asked (update_forward m name write).forwards ≡ (
        if str_eq name asked
        then map_option write (lookup asked m.forwards)
        else lookup asked m.forwards)
unfolding update_forward
lookup-update_forward m name write asked = elim (Option-cases (lookup name m.forwards)) [
  | inl missing ↦ ground (arith, missing, str_eq_iff name asked, ap (λ n. lookup n m.forwards))
  | inr (pf, there) ↦ ground (
    arith,
    there,
    lookup-insert name asked (write pf) m.forwards,
    str_eq_iff name asked,
    ap (λ n. lookup n m.forwards),
  )
]

-- a write that comes twice is like one
map-twice :
    (write : PortForward → PortForward) (o : Option PortForward)
    → ((pf : PortForward) → write (write pf) ≡ write pf)
    → map_option write (map_option write o) ≡ map_option write o
map-twice write none twice = refl
map-twice write (some pf) twice = ap some (twice pf)

lookup-write_targets :
    (write : PortForward → PortForward) (m : Manager) (targets : Table Bool) (asked : String)
    → ((pf : PortForward) → write (write pf) ≡ write pf)
    → lookup asked (write_targets write m targets).0.forwards ≡ (
        if marked asked targets
        then map_option write (lookup asked m.forwards)
        else lookup asked m.forwards)
unfolding write_targets
lookup-write_targets write m [] asked twice = refl
lookup-write_targets write m ((name, true) ∷ rest) asked twice = ground (
  arith,
  lookup-write_targets write (update_forward m name write) rest asked twice,
  lookup-update_forward m name write asked,
  map-twice write (lookup asked m.forwards) twice,
)
lookup-write_targets write m ((name, false) ∷ rest) asked twice =
    ground (arith, lookup-write_targets write m rest asked twice)

marked-insert :
    (asked name : String) (found : Bool) (targets : Table Bool)
    → (not (str_eq name asked) || found) ≡ true
    → marked asked (insert name found targets) ≡ (str_eq name asked || marked asked targets)
unfolding insert
marked-insert asked name found [] good = ground (arith, good)
marked-insert asked name found ((n, old) ∷ rest) good = ground (
  arith,
  good,
  marked-insert asked name found rest,
  str_eq_iff n name,
  str_eq_iff name asked,
  str_eq_iff n asked,
)

marked-named_targets :
    (m : Manager) (asked : String) (targets : Table Bool) (names : List String)
    → has asked m.forwards ≡ true
    → marked asked (named_targets m targets names)
      ≡ (any (λ n. str_eq n asked) names || marked asked targets)
unfolding named_targets
marked-named_targets m asked targets [] there = refl
marked-named_targets m asked targets (name ∷ rest) there =
    let good : (not (str_eq name asked) || has name m.forwards) ≡ true =
      ground (arith, there, str_eq_iff name asked, ap (λ n. has n m.forwards)) in
    ground (
      arith,
      marked-named_targets m asked (insert name (has name m.forwards) targets) rest there,
      marked-insert asked name (has name m.forwards) targets good,
    )

marked-all :
    (asked : String) (table : Table PortForward)
    → has asked table ≡ true
    → marked asked (map (λ n. (n, true)) (keys table)) ≡ true
unfolding lookup
marked-all asked [] there = absurd (ground (arith, there))
marked-all asked ((name, pf) ∷ rest) there = ground (arith, there, marked-all asked rest)

-- the request names the forward, or none, which means all
abbrev pub is_target : String → List String → Bool
is_target asked [] = true
is_target asked (name ∷ rest) = any (λ n. str_eq n asked) (name ∷ rest)

targets-marked :
    (m : Manager) (names : List String) (asked : String)
    → has asked m.forwards ≡ true
    → marked asked (resolve_chaos_targets m names) ≡ is_target asked names
unfolding resolve_chaos_targets
targets-marked m [] asked there = marked-all asked m.forwards there
targets-marked m (name ∷ rest) asked there =
    ground (arith, marked-named_targets m asked [] (name ∷ rest) there)

lookup-resolved :
    (write : PortForward → PortForward) (m : Manager) (names : List String) (asked : String)
    → ((pf : PortForward) → write (write pf) ≡ write pf)
    → lookup asked (write_targets write m (resolve_chaos_targets m names)).0.forwards ≡ (
        if is_target asked names
        then map_option write (lookup asked m.forwards)
        else lookup asked m.forwards)
lookup-resolved write m names asked twice = elim (Bool-cases (has asked m.forwards)) [
  | inr missing ↦
      ground
        (arith, missing, lookup-write_targets write m (resolve_chaos_targets m names) asked twice)
  | inl there ↦ ground (
    arith,
    there,
    lookup-write_targets write m (resolve_chaos_targets m names) asked twice,
    targets-marked m names asked there,
  )
]

-- the live settings of a forward
abbrev pub set_chaos : ParsedChaosConfig → PortForward → PortForward
set_chaos cfg pf = record pf { chaos_override = some cfg; has_chaos_override = true }

-- UpdateChaos writes the settings on exactly the forwards that it is asked for.
pub lookup-update_chaos :
    (m : Manager) (names : List String) (cfg : ParsedChaosConfig) (asked : String)
    → lookup asked (update_chaos m names cfg).0.forwards ≡ (
        if is_target asked names
        then map_option (set_chaos cfg) (lookup asked m.forwards)
        else lookup asked m.forwards)
unfolding update_chaos
lookup-update_chaos m names cfg asked = lookup-resolved (set_chaos cfg) m names asked (λ pf. refl)

abbrev configured : GoLib → Manager → PortForward → PortForward
configured lib m pf = record pf {
  has_chaos_override = false;
  chaos_override = some (parsed_so_far lib (resolve_chaos m.cfg.chaos pf.svc.chaos));
}

lookup-reset_chaos :
    (lib : GoLib) (m : Manager) (names : List String) (asked : String)
    → lookup asked (reset_chaos lib m names).0.forwards ≡ (
        if is_target asked names
        then map_option (configured lib m) (lookup asked m.forwards)
        else lookup asked m.forwards)
unfolding reset_chaos
lookup-reset_chaos lib m names asked = lookup-resolved (configured lib m) m names asked (λ pf. refl)

update_forward-cfg :
    (m : Manager) (name : String) (write : PortForward → PortForward)
    → (update_forward m name write).cfg ≡ m.cfg
unfolding update_forward
update_forward-cfg m name write = ground arith

write_targets-cfg :
    (write : PortForward → PortForward) (m : Manager) (targets : Table Bool)
    → (write_targets write m targets).0.cfg ≡ m.cfg
unfolding write_targets
write_targets-cfg write m [] = refl
write_targets-cfg write m ((name, found) ∷ rest) = ground (
  arith,
  write_targets-cfg write (update_forward m name write) rest,
  write_targets-cfg write m rest,
  update_forward-cfg m name write,
)

update_chaos-cfg :
    (m : Manager) (names : List String) (cfg : ParsedChaosConfig)
    → (update_chaos m names cfg).0.cfg ≡ m.cfg
unfolding update_chaos
update_chaos-cfg m names cfg = write_targets-cfg (set_chaos cfg) m (resolve_chaos_targets m names)

-- For every name, the forward after UpdateChaos and then ResetChaos of the same services is the one
-- that ResetChaos alone leaves.
pub reset-update_chaos :
    (lib : GoLib) (m : Manager) (names : List String) (cfg : ParsedChaosConfig) (asked : String)
    → lookup asked (reset_chaos lib (update_chaos m names cfg).0 names).0.forwards
      ≡ lookup asked (reset_chaos lib m names).0.forwards
reset-update_chaos lib m names cfg asked =
    let after : Manager = (update_chaos m names cfg).0 in
    elim (Option-cases (lookup asked m.forwards)) [
      | inl missing ↦ ground (
        arith,
        missing,
        lookup-reset_chaos lib after names asked,
        lookup-reset_chaos lib m names asked,
        lookup-update_chaos m names cfg asked,
      )
      | inr (pf, there) ↦ ground (
        arith,
        there,
        lookup-reset_chaos lib after names asked,
        lookup-reset_chaos lib m names asked,
        lookup-update_chaos m names cfg asked,
        update_chaos-cfg m names cfg,
      )
    ]
