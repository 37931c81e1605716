-- ===== src/Manager/Chaos.antt =====
-- UpdateChaos, ResetChaos and resolveChaosTargets of internal/proxy/manager.go.
pub mod Targets
use kubeport.Prelude.{String, Bool, true, false, none, some, List, [], ◌∷◌, map, if◌then◌else◌}
use kubeport.Prelude.Table.{Table, lookup, insert, has, keys}
use kubeport.Prelude.GoLib.{GoLib}
use kubeport.Config.Chaos.{ParsedChaosConfig, resolve_chaos, parsed_so_far}
use kubeport.Manager.{Manager, PortForward}

-- A supervisor or a live update writes the fields of one registered forward.
unfoldable pub update_forward : Manager → String → (PortForward → PortForward) → Manager
update_forward m name f = elim (lookup name m.forwards) [
  | none ↦ m
  | some pf ↦ record m { forwards = insert name (f pf) m.forwards }
]

-- the loop over the named services
unfoldable pub named_targets : Manager → Table Bool → List String → Table Bool
named_targets m t [] = t
named_targets m t (n ∷ ns) = named_targets m (insert n (has n m.forwards) t) ns

-- every forward if no service is named, else the named ones, each with whether it is registered
unfoldable pub resolve_chaos_targets : Manager → List String → Table Bool
resolve_chaos_targets m [] = map (λ n. (n, true)) (keys m.forwards)
resolve_chaos_targets m (name ∷ rest) = named_targets m [] (name ∷ rest)

-- the manager, the names updated and the names not found
abbrev pub Report : Type 0
Report = Manager × List String × List String

-- the loop over the targets, with the write that it makes on each forward found
unfoldable pub write_targets : (PortForward → PortForward) → Manager → Table Bool → Report
write_targets write m [] = (m, [], [])
write_targets write m ((name, found) ∷ rest) =
    let (m', updated, missing) =
      write_targets write (if found then update_forward m name write else m) rest in
    if found then (m', name ∷ updated, missing) else (m', updated, name ∷ missing)

-- UpdateChaos
unfoldable pub update_chaos : Manager → List String → ParsedChaosConfig → Report
update_chaos m services cfg =
    write_targets (λ pf. record pf { chaos_override = some cfg; has_chaos_override = true }) m
      (resolve_chaos_targets m services)

-- ResetChaos
unfoldable pub reset_chaos : GoLib → Manager → List String → Report
reset_chaos lib m services =
    write_targets
      (λ pf. record pf {
        has_chaos_override = false;
        chaos_override = some (parsed_so_far lib (resolve_chaos m.cfg.chaos pf.svc.chaos));
      })
      m (resolve_chaos_targets m services)
