-- ===== src/Cli/Chaos/Effect.antt =====
-- What the daemon makes of `chaos enable` and `chaos disable`.
use kubeport.Prelude.{◌≡◌, refl, sym, ap, ◌∙◌, String, Bool, true, false, some, List, arith}
use kubeport.Prelude.GoLib.{GoLib, gt_zero, lt_zero, gt_one}
use kubeport.Prelude.Result.{ok}
use kubeport.Prelude.Table.{lookup}
use kubeport.Config.Chaos.{ParsedChaosConfig, injects}
use kubeport.Manager.{PortForward}
use kubeport.Manager.Chaos.Targets.{is_target, set_chaos, lookup-update_chaos}
use kubeport.Daemon.{Server, Surroundings, serve_update_chaos}
use kubeport.Daemon.ChaosParams.{
  ChaosRequest, chaos_params_from_proto, params_for, check_params, inline_params,
}
use kubeport.Cli.Chaos.{plain_request, targets_of, parse_chaos_targets, cmd_chaos_switch}

-- the request of a switch
abbrev pub switched : Bool → List String → ChaosRequest
switched on names = record (plain_request names) { enabled = on }

cmd_chaos_switch-ok :
    (on : Bool) (args : List String) (req : ChaosRequest)
    → cmd_chaos_switch on args ≡ ok req
    → req ≡ switched on (targets_of (parse_chaos_targets args))
unfolding cmd_chaos_switch
cmd_chaos_switch-ok on args req accepted = ground (arith, accepted)

switched-params :
    (on : Bool) (names : List String)
    → chaos_params_from_proto (switched on names) ≡ ok (inline_params (switched on names))
unfolding chaos_params_from_proto params_for check_params inline_params gt_zero lt_zero gt_one
switched-params on names = refl

switched-quiet :
    (on : Bool) (names : List String) → injects (inline_params (switched on names)) ≡ false
unfolding injects inline_params gt_zero
switched-quiet on names = ground arith

-- After `chaos enable`, as after `chaos disable`, each forward that the command is for has live
-- settings that inject nothing; its other fields are as they were.
pub switch-injects_nothing :
    (lib : GoLib) (around : Surroundings) (srv : Server) (on : Bool) (args : List String)
    (req : ChaosRequest) (asked : String) (pf : PortForward)
    → cmd_chaos_switch on args ≡ ok req
    → lookup asked srv.mgr.forwards ≡ some pf
    → is_target asked req.services ≡ true
    → (p : ParsedChaosConfig) × (lookup asked (serve_update_chaos lib around srv req).0.mgr.forwards
        ≡ some (set_chaos p pf))
      × (injects p ≡ false)
unfolding serve_update_chaos
switch-injects_nothing lib around srv on args req asked pf accepted there aimed =
    let names : List String = targets_of (parse_chaos_targets args) in
    let same : req ≡ switched on names = cmd_chaos_switch-ok on args req accepted in
    let p : ParsedChaosConfig = inline_params (switched on names) in
    let aimed_too : is_target asked names ≡ true =
      sym (ap (λ r. is_target asked r.services) same) ∙ aimed in
    let stored : lookup asked (serve_update_chaos lib around srv (switched on names)).0.mgr.forwards
        ≡ some (set_chaos p pf) =
      ground (
        arith,
        there,
        aimed_too,
        switched-params on names,
        lookup-update_chaos srv.mgr names p asked,
      ) in
    (
      p,
      ap (λ r. lookup asked (serve_update_chaos lib around srv r).0.mgr.forwards) same ∙ stored,
      switched-quiet on names,
    )
