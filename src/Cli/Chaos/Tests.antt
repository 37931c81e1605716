-- ===== src/Cli/Chaos/Tests.antt =====
-- The forward web is enabled; a latency without a probability always spikes.
use kubeport.Prelude.{◌≡◌, refl, true, false, some, none, [], ◌∷◌}
use kubeport.Prelude.Int.{pos, over}
use kubeport.Prelude.GoLib.{dyadic, cut_prefix}
use kubeport.Prelude.Result.{ok}
use kubeport.Prelude.Table.{lookup}
use kubeport.Config.Chaos.{ParsedChaosConfig, injects}
use kubeport.Manager.{Manager, PortForward, placeholder}
use kubeport.Manager.Chaos.{reset_chaos, update_chaos}
use kubeport.Manager.Chaos.Targets.{set_chaos, reset-update_chaos}
use kubeport.Manager.Steps.{new_manager}
use kubeport.Daemon.{Server, Surroundings, serve_update_chaos}
use kubeport.Daemon.ChaosParams.{packet_loss_preset}
use kubeport.Cli.Chaos.{
  ScanFloat, plain_request, one_rate, parse_chaos_targets, targets_of, cmd_chaos_switch,
  cmd_chaos_set, parse_chaos_args, set_chaos_flag, chaos_word, with_latency, is_zero,
}
use kubeport.Cli.Chaos.Effect.{switched, switch-injects_nothing}
use kubeport.Samples.{go_lib, two_services, web, db}

abbrev scan : ScanFloat
scan s = some (dyadic (pos 1) 2)

latency-spikes :
    cmd_chaos_set go_lib scan ("web" ∷ "--latency" ∷ "50ms" ∷ [])
    ≡ ok (record (plain_request ("web" ∷ [])) {
      enabled = true;
      spike_probability = one_rate;
      spike_duration_ms = pos 50;
    })
unfolding cmd_chaos_set parse_chaos_args set_chaos_flag chaos_word with_latency is_zero targets_of
    lookup cut_prefix over
latency-spikes = refl

abbrev forward_of_web : PortForward
unfolding placeholder
forward_of_web = placeholder two_services web

abbrev managed : Manager
managed = record (new_manager two_services) {
  forwards = ("web", forward_of_web) ∷ ("db", placeholder two_services db) ∷ [];
}

abbrev around : Surroundings
around = record {
  decode = λ e. none;
  environment = record { k8s_context = ""; k8s_namespace = ""; kubeport_api_key = "" };
  detector = λ c. none;
  uuid = "new-id";
  failures = record { marshal = false; directory = false; write = false };
}

abbrev server : Server
server = record { mgr = managed; cfg = two_services; disk = [] }

enabled-web : cmd_chaos_switch true ("web" ∷ []) ≡ ok (switched true ("web" ∷ []))
unfolding cmd_chaos_switch parse_chaos_targets targets_of
enabled-web = refl

switch-injects_nothing_example :
    (p : ParsedChaosConfig) × (lookup "web"
        (serve_update_chaos go_lib around server (switched true ("web" ∷ []))).0.mgr.forwards
      ≡ some (set_chaos p forward_of_web))
    × (injects p ≡ false)
unfolding lookup
switch-injects_nothing_example =
    switch-injects_nothing go_lib around server true ("web" ∷ []) (switched true ("web" ∷ [])) "web"
      forward_of_web enabled-web refl refl

reset-update_chaos_example :
    lookup "web"
      (reset_chaos go_lib
        (update_chaos managed ("web" ∷ []) packet_loss_preset).0
        ("web" ∷ [])).0.forwards
    ≡ lookup "web" (reset_chaos go_lib managed ("web" ∷ [])).0.forwards
reset-update_chaos_example = reset-update_chaos go_lib managed ("web" ∷ []) packet_loss_preset "web"
