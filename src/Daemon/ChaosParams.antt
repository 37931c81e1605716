-- ===== src/Daemon/ChaosParams.antt =====
-- chaosParamsFromProto of internal/daemon/server.go, with ChaosPresets of internal/proxy/manager.go.
use kubeport.Prelude.{String, Bool, true, ◌&&◌, ◌||◌, List, if◌then◌else◌}
use kubeport.Prelude.Int.{ℤ, pos, leb_ℤ, wrap64, times}
use kubeport.Prelude.Result.{Result, ok, err}
use kubeport.Prelude.GoLib.{Float64, dyadic, lt_zero, gt_zero, gt_one}
use kubeport.Config.Chaos.{ParsedChaosConfig}

-- the named presets; `unspecified` stands for every other value
pub data ChaosPreset : Type 0 where
  unspecified slow_network unstable_cluster packet_loss : ChaosPreset

pub record ChaosRequest : Type 0 where
  pub services : List String
  pub preset : ChaosPreset
  pub enabled : Bool
  pub error_rate : Float64
  pub spike_probability : Float64
  pub spike_duration_ms : ℤ
  pub reset : Bool

pub data ParamsError : Type 0 where
  bad_error_rate bad_spike_probability spike_duration_missing : ParamsError

-- the float64 values of 0.10, 0.05 and 0.15
abbrev tenth : Float64
tenth = dyadic (pos 3_602_879_701_896_397) 55

abbrev twentieth : Float64
twentieth = dyadic (pos 3_602_879_701_896_397) 56

abbrev fifteen_hundredths : Float64
fifteen_hundredths = dyadic (pos 5_404_319_552_844_595) 55

abbrev no_rate : Float64
no_rate = dyadic (pos 0) 0

-- ChaosPresets
abbrev pub slow_network_preset : ParsedChaosConfig
slow_network_preset = record {
  enabled = true;
  error_rate = no_rate;
  latency_spike_probability = tenth;
  latency_spike_duration = pos 200_000_000;
}

abbrev pub unstable_cluster_preset : ParsedChaosConfig
unstable_cluster_preset = record {
  enabled = true;
  error_rate = twentieth;
  latency_spike_probability = twentieth;
  latency_spike_duration = pos 2_000_000_000;
}

abbrev pub packet_loss_preset : ParsedChaosConfig
packet_loss_preset = record {
  enabled = true;
  error_rate = fifteen_hundredths;
  latency_spike_probability = no_rate;
  latency_spike_duration = pos 0;
}

-- the settings of a request without a preset
unfoldable pub inline_params : ChaosRequest → ParsedChaosConfig
inline_params req = record {
  enabled = req.enabled;
  error_rate = req.error_rate;
  latency_spike_probability = req.spike_probability;
  latency_spike_duration = wrap64 (times req.spike_duration_ms 1_000_000);
}

unfoldable pub check_params : ParsedChaosConfig → Result ParamsError ParsedChaosConfig
check_params cfg =
    if lt_zero cfg.error_rate || gt_one cfg.error_rate
    then err bad_error_rate
    else if lt_zero cfg.latency_spike_probability || gt_one cfg.latency_spike_probability
    then err bad_spike_probability
    else if gt_zero cfg.latency_spike_probability && leb_ℤ cfg.latency_spike_duration (pos 0)
    then err spike_duration_missing
    else ok cfg

unfoldable pub params_for : ChaosPreset → ChaosRequest → Result ParamsError ParsedChaosConfig
params_for slow_network req = ok slow_network_preset
params_for unstable_cluster req = ok unstable_cluster_preset
params_for packet_loss req = ok packet_loss_preset
params_for unspecified req = check_params (inline_params req)

-- chaosParamsFromProto
unfoldable pub chaos_params_from_proto : ChaosRequest → Result ParamsError ParsedChaosConfig
unfolding params_for
chaos_params_from_proto req = params_for req.preset req
