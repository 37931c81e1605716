-- ===== src/Config/Chaos.antt =====
-- ChaosConfig.Parse and ResolveChaos of pkg/config/config.go.
pub mod Bounds
use kubeport.Prelude.{String, Bool, true, false, ◌&&◌, ◌||◌, not, Option, none, some, if◌then◌else◌}
use kubeport.Prelude.Int.{ℤ, pos, ltb_ℤ, eq_ℤ}
use kubeport.Prelude.Result.{Result, ok, err, ◌>>=◌, ◌>>◌}
use kubeport.Prelude.GoLib.{GoLib, Float64, lt_zero, gt_zero, gt_one}
use kubeport.Config.{ChaosConfig, LatencySpikeConfig, is_empty, bool_val, no_chaos}
use kubeport.Config.Error.{
  ParseError, error_rate_range, probability_range, invalid_spike_duration, negative_spike_duration,
  spike_duration_required,
}

pub record ParsedChaosConfig : Type 0 where
  pub enabled : Bool
  pub error_rate : Float64
  pub latency_spike_probability : Float64
  pub latency_spike_duration : ℤ

-- the zero value, which stands for no injection
abbrev pub disabled : ParsedChaosConfig
disabled = record {
  enabled = false;
  error_rate = Float64.dyadic (pos 0) 0;
  latency_spike_probability = Float64.dyadic (pos 0) 0;
  latency_spike_duration = pos 0;
}

-- ParsedChaosConfig.IsEnabled
unfoldable pub injects : ParsedChaosConfig → Bool
injects p = p.enabled && (gt_zero p.error_rate || gt_zero p.latency_spike_probability)

-- a rate outside 0.0 to 1.0 is refused
unfoldable pub check_rate : ParseError → Float64 → Result ParseError (Unit {0})
check_rate e x = if lt_zero x || gt_one x then err e else ok tt

unfoldable pub check_spike : Float64 → ℤ → Result ParseError (Unit {0})
check_spike probability duration =
    if gt_zero probability && eq_ℤ duration (pos 0) then err spike_duration_required else ok tt

unfoldable pub resolve_chaos : ChaosConfig → ChaosConfig → ChaosConfig
resolve_chaos global per_service = elim per_service.enabled [
  | some b ↦ if not b then no_chaos else per_service
  | none ↦ if not (bool_val global.enabled) then no_chaos else global
]

module _ (lib : GoLib) where
  open lib use {parse_duration}

  unfoldable pub spike_duration : String → Result ParseError ℤ
  spike_duration s = if is_empty s then ok (pos 0) else elim (parse_duration s) [
    | none ↦ err (invalid_spike_duration s)
    | some d ↦ if ltb_ℤ d (pos 0) then err (negative_spike_duration s) else ok d
  ]

  -- the part of Parse behind its early return
  unfoldable pub parse_enabled : ChaosConfig → Result ParseError ParsedChaosConfig
  parse_enabled c = do
    check_rate error_rate_range c.error_rate
    check_rate probability_range c.latency_spike.probability
    duration ← spike_duration c.latency_spike.duration
    check_spike c.latency_spike.probability duration
    ok (record {
      enabled = true;
      error_rate = c.error_rate;
      latency_spike_probability = c.latency_spike.probability;
      latency_spike_duration = duration;
    })

  -- ChaosConfig.Parse
  unfoldable pub parse_chaos : ChaosConfig → Result ParseError ParsedChaosConfig
  parse_chaos c = if not (bool_val c.enabled) then ok disabled else parse_enabled c

  -- The first result of Parse, which is filled in as far as the checks were passed.
  unfoldable pub parsed_so_far : ChaosConfig → ParsedChaosConfig
  parsed_so_far c =
      let rate = record disabled { enabled = true; error_rate = c.error_rate } in
      let spike = record rate { latency_spike_probability = c.latency_spike.probability } in
      if not (bool_val c.enabled)
      then disabled
      else elim (check_rate error_rate_range c.error_rate) [
        | err e ↦ record disabled { enabled = true }
        | ok _ ↦ elim (check_rate probability_range c.latency_spike.probability) [
          | err e ↦ rate
          | ok _ ↦ elim (spike_duration c.latency_spike.duration) [
            | err e ↦ spike
            | ok d ↦ record spike { latency_spike_duration = d }
          ]
        ]
      ]
