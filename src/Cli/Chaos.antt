-- ===== src/Cli/Chaos.antt =====
-- internal/cli/cmd_chaos.go: the requests that the chaos commands send to the daemon.
pub mod Effect
mod Tests
use text.Mathlib.Text.{starts_with}
use kubeport.Prelude.{
  String, Bool, true, false, ◌&&◌, not, Option, none, some, List, [], ◌∷◌, ◌++◌, ◌==◌, str_eq,
  if◌then◌else◌,
}
use kubeport.Prelude.Int.{ℤ, pos}
use kubeport.Prelude.GoLib.{GoLib, Float64, dyadic, cut_prefix}
use kubeport.Prelude.Result.{Result, ok, err, ◌>>=◌}
use kubeport.Prelude.Table.{Table, lookup}
use kubeport.Config.{is_empty, nonempty}
use kubeport.Daemon.Convert.{milliseconds}
use kubeport.Daemon.ChaosParams.{
  ChaosRequest, ChaosPreset, unspecified, slow_network, unstable_cluster, packet_loss,
}

-- how a chaos command ends the program
pub data ChaosUsage : Type 0 where
  unknown_chaos_flag value_missing : String → ChaosUsage
  invalid_error_rate invalid_spike_prob invalid_latency : ChaosUsage
  no_target preset_required : ChaosUsage
  unknown_preset : String → ChaosUsage

-- parseChaosTargets
unfoldable pub parse_chaos_targets : List String → List String × Bool
parse_chaos_targets [] = ([], false)
parse_chaos_targets (arg ∷ rest) =
    let (services, all) = parse_chaos_targets rest in
    if str_eq arg "--all"
    then (services, true)
    else if starts_with arg "-"
    then (services, all)
    else (arg ∷ services, all)

-- no service stands for all
unfoldable pub targets_of : List String × Bool → List String
targets_of (services, all) = if all then [] else services

-- fmt.Sscanf(s, "%f", &x)
abbrev pub ScanFloat : Type 0
ScanFloat = String → Option Float64

abbrev pub zero_rate : Float64
zero_rate = dyadic (pos 0) 0

abbrev pub one_rate : Float64
one_rate = dyadic (pos 1) 0

-- x == 0
unfoldable pub is_zero : Float64 → Bool
is_zero (dyadic (pos m) k) = m == 0
is_zero _ = false

pub record ChaosArgs : Type 0 where
  pub services : List String
  pub error_rate : Float64
  pub spike_prob : Float64
  pub latency : String
  pub all : Bool

abbrev pub no_chaos_args : ChaosArgs
no_chaos_args = record {
  services = [];
  error_rate = zero_rate;
  spike_prob = zero_rate;
  latency = "";
  all = false;
}

pub data ChaosFlag : Type 0 where
  error_rate_flag latency_flag spike_prob_flag : ChaosFlag

abbrev pub chaos_flags : Table ChaosFlag
chaos_flags =
    ("--error-rate", error_rate_flag)
    ∷ ("-e", error_rate_flag)
    ∷ ("--latency", latency_flag)
    ∷ ("-l", latency_flag)
    ∷ ("--spike-prob", spike_prob_flag)
    ∷ ("-p", spike_prob_flag)
    ∷ []

unfoldable pub set_chaos_flag :
    ScanFloat → ChaosFlag → String → ChaosArgs → Result ChaosUsage ChaosArgs
set_chaos_flag scan error_rate_flag v a = elim (scan v) [
  | none ↦ err invalid_error_rate
  | some x ↦ ok (record a { error_rate = x })
]
set_chaos_flag scan latency_flag v a = ok (record a { latency = v })
set_chaos_flag scan spike_prob_flag v a = elim (scan v) [
  | none ↦ err invalid_spike_prob
  | some x ↦ ok (record a { spike_prob = x })
]

-- an argument that stands alone
unfoldable pub chaos_word : ScanFloat → String → ChaosArgs → Result ChaosUsage ChaosArgs
chaos_word scan arg a = elim (cut_prefix arg "--error-rate=") [
  | some v ↦ set_chaos_flag scan error_rate_flag v a
  | none ↦ elim (cut_prefix arg "--latency=") [
    | some v ↦ set_chaos_flag scan latency_flag v a
    | none ↦ elim (cut_prefix arg "--spike-prob=") [
      | some v ↦ set_chaos_flag scan spike_prob_flag v a
      | none ↦
          if str_eq arg "--all"
          then ok (record a { all = true })
          else if starts_with arg "-"
          then err (unknown_chaos_flag arg)
          else ok (record a { services = a.services ++ arg ∷ [] })
    ]
  ]
]

-- the loop of cmdChaosSet
unfoldable pub parse_chaos_args : ScanFloat → List String → ChaosArgs → Result ChaosUsage ChaosArgs
parse_chaos_args scan [] a = ok a
parse_chaos_args scan (arg ∷ []) a = elim (lookup arg chaos_flags) [
  | some flag ↦ err (value_missing arg)
  | none ↦ chaos_word scan arg a
]
parse_chaos_args scan (arg ∷ value ∷ rest) a = elim (lookup arg chaos_flags) [
  | some flag ↦ do next ← set_chaos_flag scan flag value a; parse_chaos_args scan rest next
  | none ↦ do next ← chaos_word scan arg a; parse_chaos_args scan (value ∷ rest) next
]

abbrev pub plain_request : List String → ChaosRequest
plain_request names = record {
  services = names;
  preset = unspecified;
  enabled = false;
  error_rate = zero_rate;
  spike_probability = zero_rate;
  spike_duration_ms = pos 0;
  reset = false;
}

-- the spikes of a latency; without a probability they always happen
unfoldable pub with_latency : GoLib → ChaosArgs → ChaosRequest → Result ChaosUsage ChaosRequest
with_latency lib a req =
    if is_empty a.latency then ok req else elim (lib.parse_duration a.latency) [
      | none ↦ err invalid_latency
      | some d ↦ ok (record req {
        spike_duration_ms = milliseconds d;
        spike_probability = if is_zero a.spike_prob then one_rate else a.spike_prob;
      })
    ]

-- cmdChaosSet
unfoldable pub cmd_chaos_set : GoLib → ScanFloat → List String → Result ChaosUsage ChaosRequest
cmd_chaos_set lib scan args = do
  a ← parse_chaos_args scan args no_chaos_args
  if not a.all && not (nonempty a.services)
      then err no_target
      else with_latency lib a (record (plain_request (targets_of (a.services, a.all))) {
        enabled = true;
        error_rate = a.error_rate;
        spike_probability = a.spike_prob;
      })

-- cmdChaosEnable and cmdChaosDisable
unfoldable pub cmd_chaos_switch : Bool → List String → Result ChaosUsage ChaosRequest
cmd_chaos_switch on args =
    let (services, all) = parse_chaos_targets args in
    if not all && not (nonempty services)
    then err no_target
    else ok (record (plain_request (targets_of (services, all))) { enabled = on })

abbrev pub preset_names : Table ChaosPreset
preset_names =
    ("slow-network", slow_network)
    ∷ ("unstable-cluster", unstable_cluster)
    ∷ ("packet-loss", packet_loss)
    ∷ []

-- cmdChaosPreset
unfoldable pub cmd_chaos_preset : List String → Result ChaosUsage ChaosRequest
cmd_chaos_preset [] = err preset_required
cmd_chaos_preset (name ∷ rest) = elim (lookup name preset_names) [
  | none ↦ err (unknown_preset name)
  | some chosen ↦
      ok (record (plain_request (targets_of (parse_chaos_targets rest))) { preset = chosen })
]

-- cmdChaosReset
unfoldable pub cmd_chaos_reset : List String → Result ChaosUsage ChaosRequest
cmd_chaos_reset args =
    ok (record (plain_request (targets_of (parse_chaos_targets args))) { reset = true })
