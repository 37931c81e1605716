-- ===== src/Config/Network.antt =====
-- NetworkConfig.Parse, ResolveNetwork and parseBandwidth of pkg/config/config.go.
pub mod Bounds
use kubeport.Prelude.{
  ℕ, String, ◌≡◌, Bool, true, false, ◌&&◌, Option, none, some, List, [], ◌∷◌, if◌then◌else◌,
}
use kubeport.Prelude.Int.{ℤ, pos, ltb_ℤ, eq_ℤ}
use kubeport.Prelude.Result.{Result, ok, err, ◌>>=◌, ◌>>◌}
use kubeport.Prelude.GoLib.{GoLib, Float64, le_zero, cut_suffix}
use kubeport.Config.{NetworkConfig, is_empty}
use kubeport.Config.Error.{
  ParseError, invalid_latency, negative_latency, invalid_jitter, negative_jitter,
  jitter_without_latency, jitter_above_latency, invalid_bandwidth_number, bandwidth_not_positive,
  unknown_bandwidth_unit,
}

-- Durations in nanoseconds, bandwidth in bytes per second.
pub record ParsedNetworkConfig : Type 0 where
  pub latency : ℤ
  pub jitter : ℤ
  pub bytes_per_sec : ℤ

-- Per-service fields override global ones when they are not empty.
unfoldable pub resolve_network : NetworkConfig → NetworkConfig → NetworkConfig
resolve_network global per_service = record {
  latency = if is_empty per_service.latency then global.latency else per_service.latency;
  jitter = if is_empty per_service.jitter then global.jitter else per_service.jitter;
  bandwidth = if is_empty per_service.bandwidth then global.bandwidth else per_service.bandwidth;
}

-- `suffixes` of parseBandwidth, in its order
abbrev pub suffixes : List (String × ℕ)
suffixes =
    ("gbytes", 1_000_000_000)
    ∷ ("mbytes", 1_000_000)
    ∷ ("kbytes", 1_000)
    ∷ ("gbps", 125_000_000)
    ∷ ("mbps", 125_000)
    ∷ ("kbps", 125)
    ∷ []

-- the two tests that relate jitter and latency
unfoldable pub check_jitter : ℤ → ℤ → Result ParseError (Unit {0})
check_jitter latency jitter =
    if ltb_ℤ (pos 0) jitter && eq_ℤ latency (pos 0)
    then err jitter_without_latency
    else if ltb_ℤ latency jitter && ltb_ℤ (pos 0) latency
    then err jitter_above_latency
    else ok tt

module _ (lib : GoLib) where
  open lib use {parse_duration, to_lower, trim_space, parse_float, scale}

  -- one suffix that fits: the number before it, times the multiplier
  scaled : String → ℕ → Option Float64 → Result ParseError ℤ
  scaled num multiplier none = err (invalid_bandwidth_number num)
  scaled num multiplier (some val) =
      if le_zero val then err bandwidth_not_positive else ok (scale val multiplier)

  -- the loop over `suffixes`
  bandwidth_by : List (String × ℕ) → String → Result ParseError ℤ
  unfolding scaled
  bandwidth_by [] lower = err unknown_bandwidth_unit
  bandwidth_by ((name, multiplier) ∷ rest) lower = elim (cut_suffix lower name) [
    | some before ↦ let num = trim_space before in scaled num multiplier (parse_float num)
    | none ↦ bandwidth_by rest lower
  ]

  unfoldable pub parse_bandwidth : String → Result ParseError ℤ
  unfolding bandwidth_by
  parse_bandwidth s = bandwidth_by suffixes (to_lower (trim_space s))

  -- an optional duration field: empty is zero, anything else must parse and not be negative
  unfoldable pub duration_field :
      (String → ParseError) → (String → ParseError) → String → Result ParseError ℤ
  duration_field invalid negative s = if is_empty s then ok (pos 0) else elim (parse_duration s) [
    | none ↦ err (invalid s)
    | some d ↦ if ltb_ℤ d (pos 0) then err (negative s) else ok d
  ]

  unfoldable pub bandwidth_field : String → Result ParseError ℤ
  unfolding parse_bandwidth
  bandwidth_field s = if is_empty s then ok (pos 0) else parse_bandwidth s

  -- NetworkConfig.Parse
  unfoldable pub parse_network : NetworkConfig → Result ParseError ParsedNetworkConfig
  parse_network n = do
    latency ← duration_field invalid_latency negative_latency n.latency
    jitter ← duration_field invalid_jitter negative_jitter n.jitter
    check_jitter latency jitter
    bytes ← bandwidth_field n.bandwidth
    ok (record { latency = latency; jitter = jitter; bytes_per_sec = bytes })
