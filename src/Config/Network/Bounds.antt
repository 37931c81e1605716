-- ===== src/Config/Network/Bounds.antt =====
-- What a parsed network configuration promises to the throttled streams.
use kubeport.Prelude.{◌≡◌, String, arith}
use kubeport.Prelude.Int.{ℤ, pos, ◌≤ℤ◌}
use kubeport.Prelude.Result.{ok}
use kubeport.Prelude.GoLib.{GoLib}
use kubeport.Config.{NetworkConfig}
use kubeport.Config.Error.{
  ParseError, invalid_latency, negative_latency, invalid_jitter, negative_jitter,
}
use kubeport.Config.Network.{
  ParsedNetworkConfig, parse_network, duration_field, bandwidth_field, check_jitter,
}

check_jitter_le : (l j : ℤ) → check_jitter l j ≡ ok tt → pos 0 ≤ℤ l → pos 0 ≤ℤ j → j ≤ℤ l
unfolding check_jitter
check_jitter_le l j h p q = ground arith

module _ (lib : GoLib) where
  duration_field_nonneg :
      (invalid negative : String → ParseError) (s : String) (d : ℤ)
      → duration_field lib invalid negative s ≡ ok d
      → pos 0 ≤ℤ d
  unfolding duration_field
  duration_field_nonneg invalid negative s d h = ground arith

  -- the four steps of a parse that succeeds
  pub parse_network-parts :
      (n : NetworkConfig) (p : ParsedNetworkConfig)
      → parse_network lib n ≡ ok p
      → (duration_field lib invalid_latency negative_latency n.latency ≡ ok p.latency)
        × (duration_field lib invalid_jitter negative_jitter n.jitter ≡ ok p.jitter)
        × (check_jitter p.latency p.jitter ≡ ok tt)
        × (bandwidth_field lib n.bandwidth ≡ ok p.bytes_per_sec)
  unfolding parse_network
  parse_network-parts n p h = ground arith

  -- A configuration that parses has a latency and a jitter that are not negative, and the jitter is at most the latency, so a delay of latency plus or minus jitter is never negative.
  pub parse_network-jitter-le-latency :
      (n : NetworkConfig) (p : ParsedNetworkConfig)
      → parse_network lib n ≡ ok p
      → (pos 0 ≤ℤ p.latency) × (pos 0 ≤ℤ p.jitter) × (p.jitter ≤ℤ p.latency)
  parse_network-jitter-le-latency n p h =
      let (l, j, c, b) = parse_network-parts n p h in
      let l0 = duration_field_nonneg invalid_latency negative_latency n.latency p.latency l in
      let j0 = duration_field_nonneg invalid_jitter negative_jitter n.jitter p.jitter j in
      (l0, j0, check_jitter_le p.latency p.jitter c l0 j0)
