-- ===== src/Config/Chaos/Bounds.antt =====
-- What a parsed chaos configuration promises to the streams that inject faults.
use kubeport.Prelude.{
  ◌≡◌, refl, sym, ◌∙◌, String, true, false, none, some, arith, inl, inr, Bool-cases,
}
use kubeport.Prelude.Int.{ℤ, pos, ◌≤ℤ◌, ◌<ℤ◌}
use kubeport.Prelude.Result.{ok, ok_injective}
use kubeport.Prelude.GoLib.{GoLib, Float64, lt_zero, gt_zero, gt_one}
use kubeport.Config.{ChaosConfig, bool_val}
use kubeport.Config.Error.{ParseError, error_rate_range, probability_range}
use kubeport.Config.Chaos.{
  ParsedChaosConfig, disabled, check_rate, check_spike, resolve_chaos, spike_duration,
  parse_enabled, parse_chaos,
}

-- Within 0.0 and 1.0 as far as a comparison can tell: NaN is neither below 0 nor above 1.
pub record IsRate (x : Float64) : Type 0 where
  pub not_negative : lt_zero x ≡ false
  pub at_most_one : gt_one x ≡ false

check_rate-IsRate : (e : ParseError) (x : Float64) → check_rate e x ≡ ok tt → IsRate x
unfolding check_rate
check_rate-IsRate e x h = ground arith

spike_positive :
    (x : Float64) (d : ℤ) → check_spike x d ≡ ok tt → pos 0 ≤ℤ d → gt_zero x ≡ true → pos 0 <ℤ d
unfolding check_spike
spike_positive x d h p q = ground arith

pub record IsInjectable (p : ParsedChaosConfig) : Type 0 where
  pub rate : IsRate p.error_rate
  pub probability : IsRate p.latency_spike_probability
  pub spike : gt_zero p.latency_spike_probability ≡ true → pos 0 <ℤ p.latency_spike_duration

disabled-IsInjectable : IsInjectable disabled
unfolding lt_zero gt_one gt_zero
disabled-IsInjectable = record {
  rate = record { not_negative = refl; at_most_one = refl };
  probability = record { not_negative = refl; at_most_one = refl };
  spike = λ h. ground arith;
}

resolved_enabled :
    (global per_service : ChaosConfig)
    → bool_val (resolve_chaos global per_service).enabled
      ≡ (elim per_service.enabled [ some b ↦ b | none ↦ bool_val global.enabled ])
unfolding resolve_chaos bool_val
resolved_enabled global per_service = ground arith

module _ (lib : GoLib) where
  spike_duration_nonneg : (s : String) (d : ℤ) → spike_duration lib s ≡ ok d → pos 0 ≤ℤ d
  unfolding spike_duration
  spike_duration_nonneg s d h = ground arith

  parse_enabled-parts :
      (c : ChaosConfig) (p : ParsedChaosConfig)
      → parse_enabled lib c ≡ ok p
      → (check_rate error_rate_range p.error_rate ≡ ok tt)
        × (check_rate probability_range p.latency_spike_probability ≡ ok tt)
        × (spike_duration lib c.latency_spike.duration ≡ ok p.latency_spike_duration)
        × (check_spike p.latency_spike_probability p.latency_spike_duration ≡ ok tt)
        × (p.enabled ≡ true)
  unfolding parse_enabled
  parse_enabled-parts c p h = ground arith

  parse_enabled-IsInjectable :
      (c : ChaosConfig) (p : ParsedChaosConfig) → parse_enabled lib c ≡ ok p → IsInjectable p
  parse_enabled-IsInjectable c p h =
      let (r, q, d, s, _) = parse_enabled-parts c p h in
      record {
        rate = check_rate-IsRate error_rate_range p.error_rate r;
        probability = check_rate-IsRate probability_range p.latency_spike_probability q;
        spike =
            spike_positive p.latency_spike_probability p.latency_spike_duration s
              (spike_duration_nonneg c.latency_spike.duration p.latency_spike_duration d);
      }

  -- A chaos configuration that parses has an error rate and a spike probability that are neither below 0 nor above 1, and a positive spike duration whenever its spike probability is positive; a disabled one parses to no injection.
  pub parse_chaos-IsInjectable :
      (c : ChaosConfig) (p : ParsedChaosConfig)
      → parse_chaos lib c ≡ ok p
      → IsInjectable p × (p.enabled ≡ bool_val c.enabled)
  unfolding parse_chaos
  parse_chaos-IsInjectable c p h = elim (Bool-cases (bool_val c.enabled)) [
    | inl on ↦
        let e : parse_enabled lib c ≡ ok p = rw on at h in
        (parse_enabled-IsInjectable c p e, (parse_enabled-parts c p e).4 ∙ sym on)
    | inr off ↦
        let e : disabled ≡ p = ok_injective (rw off at h) in
        (rw (← e) disabled-IsInjectable, rw (← e, off) refl)
  ]

  -- When the resolved configuration parses, injection is enabled exactly if the service asks for it, or leaves it open and the global configuration asks for it.
  pub resolve_chaos-enabled :
      (global per_service : ChaosConfig) (p : ParsedChaosConfig)
      → parse_chaos lib (resolve_chaos global per_service) ≡ ok p
      → p.enabled ≡ (elim per_service.enabled [ some b ↦ b | none ↦ bool_val global.enabled ])
  resolve_chaos-enabled global per_service p h =
      (parse_chaos-IsInjectable _ p h).1 ∙ resolved_enabled global per_service
