-- ===== src/Recommendation/Safety.antt =====
-- A recommendation covers the usage that it was computed from.
use optipod.Prelude.{
  times_mono, ℕ, ◌≡◌, ◌≤◌, ◌^◌, ℤ, pos, ◌≤ℤ◌, refl, ok, Option, none, some, arith, ◌⊎◌, true, false,
  if◌then◌else◌, value_or,
}
use optipod.Platform.{Platform}
use optipod.Platform.Laws.{QuantityLaws, FloatLaws}
use optipod.Api.Types.{OptimizationPolicy, ResourceBound}
use optipod.Api.Validation.{validate_create}
use optipod.Api.Validation.Laws.{IsValidPolicy, IfPresent, validate_create_iff}
use optipod.Metrics.{ContainerMetrics}
use optipod.Recommendation.{
  Recommendation, is_decimal_si, clamp_to_bounds, multiply_quantity, select_percentile,
  safety_factor_of, recommend, compute_recommendation,
}

module _ {P : Platform} (laws : QuantityLaws P) (floats : FloatLaws P) where
  open P use {
    Quantity, Float, format, milli_value, value, lt, mul, decimal, of_int64, to_int64, cmp,
  }
  open laws use {
    nanos, cmp-nanos, milli_value-up, value-up, nanos-new_milli_quantity, nanos-new_quantity,
  }

  -- The integer that the code multiplies by the factor.
  abbrev pub counted : Quantity → ℤ
  counted q = if is_decimal_si (format q) then milli_value q else value q

  -- The usage is not negative and below 2^53, and its product with the factor is an int64.
  pub record IsMeasurable (q : Quantity) (f : Float) : Type 0 where
    pub units : ℕ
    pub counted_units : counted q ≡ pos units
    pub exact : units ≤ 2 ^ 53
    pub fits : lt (mul (of_int64 (pos units)) f) (of_int64 (pos (2 ^ 63))) ≡ true

  -- A factor that is not below 1.0 does not make a measurable quantity smaller.
  pub multiply_quantity-ge :
      (q : Quantity) (f : Float)
      → IsMeasurable q f
      → lt f (decimal 1 0) ≡ false
      → nanos q ≤ℤ nanos (multiply_quantity P q f)
  unfolding multiply_quantity
  multiply_quantity-ge q f m h =
      let scaled : ℤ = to_int64 (mul (of_int64 (pos m.units)) f) in
      ground (
        arith,
        milli_value-up q,
        value-up q,
        nanos-new_milli_quantity scaled (format q),
        nanos-new_quantity scaled (format q),
        times_mono (pos m.units) scaled (10 ^ 6),
        times_mono (pos m.units) scaled (10 ^ 9),
        floats.grows m.units f,
      )

  clamp_covers :
      (q v : Quantity) (b : ResourceBound P)
      → nanos q ≤ℤ nanos v
      → (nanos q ≤ℤ nanos (clamp_to_bounds v b)) ⊎ (clamp_to_bounds v b ≡ b.max)
  unfolding clamp_to_bounds
  clamp_covers q v b h = ground (arith, cmp-nanos v b.min, cmp-nanos v b.max)

  valid_factor :
      (o : Option Float)
      → IfPresent (λ f. lt f (decimal 1 0) ≡ false) o
      → lt (value_or (decimal 12 1) o) (decimal 1 0) ≡ false
  valid_factor none h = floats.default_factor
  valid_factor (some f) h = h

  -- For a policy that passes validation the recommended CPU is at least the usage that it was
  -- computed from, or it is the maximum of the policy; and so is the recommended memory. The
  -- usages are measurable at the factor of the policy.
  pub recommendation_covers_usage :
      (m : ContainerMetrics P) (p : OptimizationPolicy P)
      → validate_create p ≡ ok tt
      → IsMeasurable (select_percentile m.cpu p.spec.metrics_config.percentile) (safety_factor_of p)
      → IsMeasurable
          (select_percentile m.memory p.spec.metrics_config.percentile)
          (safety_factor_of p)
      → (r : Recommendation P) × (compute_recommendation (some m) (some p) ≡ ok r)
        × ((nanos (select_percentile m.cpu p.spec.metrics_config.percentile) ≤ℤ nanos r.cpu)
            ⊎ (r.cpu ≡ p.spec.resource_bounds.cpu.max))
        × ((nanos (select_percentile m.memory p.spec.metrics_config.percentile) ≤ℤ nanos r.memory)
            ⊎ (r.memory ≡ p.spec.resource_bounds.memory.max))
  unfolding compute_recommendation
  recommendation_covers_usage m p h c u =
      let valid : IsValidPolicy p = (validate_create_iff p).0 h in
      let factor = safety_factor_of p in
      let factor_valid = valid_factor p.spec.metrics_config.safety_factor valid.safety_factor in
      (
        recommend m p,
        refl,
        clamp_covers _ _ p.spec.resource_bounds.cpu (multiply_quantity-ge _ factor c factor_valid),
        clamp_covers _ _ p.spec.resource_bounds.memory
            (multiply_quantity-ge _ factor u factor_valid),
      )
