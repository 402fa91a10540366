-- ===== src/Recommendation.antt =====
-- internal/recommendation/engine.go: from usage percentiles and a policy to a recommendation.
pub mod Bounds
pub mod Safety
use Prim.Native.Nat.{Ordering}
use optipod.Prelude.{
  ℤ, String, str_eq, Bool, true, false, Option, none, some, ◌||◌, value_or, Result, ok, err,
  if◌then◌else◌,
}
use optipod.Platform.{Platform, Format, decimal_si}
use optipod.Api.Types.{OptimizationPolicy, ResourceBound, Explanation}
use optipod.Metrics.{ResourceMetrics, ContainerMetrics}

-- The explanation `none` is the empty text.
pub record Recommendation (P : Platform) : Type 0 where
  pub cpu : P.Quantity
  pub memory : P.Quantity
  pub explanation : Option (Explanation P)

pub data RecommendationError : Type 0 where
  nil_metrics nil_policy : RecommendationError

abbrev pub is_decimal_si : Format → Bool
is_decimal_si decimal_si = true
is_decimal_si _ = false

abbrev is_lt : Ordering → Bool
is_lt Ordering.lt = true
is_lt _ = false

abbrev is_gt : Ordering → Bool
is_gt Ordering.gt = true
is_gt _ = false

module _ {P : Platform} where
  open P use {
    Quantity, Float, format, cmp, milli_value, value, new_milli_quantity, new_quantity, to_string,
    decimal, of_int64, to_int64, mul,
  }

  -- `P90` and the empty string fall under the default.
  unfoldable pub select_percentile : ResourceMetrics P → String → Quantity
  select_percentile m percentile =
      if str_eq percentile "P50" then m.p50 else if str_eq percentile "P99" then m.p99 else m.p90

  -- `DeepCopy` of a quantity is the quantity.
  unfoldable pub clamp_to_bounds : Quantity → ResourceBound P → Quantity
  clamp_to_bounds v b =
      if is_lt (cmp v b.min) then b.min else if is_gt (cmp v b.max) then b.max else v

module _ (P : Platform) where
  open P use {
    Quantity, Float, format, milli_value, value, new_milli_quantity, new_quantity, of_int64,
    to_int64, mul,
  }

  -- Millicores for CPU, bytes for the other formats; the product is cut to an integer.
  unfoldable pub multiply_quantity : Quantity → Float → Quantity
  multiply_quantity q factor =
      if is_decimal_si (format q)
      then new_milli_quantity (to_int64 (mul (of_int64 (milli_value q)) factor)) (format q)
      else new_quantity (to_int64 (mul (of_int64 (value q)) factor)) (format q)

module _ {P : Platform} where
  open P use {Float, to_string, decimal}

  abbrev pub safety_factor_of : OptimizationPolicy P → Float
  safety_factor_of p = value_or (decimal 12 1) p.spec.metrics_config.safety_factor

  recommend : ContainerMetrics P → OptimizationPolicy P → Recommendation P
  recommend m p =
      let cpu_percentile = select_percentile m.cpu p.spec.metrics_config.percentile in
      let memory_percentile = select_percentile m.memory p.spec.metrics_config.percentile in
      let factor = safety_factor_of p in
      let bounds = p.spec.resource_bounds in
      record {
        cpu = clamp_to_bounds (multiply_quantity P cpu_percentile factor) bounds.cpu;
        memory = clamp_to_bounds (multiply_quantity P memory_percentile factor) bounds.memory;
        explanation = some (record {
          percentile =
              if str_eq p.spec.metrics_config.percentile ""
              then "P90"
              else p.spec.metrics_config.percentile;
          cpu_usage = to_string cpu_percentile;
          memory_usage = to_string memory_percentile;
          safety_factor = factor;
          cpu_min = to_string bounds.cpu.min;
          cpu_max = to_string bounds.cpu.max;
          memory_min = to_string bounds.memory.min;
          memory_max = to_string bounds.memory.max;
        });
      }

  -- Both arguments are pointers that may be nil.
  unfoldable pub compute_recommendation :
      Option (ContainerMetrics P)
      → Option (OptimizationPolicy P)
      → Result RecommendationError (Recommendation P)
  unfolding recommend
  compute_recommendation none p = err nil_metrics
  compute_recommendation (some m) none = err nil_policy
  compute_recommendation (some m) (some p) = ok (recommend m p)
