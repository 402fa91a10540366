-- ===== src/Tests/RecommendationExamples.antt =====
-- Recommendations.
use optipod.Prelude.{◌≡◌, refl, pos, ◌≤ℤ◌, ◌⊎◌, some, ok, ◌*ℤ◌, arith}
use optipod.Platform.Demo.{demo, demo_quantity, demo_float}
use optipod.Api.Validation.{validate_create}
use optipod.Recommendation.{
  Recommendation, compute_recommendation, select_percentile, safety_factor_of, clamp_to_bounds,
  multiply_quantity,
}
use optipod.Recommendation.Bounds.{IsWithin, compute_recommendation-IsWithin}
use optipod.Recommendation.Safety.{IsMeasurable, recommendation_covers_usage}
use optipod.Tests.Data.{heavy, usage, millis, bytes}

pub heavy_valid : validate_create heavy ≡ ok tt
unfolding validate_create ◌*ℤ◌
heavy_valid = refl

compute_recommendation-IsWithin_example :
    (r : Recommendation demo) × (compute_recommendation (some usage) (some heavy) ≡ ok r)
    × IsWithin demo_quantity heavy.spec.resource_bounds.cpu r.cpu
    × IsWithin demo_quantity heavy.spec.resource_bounds.memory r.memory
compute_recommendation-IsWithin_example =
    compute_recommendation-IsWithin demo_quantity usage heavy heavy_valid

-- 500 millicores and 90000 bytes, at the default factor.
cpu-IsMeasurable :
    IsMeasurable demo_quantity demo_float
      (select_percentile usage.cpu "P99")
      (safety_factor_of heavy)
unfolding select_percentile ◌*ℤ◌
cpu-IsMeasurable = record { units = 500; counted_units = refl; exact = omega arith; fits = refl }

memory-IsMeasurable :
    IsMeasurable demo_quantity demo_float
      (select_percentile usage.memory "P99")
      (safety_factor_of heavy)
unfolding select_percentile ◌*ℤ◌
memory-IsMeasurable = record {
  units = 90000;
  counted_units = refl;
  exact = omega arith;
  fits = refl;
}

recommendation_covers_usage_example :
    (r : Recommendation demo) × (compute_recommendation (some usage) (some heavy) ≡ ok r)
    × (((select_percentile usage.cpu "P99").nanos ≤ℤ r.cpu.nanos)
        ⊎ (r.cpu ≡ heavy.spec.resource_bounds.cpu.max))
    × (((select_percentile usage.memory "P99").nanos ≤ℤ r.memory.nanos)
        ⊎ (r.memory ≡ heavy.spec.resource_bounds.memory.max))
recommendation_covers_usage_example =
    recommendation_covers_usage demo_quantity demo_float usage heavy heavy_valid cpu-IsMeasurable
      memory-IsMeasurable

-- 500 m times 1.2 is within the bounds; 90000 bytes times 1.2 is above the maximum.
recommended :
    compute_recommendation (some usage) (some heavy)
    ≡ ok (record {
      cpu = millis (pos 600);
      memory = bytes (pos 100000);
      explanation = some (record {
        percentile = "P99";
        cpu_usage = "1";
        memory_usage = "1";
        safety_factor = pos 1200;
        cpu_min = "1";
        cpu_max = "1";
        memory_min = "1";
        memory_max = "1";
      });
    })
unfolding compute_recommendation select_percentile clamp_to_bounds multiply_quantity ◌*ℤ◌
recommended = refl
