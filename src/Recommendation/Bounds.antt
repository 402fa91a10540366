-- ===== src/Recommendation/Bounds.antt =====
-- Clamping, and the bounds of a recommendation.
use Prim.Native.Nat.{Ordering}
use optipod.Prelude.{◌≡◌, ◌≢◌, ◌≤ℤ◌, refl, ok, some, arith}
use optipod.Platform.{Platform}
use optipod.Platform.Laws.{QuantityLaws}
use optipod.Api.Types.{OptimizationPolicy, ResourceBound}
use optipod.Api.Validation.{validate_create}
use optipod.Api.Validation.Laws.{IsValidPolicy, validate_create_iff}
use optipod.Metrics.{ContainerMetrics}
use optipod.Recommendation.{Recommendation, clamp_to_bounds, recommend, compute_recommendation}

module _ {P : Platform} (laws : QuantityLaws P) where
  open P use {Quantity, cmp}
  open laws use {nanos, cmp-nanos}

  -- The amount lies between the two ends.
  abbrev pub IsWithin : ResourceBound P → Quantity → Type 0
  IsWithin b q = (nanos b.min ≤ℤ nanos q) × (nanos q ≤ℤ nanos b.max)

  -- With its minimum not above its maximum a bound holds of what it clamps, and what lies in the
  -- bound already is returned as it is.
  pub clamp_to_bounds-IsWithin :
      (v : Quantity) (b : ResourceBound P)
      → cmp b.min b.max ≢ Ordering.gt
      → IsWithin b (clamp_to_bounds v b) × (IsWithin b v → clamp_to_bounds v b ≡ v)
  unfolding clamp_to_bounds
  clamp_to_bounds-IsWithin v b h =
      ground (arith, cmp-nanos b.min b.max, cmp-nanos v b.min, cmp-nanos v b.max)

  -- For a policy that passes validation, and whatever the metrics, a recommendation is computed,
  -- and its CPU and its memory lie within the bounds of the policy.
  pub compute_recommendation-IsWithin :
      (m : ContainerMetrics P) (p : OptimizationPolicy P)
      → validate_create p ≡ ok tt
      → (r : Recommendation P) × (compute_recommendation (some m) (some p) ≡ ok r)
        × IsWithin p.spec.resource_bounds.cpu r.cpu
        × IsWithin p.spec.resource_bounds.memory r.memory
  unfolding compute_recommendation
  compute_recommendation-IsWithin m p h =
      let v : IsValidPolicy p = (validate_create_iff p).0 h in
      let bounds = p.spec.resource_bounds in
      (
        recommend m p,
        refl,
        (clamp_to_bounds-IsWithin _ bounds.cpu v.cpu_bound.ordered).0,
        (clamp_to_bounds-IsWithin _ bounds.memory v.memory_bound.ordered).0,
      )
