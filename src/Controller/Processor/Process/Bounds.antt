-- ===== src/Controller/Processor/Process/Bounds.antt =====
-- The recommendations of a processed workload lie within the bounds of its policy.
use mathlib.Core.Path.{subst}
use optipod.Prelude.{◌≡◌, String, Option, none, some, ok}
use optipod.Platform.{Platform}
use optipod.Platform.Laws.{QuantityLaws}
use optipod.Cluster.{Workload}
use optipod.Api.Types.{OptimizationPolicy, ContainerRecommendation, ResourceBound}
use optipod.Api.Validation.{validate_create}
use optipod.Metrics.{ContainerMetrics}
use optipod.Recommendation.{Recommendation, compute_recommendation}
use optipod.Recommendation.Bounds.{IsWithin, compute_recommendation-IsWithin}
use optipod.Controller.Processor.{WorkloadProcessor}
use optipod.Controller.Processor.Collect.{container_recommendation}
use optipod.Controller.Processor.Process.{process_workload}
use optipod.Controller.Processor.Process.Outcome.{IsSound, process_workload-IsSound}

module _ {P : Platform} (laws : QuantityLaws P) where
  abbrev IsPresentWithin : ResourceBound P → Option P.Quantity → Type 0
  IsPresentWithin b none = ⊥
  IsPresentWithin b (some q) = IsWithin laws b q

  -- Both quantities are there, and within the bounds.
  abbrev pub IsBounded : OptimizationPolicy P → ContainerRecommendation P → Type 0
  IsBounded p r =
      IsPresentWithin p.spec.resource_bounds.cpu r.cpu
      × IsPresentWithin p.spec.resource_bounds.memory r.memory

  computed :
      (p : OptimizationPolicy P) (container : String) (m : ContainerMetrics P)
      (r : Recommendation P)
      → validate_create p ≡ ok tt
      → compute_recommendation (some m) (some p) ≡ ok r
      → IsBounded p (container_recommendation container r)
  computed p container m r valid q =
      let (s, is, cpu, memory) = compute_recommendation-IsWithin laws m p valid in
      let same : s ≡ r = cc in
      subst (λ x. IsBounded p (container_recommendation container x)) same (cpu, memory)

  -- For a policy that passes validation, the processing returns a sound result whose recommendations
  -- all have both quantities, within the bounds of the policy.
  pub process_workload-IsBounded :
      {E W : Type 0} (wp : WorkloadProcessor P E W) (w : Workload) (p : OptimizationPolicy P)
      (v : W)
      → validate_create p ≡ ok tt
      → IsSound w p (IsBounded p) (process_workload wp w p v).0
  process_workload-IsBounded wp w p v valid =
      process_workload-IsSound wp w p (IsBounded p) (λ c m r q. computed p c m r valid q) v
