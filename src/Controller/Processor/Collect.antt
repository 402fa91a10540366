-- ===== src/Controller/Processor/Collect.antt =====
-- The loop of `ProcessWorkload` over the containers: metrics, and a recommendation from them.
pub mod Recommendations
pub mod Unmeasured
pub mod Requests
use optipod.Prelude.{
  ℕ, ◌*◌, ◌^◌, ℤ, pos, ◌-ℤ◌, ltb_ℤ, String, Bool, Option, none, some, List, [], ◌∷◌, ◌++◌, Result,
  ok, err, if◌then◌else◌,
}
use optipod.Platform.{Platform}
use optipod.Cluster.{Workload}
use optipod.Api.Types.{OptimizationPolicy, ContainerRecommendation, Duration}
use optipod.Metrics.{ContainerMetrics}
use optipod.Observability.Collectors.{metrics_collection_duration}
use optipod.Recommendation.{Recommendation, RecommendationError, compute_recommendation}
use optipod.Controller.Processor.{
  PodError, MetricsFault, pod_name_failed, metrics_failed, ProcessError, recommendation_failed,
  WorkloadProcessor,
}
use optipod.Controller.Processor.Pods.{get_first_pod_name}

-- 24 hours, in nanoseconds.
abbrev pub day : Duration
day = pos (24 * 3600 * 10 ^ 9)

-- What the loop has gathered: the recommendations, and the last fault.
pub record Gathered (P : Platform) (E : Type 0) : Type 0 where
  pub recommendations : List (ContainerRecommendation P)
  pub fault : Option (MetricsFault E)

abbrev pub nothing_gathered : {P : Platform} {E : Type 0} → Gathered P E
nothing_gathered = record { recommendations = []; fault = none }

module _ {P : Platform} where
  abbrev pub rolling_window : OptimizationPolicy P → Duration
  rolling_window p =
      if ltb_ℤ (pos 0) p.spec.metrics_config.rolling_window
      then p.spec.metrics_config.rolling_window
      else day

  abbrev pub container_recommendation : String → Recommendation P → ContainerRecommendation P
  container_recommendation container r = record {
    container = container;
    cpu = some r.cpu;
    memory = some r.memory;
    explanation = r.explanation;
  }

  abbrev pub with_fault : {E : Type 0} → MetricsFault E → Gathered P E → Gathered P E
  with_fault f g = record g { fault = some f }

  abbrev pub with_recommendation :
      {E : Type 0} → String → Recommendation P → Gathered P E → Gathered P E
  with_recommendation container r g = record g {
    recommendations = g.recommendations ++ (container_recommendation container r ∷ []);
  }

  -- A recommendation from the metrics, or their error.
  after_computing :
      {E : Type 0}
      → String
      → Gathered P E
      → Result RecommendationError (Recommendation P)
      → Result ProcessError (Gathered P E)
  after_computing container g (err e) = err (recommendation_failed container e)
  after_computing container g (ok r) = ok (with_recommendation container r g)

  after_metrics :
      {E : Type 0}
      → OptimizationPolicy P
      → String
      → Gathered P E
      → Result E (ContainerMetrics P)
      → Result ProcessError (Gathered P E)
  unfolding after_computing
  after_metrics p container g (err e) = ok (with_fault (metrics_failed container e) g)
  after_metrics p container g (ok m) =
      after_computing container g (compute_recommendation (some m) (some p))

module _ {P : Platform} {E W : Type 0} (wp : WorkloadProcessor P E W) where
  -- `metricsTimer.Observe` of the time from the first state to the second.
  unfoldable pub observe_since : W → W → W
  observe_since start v =
      wp.meters.observe_seconds metrics_collection_duration (wp.metrics_provider_type ∷ [])
        (wp.clock.now v -ℤ wp.clock.now start) v

  after_pod :
      Workload
      → OptimizationPolicy P
      → String
      → Gathered P E
      → Result PodError String
      → W
      → Result ProcessError (Gathered P E) × W
  unfolding after_metrics observe_since
  after_pod w p container g (err e) v = (ok (with_fault (pod_name_failed container e) g), v)
  after_pod w p container g (ok name) v =
      let answer = wp.get_container_metrics w.namespace name container (rolling_window p) v in
      (after_metrics p container g (answer.0), observe_since v (answer.1))

  -- An error of the engine ends the loop.
  after_round :
      Result ProcessError (Gathered P E)
      → W
      → (Gathered P E → W → Result ProcessError (Gathered P E) × W)
      → Result ProcessError (Gathered P E) × W
  after_round (err e) v more = (err e, v)
  after_round (ok g) v more = more g v

  unfoldable pub gather_all :
      Workload
      → OptimizationPolicy P
      → List String
      → Gathered P E
      → W
      → Result ProcessError (Gathered P E) × W
  unfolding after_pod after_round
  gather_all w p [] g v = (ok g, v)
  gather_all w p (c ∷ cs) g v =
      let pod = get_first_pod_name P wp.client w v in
      let round = after_pod w p c g (pod.0) (pod.1) in
      after_round (round.0) (round.1) (gather_all w p cs)
