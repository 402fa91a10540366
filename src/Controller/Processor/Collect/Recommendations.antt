-- ===== src/Controller/Processor/Collect/Recommendations.antt =====
-- What the gathered recommendations have in common.
use optipod.Prelude.{◌≡◌, refl, String, some, List, [], ◌∷◌, All, All-append, Result, ok, err}
use optipod.Platform.{Platform}
use optipod.Cluster.{Workload}
use optipod.Api.Types.{OptimizationPolicy, ContainerRecommendation}
use optipod.Metrics.{ContainerMetrics}
use optipod.Recommendation.{Recommendation, RecommendationError, compute_recommendation}
use optipod.Application.Decision.{EngineConfig}
use optipod.Application.Apply.{Effects}
use optipod.Controller.Processor.{PodError, ProcessError, WorkloadProcessor}
use optipod.Controller.Processor.Pods.{get_first_pod_name}
use optipod.Controller.Processor.Collect.{
  Gathered, container_recommendation, after_computing, after_metrics, after_pod, after_round,
  gather_all,
}

module _ {P : Platform} (p : OptimizationPolicy P) (B : ContainerRecommendation P → Type 0) where
  -- Every recommendation that the engine computes for the policy has the property.
  abbrev pub Computes : Type 0
  Computes =
      (container : String) (m : ContainerMetrics P) (r : Recommendation P)
      → compute_recommendation (some m) (some p) ≡ ok r
      → B (container_recommendation container r)

  -- Where something was gathered, its recommendations all have the property.
  abbrev pub AllGathered : {E : Type 0} → Result ProcessError (Gathered P E) → Type 0
  AllGathered (err e) = Unit
  AllGathered (ok g) = All B g.recommendations

module _ {P : Platform} {E W : Type 0} (wp : WorkloadProcessor P E W) (w : Workload)
    (p : OptimizationPolicy P) (B : ContainerRecommendation P → Type 0)
    (computes : Computes p B) where
  computing :
      (container : String) (m : ContainerMetrics P) (g : Gathered P E)
      (r : Result RecommendationError (Recommendation P))
      → compute_recommendation (some m) (some p) ≡ r
      → All B g.recommendations
      → AllGathered p B (after_computing container g r)
  unfolding after_computing
  computing container m g (err e) q h = tt
  computing container m g (ok r) q h =
      All-append B g.recommendations (container_recommendation container r ∷ []) h
        (computes container m r q, tt)

  metrics :
      (container : String) (g : Gathered P E) (r : Result E (ContainerMetrics P))
      → All B g.recommendations
      → AllGathered p B (after_metrics p container g r)
  unfolding after_metrics
  metrics container g (err e) h = h
  metrics container g (ok m) h = computing container m g _ refl h

  pod :
      (container : String) (g : Gathered P E) (r : Result PodError String) (v : W)
      → All B g.recommendations
      → AllGathered p B (after_pod wp w p container g r v).0
  unfolding after_pod
  pod container g (err e) v h = h
  pod container g (ok name) v h = metrics container g _ h

  round :
      (r : Result ProcessError (Gathered P E)) (v : W)
      (more : Gathered P E → W → Result ProcessError (Gathered P E) × W)
      → AllGathered p B r
      → ((g : Gathered P E) (u : W) → All B g.recommendations → AllGathered p B (more g u).0)
      → AllGathered p B (after_round wp r v more).0
  unfolding after_round
  round (err e) v more h later = tt
  round (ok g) v more h later = later g v h

  pub gather_all-AllGathered :
      (cs : List String) (g : Gathered P E) (v : W)
      → All B g.recommendations
      → AllGathered p B (gather_all wp w p cs g v).0
  unfolding gather_all
  gather_all-AllGathered [] g v h = h
  gather_all-AllGathered (c ∷ cs) g v h = round _ _ _ (pod c g _ _ h) (gather_all-AllGathered cs)

-- The gathering does not ask the application engine.
module _ {P : Platform} {E W : Type 0} (wp : WorkloadProcessor P E W) (e : EngineConfig)
    (fx : Effects W) (w : Workload) (p : OptimizationPolicy P) where
  abbrev other : WorkloadProcessor P E W
  other = record wp { engine = e; effects = fx }

  pod_same :
      (container : String) (g : Gathered P E) (r : Result PodError String) (v : W)
      → after_pod other w p container g r v ≡ after_pod wp w p container g r v
  unfolding after_pod
  pod_same container g (err x) v = refl
  pod_same container g (ok name) v = refl

  round_same :
      (r : Result ProcessError (Gathered P E)) (v : W)
      (more again : Gathered P E → W → Result ProcessError (Gathered P E) × W)
      → ((g : Gathered P E) (u : W) → more g u ≡ again g u)
      → after_round other r v more ≡ after_round wp r v again
  unfolding after_round
  round_same (err x) v more again h = refl
  round_same (ok g) v more again h = h g v

  pub gather_all-with_engine :
      (cs : List String) (g : Gathered P E) (v : W)
      → gather_all other w p cs g v ≡ gather_all wp w p cs g v
  unfolding gather_all
  gather_all-with_engine [] g v = refl
  gather_all-with_engine (c ∷ cs) g v =
      let asked = get_first_pod_name P wp.client w v in
      rw (pod_same c g (asked.0) (asked.1)) (round_same _ _ _ _ (gather_all-with_engine cs))
