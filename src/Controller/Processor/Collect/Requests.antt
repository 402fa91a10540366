-- ===== src/Controller/Processor/Collect/Requests.antt =====
-- The loop over the containers applies nothing, and gathers at most one recommendation for each.
use optipod.Prelude.{
  ◌≡◌, ◌∙◌, refl, ℕ, suc, ◌+◌, ◌≤◌, String, List, [], ◌∷◌, length, length-append, Result, ok, err,
  arith,
}
use optipod.Platform.{Platform}
use optipod.Cluster.{Workload}
use optipod.Api.Types.{OptimizationPolicy}
use optipod.Metrics.{ContainerMetrics}
use optipod.Recommendation.{Recommendation, RecommendationError}
use optipod.Controller.Processor.{PodError, ProcessError, WorkloadProcessor}
use optipod.Controller.Processor.Requests.{CountsPatches}
use optipod.Controller.Processor.Pods.{get_first_pod_name}
use optipod.Controller.Processor.Pods.Requests.{get_first_pod_name-keeps}
use optipod.Controller.Processor.Collect.{
  Gathered, rolling_window, after_computing, after_metrics, observe_since, after_pod, after_round,
  gather_all,
}

-- What is gathered holds at most so many recommendations.
abbrev pub HasAtMost : {P : Platform} {E : Type 0} → ℕ → Result ProcessError (Gathered P E) → Type 0
HasAtMost n (err e) = Unit
HasAtMost n (ok g) = length g.recommendations ≤ n

module _ {P : Platform} {E W : Type 0} (wp : WorkloadProcessor P E W) (sent : W → ℕ)
    (counts : CountsPatches wp sent) (w : Workload) (p : OptimizationPolicy P) where
  -- No request is sent, and what is gathered is bounded.
  abbrev pub IsBounded : ℕ → W → Result ProcessError (Gathered P E) × W → Type 0
  IsBounded n v r = (sent (r.1) ≡ sent v) × HasAtMost n (r.0)

  computing-HasAtMost :
      (container : String) (g : Gathered P E) (n : ℕ)
      (r : Result RecommendationError (Recommendation P))
      → length g.recommendations ≤ n
      → HasAtMost (suc n) (after_computing container g r)
  unfolding after_computing
  computing-HasAtMost container g n (err e) h = tt
  computing-HasAtMost container g n (ok r) h = omega (arith, length-append g.recommendations)

  metrics-HasAtMost :
      (container : String) (g : Gathered P E) (n : ℕ) (r : Result E (ContainerMetrics P))
      → length g.recommendations ≤ n
      → HasAtMost (suc n) (after_metrics p container g r)
  unfolding after_metrics
  metrics-HasAtMost container g n (err e) h = omega arith
  metrics-HasAtMost container g n (ok m) h = computing-HasAtMost container g n _ h

  pod-IsBounded :
      (container : String) (g : Gathered P E) (n : ℕ) (r : Result PodError String) (v : W)
      → length g.recommendations ≤ n
      → IsBounded (suc n) v (after_pod wp w p container g r v)
  unfolding after_pod observe_since
  pod-IsBounded container g n (err e) v h = (refl, omega arith)
  pod-IsBounded container g n (ok name) v h = (
    counts.observe_keeps _ _ _ _
        ∙ counts.metrics_keeps w.namespace name container (rolling_window p) v,
    metrics-HasAtMost container g n _ h,
  )

  round-IsBounded :
      (r : Result ProcessError (Gathered P E)) (n k : ℕ) (v u : W)
      (more : Gathered P E → W → Result ProcessError (Gathered P E) × W)
      → IsBounded k v (r, u)
      → ((g : Gathered P E) (x : W) → length g.recommendations ≤ k → IsBounded n x (more g x))
      → IsBounded n v (after_round wp r u more)
  unfolding after_round
  round-IsBounded (err e) n k v u more h later = (h.0, tt)
  round-IsBounded (ok g) n k v u more h later = let (same, few) = later g u h.1 in (same ∙ h.0, few)

  pub gather_all-IsBounded :
      (cs : List String) (g : Gathered P E) (n : ℕ) (v : W)
      → length g.recommendations ≤ n
      → IsBounded (n + length cs) v (gather_all wp w p cs g v)
  unfolding gather_all
  gather_all-IsBounded [] g n v h = (refl, omega arith)
  gather_all-IsBounded (c ∷ cs) g n v h =
      let asked = get_first_pod_name P wp.client w v in
      let (same, few) = pod-IsBounded c g n (asked.0) (asked.1) h in
      let sum : n + suc (length cs) ≡ suc n + length cs = omega arith in
      rw sum (
        round-IsBounded _ _ (suc n) v _ (gather_all wp w p cs)
          (same ∙ get_first_pod_name-keeps wp sent counts w v, few)
          (λ g' x k. gather_all-IsBounded cs g' (suc n) x k))
