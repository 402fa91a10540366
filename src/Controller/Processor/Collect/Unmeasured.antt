-- ===== src/Controller/Processor/Collect/Unmeasured.antt =====
-- A container without metrics leaves a fault behind.
use mathlib.Core.Path.{subst}
use optipod.Prelude.{◌≡◌, refl, String, true, is_some, List, [], ◌∷◌, Result, ok, err}
use optipod.Platform.{Platform}
use optipod.Cluster.{Workload}
use optipod.Api.Types.{OptimizationPolicy}
use optipod.Metrics.{ContainerMetrics}
use optipod.Recommendation.{Recommendation, RecommendationError}
use optipod.Controller.Processor.{PodError, ProcessError, WorkloadProcessor}
use optipod.Controller.Processor.Pods.{get_first_pod_name}
use optipod.Controller.Processor.Collect.{
  Gathered, rolling_window, after_computing, after_metrics, after_pod, after_round, observe_since,
  gather_all,
}

-- The gathering ends early, or with a fault.
abbrev pub IsFaulty : {P : Platform} {E : Type 0} → Result ProcessError (Gathered P E) → Type 0
IsFaulty (err e) = Unit
IsFaulty (ok g) = is_some g.fault ≡ true

module _ {P : Platform} {E W : Type 0} (wp : WorkloadProcessor P E W) (w : Workload)
    (p : OptimizationPolicy P) where
  abbrev pod_at : W → Result PodError String × W
  pod_at v = get_first_pod_name P wp.client w v

  abbrev metrics_at : String → String → W → Result E (ContainerMetrics P) × W
  metrics_at name c v = wp.get_container_metrics w.namespace name c (rolling_window p) v

  -- From a state on, one of the containers has no pod, or the metrics provider answers for it with
  -- an error.
  pub data IsUnmeasured : List String → W → Type 0 where
    without_pod :
        {c : String} {cs : List String} {v : W} (e : PodError)
        → (pod_at v).0 ≡ err e
        → IsUnmeasured (c ∷ cs) v
    without_metrics :
        {c : String} {cs : List String} {v : W} (name : String) (e : E)
        → (pod_at v).0 ≡ ok name
        → (metrics_at name c (pod_at v).1).0 ≡ err e
        → IsUnmeasured (c ∷ cs) v
    later :
        {c : String} {cs : List String} {v : W} (name : String) (m : ContainerMetrics P)
        → (pod_at v).0 ≡ ok name
        → (metrics_at name c (pod_at v).1).0 ≡ ok m
        → IsUnmeasured cs (observe_since wp (pod_at v).1 (metrics_at name c (pod_at v).1).1)
        → IsUnmeasured (c ∷ cs) v

  computing_keeps :
      (c : String) (g : Gathered P E) (r : Result RecommendationError (Recommendation P))
      → is_some g.fault ≡ true
      → IsFaulty (after_computing c g r)
  unfolding after_computing
  computing_keeps c g (err e) h = tt
  computing_keeps c g (ok r) h = h

  metrics_keeps :
      (c : String) (g : Gathered P E) (r : Result E (ContainerMetrics P))
      → is_some g.fault ≡ true
      → IsFaulty (after_metrics p c g r)
  unfolding after_metrics
  metrics_keeps c g (err e) h = refl
  metrics_keeps c g (ok m) h = computing_keeps c g _ h

  pod_keeps :
      (c : String) (g : Gathered P E) (r : Result PodError String) (v : W)
      → is_some g.fault ≡ true
      → IsFaulty (after_pod wp w p c g r v).0
  unfolding after_pod
  pod_keeps c g (err e) v h = refl
  pod_keeps c g (ok name) v h = metrics_keeps c g _ h

  round_keeps :
      (r : Result ProcessError (Gathered P E)) (v : W)
      (more : Gathered P E → W → Result ProcessError (Gathered P E) × W)
      → IsFaulty r
      → ((g : Gathered P E) (u : W) → is_some g.fault ≡ true → IsFaulty (more g u).0)
      → IsFaulty (after_round wp r v more).0
  unfolding after_round
  round_keeps (err e) v more h more_keeps = tt
  round_keeps (ok g) v more h more_keeps = more_keeps g v h

  gather_all_keeps :
      (cs : List String) (g : Gathered P E) (v : W)
      → is_some g.fault ≡ true
      → IsFaulty (gather_all wp w p cs g v).0
  unfolding gather_all
  gather_all_keeps [] g v h = h
  gather_all_keeps (c ∷ cs) g v h = round_keeps _ _ _ (pod_keeps c g _ _ h) (gather_all_keeps cs)

  -- The round of a container that has no pod, or no metrics.
  pod-IsFaulty :
      (c : String) (g : Gathered P E) (r : Result PodError String) (v : W) (e : PodError)
      → r ≡ err e
      → IsFaulty (after_pod wp w p c g r v).0
  unfolding after_pod
  pod-IsFaulty c g (err x) v e h = refl
  pod-IsFaulty c g (ok name) v e h = cc

  no_metrics-IsFaulty :
      (c : String) (g : Gathered P E) (r : Result E (ContainerMetrics P)) (e : E)
      → r ≡ err e
      → IsFaulty (after_metrics p c g r)
  unfolding after_metrics
  no_metrics-IsFaulty c g (err x) e h = refl
  no_metrics-IsFaulty c g (ok m) e h = cc

  metrics-IsFaulty :
      (c : String) (g : Gathered P E) (r : Result PodError String) (v : W) (name : String) (e : E)
      → r ≡ ok name
      → (metrics_at name c v).0 ≡ err e
      → IsFaulty (after_pod wp w p c g r v).0
  unfolding after_pod
  metrics-IsFaulty c g (err x) v name e h k = cc
  metrics-IsFaulty c g (ok other) v name e h k =
      let q : name ≡ other = cc in
      no_metrics-IsFaulty c g _ e (subst (λ n. (metrics_at n c v).0 ≡ err e) q k)

  -- The round of a container that has metrics, from the answer of the provider.
  computed-IsFaulty :
      (c : String) (g : Gathered P E) (r : Result RecommendationError (Recommendation P)) (v : W)
      (more : Gathered P E → W → Result ProcessError (Gathered P E) × W)
      → ((h : Gathered P E) → IsFaulty (more h v).0)
      → IsFaulty (after_round wp (after_computing c g r) v more).0
  unfolding after_round after_computing
  computed-IsFaulty c g (err e) v more h = tt
  computed-IsFaulty c g (ok r) v more h = h _

  answered-IsFaulty :
      (c : String) (g : Gathered P E) (r : Result E (ContainerMetrics P)) (m : ContainerMetrics P)
      (v : W) (more : Gathered P E → W → Result ProcessError (Gathered P E) × W)
      → r ≡ ok m
      → ((h : Gathered P E) → IsFaulty (more h v).0)
      → IsFaulty (after_round wp (after_metrics p c g r) v more).0
  unfolding after_metrics
  answered-IsFaulty c g (err e) m v more q h = cc
  answered-IsFaulty c g (ok x) m v more q h = computed-IsFaulty c g _ v more h

  measured-IsFaulty :
      (c : String) (g : Gathered P E) (r : Result PodError String) (v : W) (name : String)
      (m : ContainerMetrics P) (more : Gathered P E → W → Result ProcessError (Gathered P E) × W)
      → r ≡ ok name
      → (metrics_at name c v).0 ≡ ok m
      → ((h : Gathered P E) → IsFaulty (more h (observe_since wp v (metrics_at name c v).1)).0)
      → IsFaulty (after_round wp (after_pod wp w p c g r v).0 (after_pod wp w p c g r v).1 more).0
  unfolding after_pod
  measured-IsFaulty c g (err x) v name m more h k l = cc
  measured-IsFaulty c g (ok other) v name m more h k l =
      let q : name ≡ other = cc in
      answered-IsFaulty c g _ m _ more (subst (λ n. (metrics_at n c v).0 ≡ ok m) q k) (
        subst
          (λ n. (h : Gathered P E) → IsFaulty (more h (observe_since wp v (metrics_at n c v).1)).0)
          q l)

  pub gather_all-IsFaulty :
      (cs : List String) (g : Gathered P E) (v : W)
      → IsUnmeasured cs v
      → IsFaulty (gather_all wp w p cs g v).0
  unfolding gather_all
  gather_all-IsFaulty [] g v l = elim l [ ]
  gather_all-IsFaulty (c ∷ cs) g v (without_pod e h) =
      round_keeps _ _ _ (pod-IsFaulty c g _ _ e h) (gather_all_keeps cs)
  gather_all-IsFaulty (c ∷ cs) g v (without_metrics name e h k) =
      round_keeps _ _ _ (metrics-IsFaulty c g _ _ name e h k) (gather_all_keeps cs)
  gather_all-IsFaulty (c ∷ cs) g v (later name m h k l) =
      measured-IsFaulty c g _ _ name m (gather_all wp w p cs) h k
        (λ g'. gather_all-IsFaulty cs g' _ l)
