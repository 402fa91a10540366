-- ===== src/Metrics/Prometheus/Sampled.antt =====
-- How many samples the metrics from Prometheus rest on.
use optipod.Prelude.{
  ◌≡◌, refl, ap, suc, ◌≤◌, String, true, false, List, [], ◌∷◌, length, map, Result, ok, err,
  bind_ok, map_err, map_err_ok, arith,
}
use optipod.Platform.{Platform}
use optipod.Api.Types.{Duration}
use optipod.Metrics.{ContainerMetrics, IsSampled}
use optipod.Metrics.Server.{MetricsError, compute_percentiles}
use optipod.Metrics.Server.Samples.{samples-compute_percentiles}
use optipod.Metrics.Prometheus.{
  PromValue, matrix, other_value, PrometheusApi, QueryError, percentiles_failed, millicores,
  samples_of, percentiles, after_memory, after_cpu, get_container_metrics,
}

length-map : {A B : Type 0} (f : A → B) (l : List A) → length (map f l) ≡ length l
length-map f [] = refl
length-map f (x ∷ xs) = ap suc (length-map f xs)

module _ {P : Platform} {E : Type 0} where
  samples_of_some :
      (r : Result E (PromValue P)) {l : List P.Float} → samples_of r ≡ ok l → 1 ≤ length l
  samples_of_some (err e) h = cc
  samples_of_some (ok other_value) h = cc
  samples_of_some (ok (matrix [])) h = cc
  samples_of_some (ok (matrix ([] ∷ _))) h = cc
  samples_of_some (ok (matrix ((x ∷ xs) ∷ _))) h = ground arith

  percentiles_lem :
      (cpu memory : List P.Float) {m : ContainerMetrics P}
      → percentiles {E = E} cpu memory ≡ ok m
      → (m.cpu.samples ≡ length cpu) × (m.memory.samples ≡ length memory)
  percentiles_lem cpu memory h =
      let (a, e, rest) =
        bind_ok
          (map_err {E = MetricsError} percentiles_failed
            (compute_percentiles P (map (millicores P) cpu) true))
          _ h in
      let (b, f, last) =
        bind_ok
          (map_err {E = MetricsError} percentiles_failed
            (compute_percentiles P (map P.to_int64 memory) false))
          _ rest in
      let of_cpu = samples-compute_percentiles P _ _ (map_err_ok percentiles_failed _ e) in
      let of_memory = samples-compute_percentiles P _ _ (map_err_ok percentiles_failed _ f) in
      ground (arith, last, length-map (millicores P) cpu, length-map P.to_int64 memory)

module _ {P : Platform} {E W : Type 0} (api : PrometheusApi P E W) where
  memory-IsSampled :
      (cpu : List P.Float) (r : Result (QueryError E) (List P.Float)) {m : ContainerMetrics P}
      → 1 ≤ length cpu
      → ((l : List P.Float) → r ≡ ok l → 1 ≤ length l)
      → after_memory cpu r ≡ ok m
      → IsSampled m
  unfolding after_memory
  memory-IsSampled cpu (err e) some_ more h = cc
  memory-IsSampled cpu (ok memory) some_ more h =
      let (of_cpu, of_memory) = percentiles_lem cpu memory h in
      let least = more memory refl in (omega arith, omega arith)

  cpu-IsSampled :
      (namespace pod_name container_name : String) (window : Duration)
      (r : Result (QueryError E) (List P.Float)) (v : W) {m : ContainerMetrics P}
      → ((l : List P.Float) → r ≡ ok l → 1 ≤ length l)
      → (after_cpu api namespace pod_name container_name window r v).0 ≡ ok m
      → IsSampled m
  unfolding after_cpu
  cpu-IsSampled namespace pod_name container_name window (err e) v more h = cc
  cpu-IsSampled namespace pod_name container_name window (ok cpu) v more h =
      memory-IsSampled cpu _ (more cpu refl) (λ l. samples_of_some _) h

  pub get_container_metrics-IsSampled :
      (namespace pod_name container_name : String) (window : Duration) (v : W)
      (m : ContainerMetrics P)
      → (get_container_metrics api namespace pod_name container_name window v).0 ≡ ok m
      → IsSampled m
  unfolding get_container_metrics
  get_container_metrics-IsSampled namespace pod_name container_name window v m h =
      cpu-IsSampled namespace pod_name container_name window _ _ (λ l. samples_of_some _) h
