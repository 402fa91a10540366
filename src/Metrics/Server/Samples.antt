-- ===== src/Metrics/Server/Samples.antt =====
-- How many samples the metrics of a container rest on.
use optipod.Prelude.{
  ◌≡◌, ◌∙◌, refl, ℕ, zero, suc, ◌+◌, ◌≤◌, ℤ, pos, ◌≤ℤ◌, ltb_ℤ, String, Bool, true, false, List, [],
  ◌∷◌, ◌++◌, length, Result, ok, err, arith, length-append, bind_ok, ◌⊎◌,
}
use optipod.Platform.{Platform}
use optipod.Metrics.{ResourceMetrics, ContainerMetrics}
use optipod.Metrics.Server.{
  new_metrics_server_provider_with_config, num_samples, MetricsError, ContainerUsage, or_panic,
  percentile, compute_percentiles, MetricsServer, sample_of, pause, with_sample, collect, as_count,
  metrics_of, get_container_metrics,
}

module _ (P : Platform) where
  open P use {sort}

  pub samples-compute_percentiles :
      (l : List ℤ) (b : Bool) {r : ResourceMetrics P}
      → compute_percentiles P l b ≡ ok r
      → r.samples ≡ length l
  unfolding compute_percentiles
  samples-compute_percentiles [] b h = ground arith
  samples-compute_percentiles (x ∷ xs) b h =
      let (p50, e, h₁) = bind_ok (or_panic P (percentile P (sort ℤ ltb_ℤ (x ∷ xs)) 50)) _ h in
      let (p90, e₁, h₂) = bind_ok (or_panic P (percentile P (sort ℤ ltb_ℤ (x ∷ xs)) 90)) _ h₁ in
      let (p99, e₂, h₃) = bind_ok (or_panic P (percentile P (sort ℤ ltb_ℤ (x ∷ xs)) 99)) _ h₂ in
      ground (arith, h₃)

module _ {P : Platform} {W : Type 0} (server : MetricsServer P W) where
  open P use {milli_value, value}

  metrics_ok :
      (c : Result MetricsError (List ℤ × List ℤ)) {r : ContainerMetrics P}
      → metrics_of c ≡ ok r
      → (l : List ℤ × List ℤ) × (c ≡ ok l)
        × (r.cpu.samples ≡ length l.0)
        × (r.memory.samples ≡ length l.1)
  metrics_ok (err e) h = cc
  metrics_ok (ok (cpu, memory)) h =
      let (a, e, h₁) = bind_ok (compute_percentiles P cpu true) _ h in
      let (b, f, h₂) = bind_ok (compute_percentiles P memory false) _ h₁ in
      (
        (cpu, memory),
        refl,
        ground (arith, h₂, samples-compute_percentiles P cpu true e),
        ground (arith, h₂, samples-compute_percentiles P memory false f),
      )

  asked :
      (max_samples sample_interval window : ℤ)
      → let z =
          num_samples
            (new_metrics_server_provider_with_config max_samples sample_interval)
            window in
        (pos (as_count z) ≡ z)
        × (1 ≤ as_count z)
        × ((pos (as_count z) ≤ℤ max_samples) ⊎ (as_count z ≡ 1))
  unfolding num_samples new_metrics_server_provider_with_config
  asked max_samples sample_interval window = ground arith

  sampled :
      (s : Result MetricsError (ContainerUsage P)) (n : ℕ) (name : String) (cpu memory : List ℤ)
      (w : W) (l : List ℤ × List ℤ)
      → (with_sample server s n (collect server name n) cpu memory w).0 ≡ ok l
      → ((c : ContainerUsage P) (v : W)
          → (collect server name n
              (cpu ++ (milli_value c.cpu ∷ []))
              (memory ++ (value c.memory ∷ []))
              v).0
            ≡ ok l
          → (length l.0 ≡ length (cpu ++ (milli_value c.cpu ∷ [])) + n)
            × (length l.1 ≡ length (memory ++ (value c.memory ∷ [])) + n))
      → (length l.0 ≡ length cpu + suc n) × (length l.1 ≡ length memory + suc n)
  unfolding with_sample
  sampled (err e) n name cpu memory w l h later = cc
  sampled (ok c) n name cpu memory w l h later = ground (
    arith,
    later c (pause server n w).1,
    length-append cpu (milli_value c.cpu ∷ []),
    length-append memory (value c.memory ∷ []),
  )

  collect_sampled :
      (name : String) (n : ℕ) (cpu memory : List ℤ) (w : W) (l : List ℤ × List ℤ)
      → (collect server name n cpu memory w).0 ≡ ok l
      → (length l.0 ≡ length cpu + n) × (length l.1 ≡ length memory + n)
  unfolding collect
  collect_sampled name zero cpu memory w l h = ground arith
  collect_sampled name (suc n) cpu memory w l h =
      sampled (sample_of name (server.get w).0) n name cpu memory (server.get w).1 l h (λ c v.
        collect_sampled name n (cpu ++ (milli_value c.cpu ∷ [])) (memory ++ (value c.memory ∷ [])) v
          l)

  -- Metrics that are returned for a provider that was made by its constructor rest on as many
  -- samples as asked for, for CPU and for memory: at least one, and at most the maximum unless that
  -- is below one.
  pub get_container_metrics_lem :
      (max_samples sample_interval : ℤ) (name : String) (window : ℤ) (w : W)
      (r : ContainerMetrics P)
      → (get_container_metrics server
          (new_metrics_server_provider_with_config max_samples sample_interval)
          name
          window
          w).0
        ≡ ok r
      → (pos r.cpu.samples
          ≡ num_samples
              (new_metrics_server_provider_with_config max_samples sample_interval)
              window)
        × (r.memory.samples ≡ r.cpu.samples)
        × (1 ≤ r.cpu.samples)
        × ((pos r.cpu.samples ≤ℤ max_samples) ⊎ (r.cpu.samples ≡ 1))
  unfolding get_container_metrics
  get_container_metrics_lem max_samples sample_interval name window w r h =
      let m = new_metrics_server_provider_with_config max_samples sample_interval in
      let (l, collected, in_cpu, in_memory) =
        metrics_ok (collect server name (as_count (num_samples m window)) [] [] w).0 h in
      let (by_cpu, by_memory) =
        collect_sampled name (as_count (num_samples m window)) [] [] w l collected in
      let (whole, least, most) = asked max_samples sample_interval window in
      conclude _ _ whole least most (in_cpu ∙ by_cpu) (in_memory ∙ by_memory)
    where
      conclude :
          (n : ℕ) (z : ℤ)
          → pos n ≡ z
          → 1 ≤ n
          → ((pos n ≤ℤ max_samples) ⊎ (n ≡ 1))
          → r.cpu.samples ≡ 0 + n
          → r.memory.samples ≡ 0 + n
          → (pos r.cpu.samples ≡ z)
            × (r.memory.samples ≡ r.cpu.samples)
            × (1 ≤ r.cpu.samples)
            × ((pos r.cpu.samples ≤ℤ max_samples) ⊎ (r.cpu.samples ≡ 1))
      conclude n z a b c d e = (ground arith, ground arith, ground arith, ground arith)
