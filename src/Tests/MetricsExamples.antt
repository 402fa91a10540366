-- ===== src/Tests/MetricsExamples.antt =====
-- Two samples of one container.
use mathlib.Core.List.{mem-cons, not-mem-nil}
use mathlib.Core.Logic.Or
use mathlib.Core.Bool.{Bool-set}
use optipod.Prelude.{
  negsuc, neg_part, pos_part, leb, ◌&&◌, Bool, ◌≡◌, ◌⊎◌, ◌≤◌, ◌≤ℤ◌, refl, ℕ, ℤ, List, Mem, suc, ◌*◌,
  ◌^◌, arith, pos, true, [], ◌∷◌, ok, ◌+ℤ◌, ◌-ℤ◌, ◌*ℤ◌,
}
use optipod.Platform.Demo.{demo, demo_sort, demo_quantity}
use optipod.Platform.Sorting.{insertion_sort}
use optipod.Metrics.{ContainerMetrics}
use optipod.Metrics.Server.{
  MetricsServer, new_metrics_server_provider_with_config, num_samples, compute_percentiles,
  get_container_metrics,
}
use optipod.Metrics.Server.Samples.{get_container_metrics_lem}
use optipod.Metrics.Server.Cells.{IsSample}
use optipod.Metrics.Server.Percentiles.{IsAscending, compute_percentiles-IsAscending}
use optipod.Platform.Demo.Floats.{demo_order}
use optipod.Tests.Data.{millis, bytes}

-- The usage of CPU grows by 100 millicores with each sample.
abbrev pub growing : MetricsServer demo ℕ
growing = record {
  get = λ w. (
    ok (record { name = "main"; cpu = millis (pos (100 * w)); memory = bytes (pos 7) } ∷ []),
    suc w,
  );
  wait = λ w. (true, w);
}

abbrev measured : ContainerMetrics demo
measured = record {
  cpu = record {
    p50 = millis (pos 150);
    p90 = millis (pos 190);
    p99 = millis (pos 199);
    samples = 2;
  };
  memory = record { p50 = bytes (pos 7); p90 = bytes (pos 7); p99 = bytes (pos 7); samples = 2 };
}

collected :
    (get_container_metrics growing
      (new_metrics_server_provider_with_config (pos 2) (pos 0))
      "main"
      (pos 5000000000)
      1).0
    ≡ ok measured
unfolding get_container_metrics num_samples new_metrics_server_provider_with_config
    compute_percentiles insertion_sort ◌*ℤ◌ ◌+ℤ◌ ◌-ℤ◌
collected = refl

get_container_metrics_lem_example :
    (pos 2 ≡ num_samples (new_metrics_server_provider_with_config (pos 2) (pos 0)) (pos 5000000000))
    × (measured.memory.samples ≡ measured.cpu.samples)
    × (1 ≤ measured.cpu.samples)
    × ((pos measured.cpu.samples ≤ℤ pos 2) ⊎ (measured.cpu.samples ≡ 1))
get_container_metrics_lem_example =
    get_container_metrics_lem growing (pos 2) (pos 0) "main" (pos 5000000000) 1 measured collected

-- Three samples of one container.
abbrev sampled : List ℤ
sampled = pos 30 ∷ pos 10 ∷ pos 20 ∷ []

abbrev is_sample : ℤ → Bool
is_sample z = leb (neg_part z) 0 && leb (pos_part z) (2 ^ 53)

sample : (z : ℤ) → is_sample z ≡ true → IsSample z
sample (pos n) h = (n, refl, ground arith)
sample (negsuc n) h = absurd (ground arith)

sampled_test : (z : ℤ) → Mem z sampled → is_sample z ≡ true
sampled_test z m =
    Or.elim (Bool-set _ _) (mem-cons.0 m) (λ e. rw e refl)
      (λ n.
        Or.elim (Bool-set _ _) (mem-cons.0 n) (λ e. rw e refl)
          (λ o.
            Or.elim (Bool-set _ _) (mem-cons.0 o) (λ e. rw e refl) (λ p. absurd (not-mem-nil p))))

compute_percentiles-IsAscending_example :
    IsAscending demo_sort demo_order demo_quantity sampled true
      (compute_percentiles demo sampled true)
compute_percentiles-IsAscending_example =
    compute_percentiles-IsAscending demo_sort demo_order demo_quantity sampled true
      (λ z m. sample z (sampled_test z m)) (omega arith)
