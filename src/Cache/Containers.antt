-- ===== src/Cache/Containers.antt =====
-- internal/cache/metrics_cache.go: the methods of the cache by container, whose metrics have a key of
-- the names of the namespace, the pod and the container.
pub mod Isolated
use optipod.Prelude.{String, Option}
use optipod.Platform.{Platform}
use optipod.Api.Types.{Time, Duration}
use optipod.Metrics.{ContainerMetrics}
use optipod.Cache.{Cache, new_cache, get, set, invalidate, invalidate_all, get_metrics_key}

abbrev pub MetricsCache : Platform → Type 0
MetricsCache P = Cache (ContainerMetrics P)

module _ {P : Platform} where
  unfoldable pub new_metrics_cache : Duration → MetricsCache P
  unfolding new_cache
  new_metrics_cache ttl = new_cache ttl

  unfoldable pub get_metrics :
      Time → String → String → String → MetricsCache P → Option (ContainerMetrics P)
  get_metrics now namespace pod container c = get now (get_metrics_key namespace pod container) c

  unfoldable pub set_metrics :
      Time → String → String → String → ContainerMetrics P → MetricsCache P → MetricsCache P
  set_metrics now namespace pod container m c =
      set now (get_metrics_key namespace pod container) m c

  unfoldable pub invalidate_metrics : String → String → String → MetricsCache P → MetricsCache P
  invalidate_metrics namespace pod container c =
      invalidate (get_metrics_key namespace pod container) c

  unfoldable pub invalidate_all_metrics : MetricsCache P → MetricsCache P
  invalidate_all_metrics c = invalidate_all c
