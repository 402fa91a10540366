-- ===== src/Tests/ProviderExamples.antt =====
-- The providers that the factory makes.
use optipod.Prelude.{◌≡◌, refl, ℕ, pos, String, false, Option, none, [], ◌∷◌, ok}
use optipod.Platform.Demo.{demo}
use optipod.Cluster.{ApiError}
use optipod.Metrics.Prometheus.{PrometheusApi, matrix, format_seconds}
use optipod.Metrics.Prometheus.Windows.{IsRoundedDown, format_seconds-IsRoundedDown}
use optipod.Metrics.Factory.{
  ProviderConfig, from_prometheus, new_provider, new_provider_with_fallback,
}
use optipod.Metrics.Factory.Contract.{
  Backends, as_metrics_provider, IsSampling, new_provider_with_fallback-IsSampling,
}
use optipod.Tests.MetricsExamples.{growing}

-- A day and a half.
format_seconds-IsRoundedDown_example : IsRoundedDown 129600 (format_seconds (pos 129600))
format_seconds-IsRoundedDown_example = format_seconds-IsRoundedDown 129600

abbrev api : PrometheusApi demo ApiError ℕ
api = record {
  query_range = λ query start end step w. (ok (matrix ((pos 100 ∷ pos 300 ∷ []) ∷ [])), w);
  buildinfo = λ w. (none, w);
  now = λ w. pos w;
}

abbrev pub backends : Backends demo ApiError ℕ
backends = record {
  metrics_server = λ namespace pod. growing;
  list_node_metrics = λ w. (none, w);
  prometheus = λ url. api;
}

abbrev config_of : String → ProviderConfig
config_of type = record {
  type = type;
  prometheus_url = "http://prometheus:9090";
  has_clientset = false;
  has_metrics_clientset = false;
  max_samples = pos 0;
  sample_interval = pos 0;
}

abbrev pub reachable : String → Option ApiError
reachable url = none

-- The primary has no clients.
fallen_back :
    new_provider_with_fallback reachable (config_of "metrics-server") (config_of "prometheus")
    ≡ ok (from_prometheus "http://prometheus:9090")
unfolding new_provider_with_fallback new_provider
fallen_back = refl

new_provider_with_fallback-IsSampling_example :
    IsSampling (as_metrics_provider backends (from_prometheus "http://prometheus:9090"))
new_provider_with_fallback-IsSampling_example =
    new_provider_with_fallback-IsSampling backends reachable (config_of "metrics-server")
      (config_of "prometheus") (from_prometheus "http://prometheus:9090") fallen_back
