-- ===== src/Metrics/Factory/Contract.antt =====
-- What every provider of the factory promises.
use mathlib.Core.Path.{subst}
use optipod.Prelude.{
  map_option, ◌≡◌, refl, inl, inr, ◌*◌, ◌^◌, ℤ, pos, ◌*ℤ◌, int64, ltb_ℤ, String, str_eq, ◌||◌,
  Bool-cases, Option, none, some, Result, ok, err, map_err, map_err_ok, arith,
}
use optipod.Platform.{Platform}
use optipod.Cluster.{ApiError}
use optipod.Api.Types.{Duration}
use optipod.Metrics.{ContainerMetrics, IsSampled, MetricsProvider}
use optipod.Metrics.Server.{
  MetricsServer, MetricsServerProvider, new_metrics_server_provider_with_config,
  get_container_metrics,
}
use optipod.Metrics.Server.Samples.{get_container_metrics_lem}
use optipod.Metrics.Server
use optipod.Metrics.Prometheus
use optipod.Metrics.Prometheus.{PrometheusApi}
use optipod.Metrics.Prometheus.Sampled.{get_container_metrics-IsSampled}
use optipod.Metrics.Factory.{
  ProviderConfig, Provider, from_metrics_server, from_prometheus, FactoryError, or_default,
  metrics_server_of, new_prometheus_provider, new_provider, after_primary,
  new_provider_with_fallback, ProviderError, metrics_server_error, prometheus_error,
}

-- The backends: metrics-server as it answers for a pod and for the nodes, and the client of Prometheus for an address.
pub record Backends (P : Platform) (E W : Type 0) : Type 0 where
  pub metrics_server : String → String → MetricsServer P W
  pub list_node_metrics : W → Option ApiError × W
  pub prometheus : String → PrometheusApi P E W

module _ {P : Platform} {E W : Type 0} (b : Backends P E W) where
  -- The methods behind the interface.
  abbrev pub as_metrics_provider : Provider → MetricsProvider P (ProviderError E) W
  as_metrics_provider (from_metrics_server m) = record {
    get_container_metrics = λ namespace pod container window v.
        let r = get_container_metrics (b.metrics_server namespace pod) m container window v in
        (map_err metrics_server_error (r.0), r.1);
    health_check = λ v.
        let r = Server.health_check b.list_node_metrics v in
        (map_option metrics_server_error (r.0), r.1);
  }
  as_metrics_provider (from_prometheus url) = record {
    get_container_metrics = λ namespace pod container window v.
        let r =
          Prometheus.get_container_metrics (b.prometheus url) namespace pod container window v in
        (map_err prometheus_error (r.0), r.1);
    health_check = λ v.
        let r = Prometheus.health_check (b.prometheus url) v in
        (map_option prometheus_error (r.0), r.1);
  }

-- The promise of a provider: metrics that it returns rest on samples.
abbrev pub IsSampling : {P : Platform} {E W : Type 0} → MetricsProvider P E W → Type 0
IsSampling {P} {W = W} provider =
    (namespace pod container : String) (window : Duration) (v : W) (m : ContainerMetrics P)
    → (provider.get_container_metrics namespace pod container window v).0 ≡ ok m
    → IsSampled m

-- Settings that the constructor with settings leaves.
abbrev pub IsMade : MetricsServerProvider → Type 0
IsMade m =
    (max_samples : ℤ) × (sample_interval : ℤ) × (m
      ≡ new_metrics_server_provider_with_config max_samples sample_interval)

pub metrics_server_of-IsMade : (c : ProviderConfig) → IsMade (metrics_server_of c)
unfolding new_metrics_server_provider_with_config
metrics_server_of-IsMade c =
    elim (Bool-cases (ltb_ℤ (pos 0) c.max_samples || ltb_ℤ (pos 0) c.sample_interval)) [
      | inl set ↦ rw set (
        (or_default (pos 10) c.max_samples),
        (int64 (or_default (pos 15) c.sample_interval *ℤ pos (10 ^ 9))),
        refl,
      )
      | inr default ↦ rw default (pos 10, pos (15 * 10 ^ 9), refl)
    ]

-- What is known of a provider that was made: settings as the constructor leaves them.
abbrev IsWellMade : Provider → Type 0
IsWellMade (from_metrics_server m) = IsMade m
IsWellMade (from_prometheus url) = Unit

abbrev IsWellMadeIfOk : {E : Type 0} → Result (FactoryError E) Provider → Type 0
IsWellMadeIfOk (err e) = Unit
IsWellMadeIfOk (ok p) = IsWellMade p

module _ {E : Type 0} (new_client : String → Option E) where
  made_prometheus :
      (o : Option E) (url : String)
      → new_client url ≡ o
      → IsWellMadeIfOk (new_prometheus_provider new_client url)
  unfolding new_prometheus_provider
  made_prometheus none url h = rw (h, new_prometheus_provider) tt
  made_prometheus (some e) url h = rw (h, new_prometheus_provider) tt

  made : (c : ProviderConfig) → IsWellMadeIfOk (new_provider new_client c)
  unfolding new_provider
  made c = elim (Bool-cases (str_eq c.type "metrics-server")) [
    | inl server ↦ elim (Bool-cases c.has_clientset) [
      | inr without ↦ rw (server, without, new_provider) tt
      | inl clients ↦ elim (Bool-cases c.has_metrics_clientset) [
        | inr without ↦ rw (server, clients, without, new_provider) tt
        | inl metrics ↦ rw (server, clients, metrics, new_provider) (metrics_server_of-IsMade c)
      ]
    ]
    | inr other ↦ elim (Bool-cases (str_eq c.type "prometheus")) [
      | inr unknown ↦ rw (other, unknown, new_provider) tt
      | inl prometheus ↦ elim (Bool-cases (str_eq c.prometheus_url "")) [
        | inl empty ↦ rw (other, prometheus, empty, new_provider) tt
        | inr url ↦
            rw (other, prometheus, url, new_provider) (made_prometheus _ c.prometheus_url refl)
      ]
    ]
  ]

  after_primary_made :
      (r s : Result (FactoryError E) Provider)
      → IsWellMadeIfOk r
      → IsWellMadeIfOk s
      → IsWellMadeIfOk (after_primary new_client r s)
  unfolding after_primary
  after_primary_made (ok q) s h k = h
  after_primary_made (err e) (ok q) h k = k
  after_primary_made (err e) (err f) h k = tt

module _ {P : Platform} {E W : Type 0} (b : Backends P E W) where
  IsWellMade-IsSampling : (p : Provider) → IsWellMade p → IsSampling (as_metrics_provider b p)
  IsWellMade-IsSampling (from_prometheus url) h = λ namespace pod container window v m e.
      get_container_metrics-IsSampled (b.prometheus url) namespace pod container window v m
        (map_err_ok prometheus_error _ e)
  IsWellMade-IsSampling (from_metrics_server s) (max_samples, sample_interval, is) =
      λ namespace pod container window v m e.
        let (asked, same, least, most) =
          get_container_metrics_lem (b.metrics_server namespace pod) max_samples sample_interval
            container window v m
            (subst
              (λ x.
                (get_container_metrics (b.metrics_server namespace pod) x container window v).0
                ≡ ok m)
              is (map_err_ok metrics_server_error _ e)) in
        (least, omega arith)

  -- Whatever the two configurations are, and whatever the backends answer, metrics that a provider of
  -- the factory returns rest on at least one sample of the CPU and one of the memory, whether it is
  -- the primary or the fallback, and for metrics-server or Prometheus.
  pub new_provider_with_fallback-IsSampling :
      (new_client : String → Option E) (primary fallback : ProviderConfig) (p : Provider)
      → new_provider_with_fallback new_client primary fallback ≡ ok p
      → IsSampling (as_metrics_provider b p)
  unfolding new_provider_with_fallback
  new_provider_with_fallback-IsSampling new_client primary fallback p h = IsWellMade-IsSampling p (
      subst IsWellMadeIfOk h
        (after_primary_made new_client _ _ (made new_client primary) (made new_client fallback)))
