-- ===== src/Metrics/Factory.antt =====
-- internal/metrics/factory.go: which provider a configuration gives.
pub mod Contract
use optipod.Prelude.{
  ◌*◌, ◌^◌, ℤ, pos, ◌*ℤ◌, int64, ltb_ℤ, eqb_ℤ, String, str_eq, Bool, true, false, ◌||◌, Option,
  none, some, Result, ok, err, map_err, if◌then◌else◌,
}
use optipod.Platform.{Platform}
use optipod.Metrics.{MetricsProvider}
use optipod.Metrics.Server.{
  MetricsServer, MetricsServerProvider, MetricsError, new_metrics_server_provider_with_config,
}
use optipod.Metrics.Prometheus.{PrometheusApi, PrometheusError}

abbrev pub provider_type_metrics_server : String
provider_type_metrics_server = "metrics-server"

abbrev pub provider_type_prometheus : String
provider_type_prometheus = "prometheus"

-- `ProviderConfig`; of the clients it matters here whether they are nil.
pub record ProviderConfig : Type 0 where
  pub type : String
  pub prometheus_url : String
  pub has_clientset : Bool
  pub has_metrics_clientset : Bool
  pub max_samples : ℤ
  pub sample_interval : ℤ

-- A provider as it is made: the settings for metrics-server, or the address of Prometheus.
pub data Provider : Type 0 where
  from_metrics_server : MetricsServerProvider → Provider
  from_prometheus : String → Provider

-- The error of the client of Prometheus is a parameter.
pub data FactoryError (E : Type 0) : Type 0 where
  clientset_required metrics_clientset_required url_required : FactoryError E
  prometheus_failed : E → FactoryError E
  unknown_provider_type : String → FactoryError E
  both_failed : FactoryError E → FactoryError E → FactoryError E

-- `NewMetricsServerProvider`: ten samples, and fifteen seconds between them.
abbrev pub new_metrics_server_provider : MetricsServerProvider
new_metrics_server_provider = record { max_samples = pos 10; sample_interval = pos (15 * 10 ^ 9) }

-- Zero stands for the default.
abbrev or_default : ℤ → ℤ → ℤ
or_default default n = if eqb_ℤ n (pos 0) then default else n

abbrev pub metrics_server_of : ProviderConfig → MetricsServerProvider
metrics_server_of c =
    if ltb_ℤ (pos 0) c.max_samples || ltb_ℤ (pos 0) c.sample_interval
    then new_metrics_server_provider_with_config (or_default (pos 10) c.max_samples)
        (int64 (or_default (pos 15) c.sample_interval *ℤ pos (10 ^ 9)))
    else new_metrics_server_provider

-- `api.NewClient` for an address: its error, if any.
module _ {E : Type 0} (new_client : String → Option E) where
  new_prometheus_provider : String → Result (FactoryError E) Provider
  new_prometheus_provider url = elim (new_client url) [
    | none ↦ ok (from_prometheus url)
    | some e ↦ err (prometheus_failed e)
  ]

  unfoldable pub new_provider : ProviderConfig → Result (FactoryError E) Provider
  unfolding new_prometheus_provider
  new_provider c =
      if str_eq c.type provider_type_metrics_server
      then (if c.has_clientset
          then (if c.has_metrics_clientset
              then ok (from_metrics_server (metrics_server_of c))
              else err metrics_clientset_required)
          else err clientset_required)
      else if str_eq c.type provider_type_prometheus
      then (if str_eq c.prometheus_url ""
          then err url_required
          else new_prometheus_provider c.prometheus_url)
      else err (unknown_provider_type c.type)

  after_primary :
      Result (FactoryError E) Provider
      → Result (FactoryError E) Provider
      → Result (FactoryError E) Provider
  after_primary (ok p) second = ok p
  after_primary (err e) (ok p) = ok p
  after_primary (err e) (err f) = err (both_failed e f)

  -- The second configuration is for the case that the first fails.
  unfoldable pub new_provider_with_fallback :
      ProviderConfig → ProviderConfig → Result (FactoryError E) Provider
  unfolding after_primary
  new_provider_with_fallback primary fallback =
      after_primary (new_provider primary) (new_provider fallback)

-- The errors of the two providers.
pub data ProviderError (E : Type 0) : Type 0 where
  metrics_server_error : MetricsError → ProviderError E
  prometheus_error : PrometheusError E → ProviderError E
