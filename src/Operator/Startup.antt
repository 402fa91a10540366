-- ===== src/Operator/Startup.antt =====
-- With which provider the operator starts.
use optipod.Prelude.{
  ◌≡◌, ◌≢◌, refl, ◌^◌, ℤ, pos, ◌≤ℤ◌, String, str_eq, eq_iff, false, Option, ok, arith,
}
use optipod.Metrics.Server.{MetricsServerProvider, new_metrics_server_provider_with_config}
use optipod.Metrics.Factory.{from_metrics_server, metrics_server_of, new_provider}
use optipod.Metrics.Factory.Contract.{metrics_server_of-IsMade}
use optipod.Operator.{OperatorConfig, metrics_server_config, metrics_provider}

-- At least one sample, and at least a second between two.
pub record IsStarted (m : MetricsServerProvider) : Type 0 where
  pub some_samples : pos 1 ≤ℤ m.max_samples
  pub some_time : pos (10 ^ 9) ≤ℤ m.sample_interval

constructed :
    (max_samples sample_interval : ℤ)
    → IsStarted (new_metrics_server_provider_with_config max_samples sample_interval)
unfolding new_metrics_server_provider_with_config
constructed max_samples sample_interval = record {
  some_samples = ground arith;
  some_time = ground arith;
}

module _ {E : Type 0} (new_client : String → Option E) where
  -- Unless Prometheus is asked for by its name, the operator starts with metrics-server, whatever the
  -- address and the numbers of the configuration are, and takes at least one sample and at least a
  -- second between two of them.
  pub metrics_provider-IsStarted :
      (c : OperatorConfig)
      → c.default_metrics_provider ≢ "prometheus"
      → (m : MetricsServerProvider) × (metrics_provider new_client c ≡ ok (from_metrics_server m))
        × IsStarted m
  unfolding metrics_provider new_provider
  metrics_provider-IsStarted c h =
      let other : str_eq c.default_metrics_provider "prometheus" ≡ false =
        ground (arith, eq_iff c.default_metrics_provider "prometheus") in
      let (most, least, made) = metrics_server_of-IsMade (metrics_server_config c) in
      (metrics_server_of (metrics_server_config c), rw other refl, rw made (constructed most least))
