-- ===== src/Operator.antt =====
-- internal/config/config.go, and the choice of the metrics provider in cmd/main.go.
pub mod Startup
pub mod Servers
pub mod FlagSet
pub mod Wiring
use optipod.Prelude.{
  ◌*◌, ◌^◌, ℤ, pos, String, str_eq, Bool, true, false, Option, Result, if◌then◌else◌,
}
use optipod.Api.Types.{Duration}
use optipod.Metrics.Factory.{
  provider_type_metrics_server, provider_type_prometheus, ProviderConfig, Provider, FactoryError,
  new_provider,
}

pub record OperatorConfig : Type 0 where
  pub dry_run : Bool
  pub default_metrics_provider : String
  pub prometheus_url : String
  pub leader_election : Bool
  pub metrics_addr : String
  pub probe_addr : String
  pub reconciliation_interval : Duration
  pub metrics_max_samples : ℤ
  pub metrics_sample_interval : ℤ

-- What holds without flags.
abbrev pub new_operator_config : OperatorConfig
new_operator_config = record {
  dry_run = false;
  default_metrics_provider = "metrics-server";
  prometheus_url = "http://prometheus:9090";
  leader_election = false;
  metrics_addr = ":8080";
  probe_addr = ":8081";
  reconciliation_interval = pos (300 * 10 ^ 9);
  metrics_max_samples = pos 0;
  metrics_sample_interval = pos 0;
}

-- The getters.
module _ (c : OperatorConfig) where
  abbrev pub is_dry_run : Bool
  is_dry_run = c.dry_run

  abbrev pub get_metrics_provider : String
  get_metrics_provider = c.default_metrics_provider

  abbrev pub get_prometheus_url : String
  get_prometheus_url = c.prometheus_url

  abbrev pub is_leader_election_enabled : Bool
  is_leader_election_enabled = c.leader_election

  abbrev pub get_reconciliation_interval : Duration
  get_reconciliation_interval = c.reconciliation_interval

  abbrev pub get_metrics_max_samples : ℤ
  get_metrics_max_samples = c.metrics_max_samples

  abbrev pub get_metrics_sample_interval : ℤ
  get_metrics_sample_interval = c.metrics_sample_interval

-- The literals of `ProviderConfig`. The clientsets are those made at the start, so they are set.
abbrev prometheus_config : OperatorConfig → ProviderConfig
prometheus_config c = record {
  type = provider_type_prometheus;
  prometheus_url = get_prometheus_url c;
  has_clientset = false;
  has_metrics_clientset = false;
  max_samples = pos 0;
  sample_interval = pos 0;
}

abbrev metrics_server_config : OperatorConfig → ProviderConfig
metrics_server_config c = record {
  type = provider_type_metrics_server;
  prometheus_url = "";
  has_clientset = true;
  has_metrics_clientset = true;
  max_samples = get_metrics_max_samples c;
  sample_interval = get_metrics_sample_interval c;
}

-- The switch over the provider's type, of which the last two branches are the same.
unfoldable pub metrics_provider :
    {E : Type 0} → (String → Option E) → OperatorConfig → Result (FactoryError E) Provider
metrics_provider new_client c =
    if str_eq (get_metrics_provider c) provider_type_prometheus
    then new_provider new_client (prometheus_config c)
    else new_provider new_client (metrics_server_config c)
