-- ===== src/Operator/Wiring.antt =====
-- cmd/main.go: how the parts are put together, from the choice of the metrics provider on.
pub mod DryRun
use optipod.Prelude.{◌≡◌, ◌∙◌, sym, refl, Bool, String, true, Option, none, some, Result, ok, err}
use optipod.Platform.{Platform}
use optipod.Cluster.{Client, Object}
use optipod.Api.Types.{OptimizationPolicy, Time}
use optipod.Api.Validation.{ValidationError}
use optipod.Discovery.{DiscoveryError}
use optipod.Observability.Events.{Event, new_event_recorder}
use optipod.Observability.Collectors.{Meters}
use optipod.Metrics.Factory.{Provider, FactoryError, ProviderError}
use optipod.Metrics.Factory.Contract.{Backends, as_metrics_provider}
use optipod.Application.Values.{Accessors, Fields}
use optipod.Application.Version.{VersionInfo}
use optipod.Application.Decision.{new_engine}
use optipod.Application.Apply.{Effects}
use optipod.Controller.Retry.{PolicyStore}
use optipod.Controller.Processor.{
  ProcessError, WorkloadClient, Clock, Backoff, WorkloadProcessor, new_workload_processor,
}
use optipod.Controller.Selection.{Reconciler}
use optipod.Controller.Reconcile.{reconcile}
use optipod.Controller.Reconcile.DryRun.{reconcile_dry_run}
use optipod.Operator.{OperatorConfig, is_dry_run, metrics_provider}

-- What the operator is connected to: the clients that the manager and the clientsets give, and the
-- packages that the parts call.
pub record Connections (P : Platform) (E W : Type 0) : Type 1 where
  pub backends : Backends P E W
  pub accessors : Accessors
  pub server_version : Option VersionInfo
  pub effects : Effects W
  pub client : WorkloadClient W
  pub reads : W → Client P
  pub store : PolicyStore P W
  pub recorder : OptimizationPolicy P → Event → W → W
  pub meters : Meters W
  pub clock : Clock W
  pub backoff : Backoff
  pub to_unstructured : Object → Option Fields
  pub random : W → P.Float
  pub validation_text : ValidationError → String
  pub discovery_text : DiscoveryError → String
  pub process_text : ProcessError → String

module _ {P : Platform} {E W : Type 0} (cn : Connections P E W) where
  abbrev workload_processor : OperatorConfig → Provider → WorkloadProcessor P (ProviderError E) W
  workload_processor c provider =
      new_workload_processor (as_metrics_provider cn.backends provider).get_container_metrics
        (new_engine cn.accessors cn.server_version (is_dry_run c)) cn.effects (some cn.client)
        cn.meters cn.clock cn.backoff cn.to_unstructured

  -- Both recorders are of the same name.
  abbrev reconciler_of : WorkloadProcessor P (ProviderError E) W → Reconciler P (ProviderError E) W
  reconciler_of wp = record {
    reads = cn.reads;
    store = cn.store;
    processor = some wp;
    recorder = cn.recorder;
    event_recorder = some (new_event_recorder cn.recorder);
    meters = cn.meters;
    now = cn.clock.now;
    random = cn.random;
    validation_text = cn.validation_text;
    discovery_text = cn.discovery_text;
    process_text = cn.process_text;
  }

  -- Without a provider the operator exits.
  wired :
      OperatorConfig
      → Result (FactoryError E) Provider
      → Result (FactoryError E) (Reconciler P (ProviderError E) W)
  wired c (err e) = err e
  wired c (ok provider) = ok (reconciler_of (workload_processor c provider))

  unfoldable pub start :
      (String → Option E)
      → OperatorConfig
      → Result (FactoryError E) (Reconciler P (ProviderError E) W)
  unfolding wired
  start new_client c = wired c (metrics_provider new_client c)
