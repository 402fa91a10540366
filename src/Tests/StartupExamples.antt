-- ===== src/Tests/StartupExamples.antt =====
-- The operator as it is started.
use optipod.Prelude.{◌++◌, ◌≡◌, refl, ℕ, suc, pos, true, some, [], ◌∷◌, ok}
use optipod.Platform.Demo.{demo}
use optipod.Cluster.{ApiError}
use optipod.Metrics.Factory.{ProviderError, new_provider}
use optipod.Controller.Selection.{Reconciler}
use optipod.Controller.Reconcile.{reconcile}
use optipod.Operator.{OperatorConfig, new_operator_config, metrics_provider}
use optipod.Operator.Servers.{
  TlsConfig, default_flags, manager_options, OffersHttp1, manager_options-secure,
}
use optipod.Operator.FlagSet.{bind_flags, main_flags, declares_once}
use optipod.Operator.Wiring.{Connections, start}
use optipod.Operator.Wiring.DryRun.{start_dry_run}
use optipod.Tests.Data.{heavy, listing}
use optipod.Tests.ApplicationExamples.{engine, deployed, refusing}
use optipod.Tests.ControllerExamples.{busy}
use optipod.Tests.ProcessorExamples.{ticks, steps, gone_client, unread, silent}
use optipod.Tests.ProviderExamples.{backends, reachable}

abbrev connections : Connections demo ApiError ℕ
connections = record {
  backends = backends;
  accessors = engine.accessors;
  server_version = engine.server_version;
  effects = refusing;
  client = gone_client;
  reads = λ w. listing (heavy ∷ []);
  store = busy;
  recorder = λ p e w. suc w;
  meters = unread;
  clock = ticks;
  backoff = steps;
  to_unstructured = λ o. some deployed.object;
  random = λ w. pos 500;
  validation_text = λ e. "invalid";
  discovery_text = λ e. "undiscovered";
  process_text = λ e. "unprocessed";
}

abbrev dry_config : OperatorConfig
dry_config = record new_operator_config { dry_run = true }

-- The operator starts, with metrics-server.
started :
    (rc : Reconciler demo (ProviderError ApiError) ℕ) × (start connections reachable dry_config
      ≡ ok rc)
unfolding start metrics_provider new_provider
started = (_, refl)

started_silent :
    (rc : Reconciler demo (ProviderError ApiError) ℕ) × (start
        (record connections { effects = silent })
        reachable
        dry_config
      ≡ ok rc)
unfolding start metrics_provider new_provider
started_silent = (_, refl)

start_dry_run_example :
    reconcile started_silent.0 "ops" "heavy" 0 ≡ reconcile started.0 "ops" "heavy" 0
start_dry_run_example =
    start_dry_run connections silent dry_config refl reachable started.0 started_silent.0 started.1
      started_silent.1 "ops" "heavy" 0

-- With the flags as they are, neither server offers HTTP/2.
http1_only :
    (t : TlsConfig)
    → OffersHttp1 (manager_options dry_config default_flags).metrics.tls_opts t
      × OffersHttp1 (manager_options dry_config default_flags).webhook.tls_opts t
      × ((manager_options dry_config default_flags).metrics.filtered
          ≡ (manager_options dry_config default_flags).metrics.secure_serving)
http1_only t = manager_options-secure dry_config default_flags t refl

-- The flags of the configuration and of `main` do not clash.
flags_once : declares_once (bind_flags new_operator_config ++ main_flags default_flags) ≡ true
flags_once = refl
