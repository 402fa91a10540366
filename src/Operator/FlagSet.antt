-- ===== src/Operator/FlagSet.antt =====
-- internal/config/config.go: `BindFlags`, and the flags of cmd/main.go, as they are declared.
use optipod.Prelude.{ℤ, String, str_eq, Bool, true, false, not, ◌&&◌, ◌||◌, List, [], ◌∷◌}
use optipod.Api.Types.{Duration}
use optipod.Operator.{OperatorConfig}
use optipod.Operator.Servers.{Flags}

-- The default of a flag, by its type.
pub data FlagDefault : Type 0 where
  bool_default : Bool → FlagDefault
  string_default : String → FlagDefault
  duration_default : Duration → FlagDefault
  int_default : ℤ → FlagDefault

-- A call of `BoolVar`, `StringVar`, `DurationVar` or `IntVar`, without its text of usage.
pub record FlagDeclaration : Type 0 where
  pub name : String
  pub default : FlagDefault

abbrev declared : String → FlagDefault → FlagDeclaration
declared name default = record { name = name; default = default }

-- The defaults are those of the configuration.
abbrev pub bind_flags : OperatorConfig → List FlagDeclaration
bind_flags c =
    declared "dry-run" (bool_default c.dry_run)
    ∷ declared "metrics-provider" (string_default c.default_metrics_provider)
    ∷ declared "prometheus-url" (string_default c.prometheus_url)
    ∷ declared "leader-elect" (bool_default c.leader_election)
    ∷ declared "reconciliation-interval" (duration_default c.reconciliation_interval)
    ∷ declared "metrics-max-samples" (int_default c.metrics_max_samples)
    ∷ declared "metrics-sample-interval" (int_default c.metrics_sample_interval)
    ∷ []

abbrev pub main_flags : Flags → List FlagDeclaration
main_flags f =
    declared "metrics-bind-address" (string_default f.metrics_addr)
    ∷ declared "health-probe-bind-address" (string_default f.probe_addr)
    ∷ declared "metrics-secure" (bool_default f.secure_metrics)
    ∷ declared "webhook-cert-path" (string_default f.webhook_cert_path)
    ∷ declared "webhook-cert-name" (string_default f.webhook_cert_name)
    ∷ declared "webhook-cert-key" (string_default f.webhook_cert_key)
    ∷ declared "metrics-cert-path" (string_default f.metrics_cert_path)
    ∷ declared "metrics-cert-name" (string_default f.metrics_cert_name)
    ∷ declared "metrics-cert-key" (string_default f.metrics_cert_key)
    ∷ declared "enable-http2" (bool_default f.enable_http2)
    ∷ []

-- A flag of the name is declared.
abbrev pub is_declared : String → List FlagDeclaration → Bool
is_declared name [] = false
is_declared name (d ∷ ds) = str_eq d.name name || is_declared name ds

-- No name is declared twice, which would be a panic.
abbrev pub declares_once : List FlagDeclaration → Bool
declares_once [] = true
declares_once (d ∷ ds) = not (is_declared d.name ds) && declares_once ds
