-- ===== src/Metrics.antt =====
-- internal/metrics: what a metrics provider returns, and how usage samples become percentiles.
pub mod Server
pub mod Factory
pub mod Prometheus
use optipod.Prelude.{ℕ, ◌≤◌, String, Option, Result}
use optipod.Platform.{Platform}
use optipod.Api.Types.{Duration}

module _ (P : Platform) where
  open P use {Quantity}

  pub record ResourceMetrics : Type 0 where
    pub p50 : Quantity
    pub p90 : Quantity
    pub p99 : Quantity
    pub samples : ℕ

  pub record ContainerMetrics : Type 0 where
    pub cpu : ResourceMetrics
    pub memory : ResourceMetrics

-- Both usages rest on one sample at least.
abbrev pub IsSampled : {P : Platform} → ContainerMetrics P → Type 0
IsSampled m = (1 ≤ m.cpu.samples) × (1 ≤ m.memory.samples)

-- `MetricsProvider`: the call with the namespace, the pod, the container and the window, and the check
-- of the backend, with its error, if any.
pub record MetricsProvider (P : Platform) (E W : Type 0) : Type 0 where
  pub get_container_metrics :
      String → String → String → Duration → W → Result E (ContainerMetrics P) × W
  pub health_check : W → Option E × W
