-- ===== src/Observability/Collectors.antt =====
-- internal/observability/metrics.go: the collectors with their labels, and their registration. The
-- Prometheus client's code, which counts and registers, is a parameter.
use optipod.Prelude.{String, Option, List, [], ◌∷◌, ℕ}
use optipod.Api.Types.{Duration}

pub data CollectorKind : Type 0 where
  gauge_vec histogram_vec counter_vec : CollectorKind

-- A histogram has the default buckets.
pub record Collector : Type 0 where
  pub kind : CollectorKind
  pub name : String
  pub help : String
  pub labels : List String

abbrev pub collector : CollectorKind → String → String → List String → Collector
collector kind name help labels = record { kind = kind; name = name; help = help; labels = labels }

abbrev pub workloads_monitored : Collector
workloads_monitored =
    collector gauge_vec "optipod_workloads_monitored"
      "Number of workloads currently monitored by OptiPod" ("namespace" ∷ "policy" ∷ [])

abbrev pub workloads_updated : Collector
workloads_updated =
    collector gauge_vec "optipod_workloads_updated"
      "Number of workloads updated in the last reconciliation cycle" ("namespace" ∷ "policy" ∷ [])

abbrev pub workloads_skipped : Collector
workloads_skipped =
    collector gauge_vec "optipod_workloads_skipped"
      "Number of workloads skipped in the last reconciliation cycle"
      ("namespace" ∷ "policy" ∷ "reason" ∷ [])

abbrev pub reconciliation_duration : Collector
reconciliation_duration =
    collector histogram_vec "optipod_reconciliation_duration_seconds"
      "Duration of reconciliation cycles in seconds" ("policy" ∷ [])

abbrev pub metrics_collection_duration : Collector
metrics_collection_duration =
    collector histogram_vec "optipod_metrics_collection_duration_seconds"
      "Duration of metrics collection operations in seconds" ("provider" ∷ [])

abbrev pub reconciliation_errors : Collector
reconciliation_errors =
    collector counter_vec "optipod_reconciliation_errors_total"
      "Total number of reconciliation errors" ("policy" ∷ "error_type" ∷ [])

abbrev pub recommendations_total : Collector
recommendations_total =
    collector counter_vec "optipod_recommendations_total"
      "Total number of recommendations generated" ("policy" ∷ [])

abbrev pub applications_total : Collector
applications_total =
    collector counter_vec "optipod_applications_total" "Total number of resource updates applied"
      ("policy" ∷ "method" ∷ [])

abbrev pub ssa_patch_total : Collector
ssa_patch_total =
    collector counter_vec "optipod_ssa_patch_total"
      "Total number of Server-Side Apply patch operations"
      ("policy" ∷ "namespace" ∷ "workload" ∷ "kind" ∷ "status" ∷ "patch_type" ∷ [])

-- `WithLabelValues` with `Set` of a count, `Inc`, and `Observe` of the seconds of a duration.
pub record Meters (W : Type 0) : Type 0 where
  pub set : Collector → List String → ℕ → W → W
  pub inc : Collector → List String → W → W
  pub observe_seconds : Collector → List String → Duration → W → W

-- `Register` of the registry: an error, which the source drops, or none.
pub record Registry (E W : Type 0) : Type 0 where
  pub register : Collector → W → Option E × W

-- The collectors in the order of their registration.
abbrev pub collectors : List Collector
collectors =
    workloads_monitored ∷ workloads_updated ∷ workloads_skipped ∷ reconciliation_duration
    ∷ metrics_collection_duration ∷ reconciliation_errors ∷ recommendations_total
    ∷ applications_total ∷ ssa_patch_total ∷ []

module _ {E W : Type 0} (r : Registry E W) where
  register_each : List Collector → W → W
  register_each [] w = w
  register_each (c ∷ cs) w = register_each cs (r.register c w).1

  unfoldable pub register_metrics : W → W
  unfolding register_each
  register_metrics w = register_each collectors w

-- `RecordSSAPatch`
unfoldable pub record_ssa_patch :
    {W : Type 0} → Meters W → String → String → String → String → String → String → W → W
record_ssa_patch m policy namespace workload kind status patch_type =
    m.inc ssa_patch_total (policy ∷ namespace ∷ workload ∷ kind ∷ status ∷ patch_type ∷ [])
