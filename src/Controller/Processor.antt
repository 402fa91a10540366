-- ===== src/Controller/Processor.antt =====
-- internal/controller/workload_processor.go: the processing of one workload under a policy. The
-- cluster, the metrics backend and the clock stand in a state that the calls take on.
pub mod Pods
pub mod Annotations
pub mod Collect
pub mod Statuses
pub mod Requests
pub mod Process
use optipod.Prelude.{ℕ, ℤ, String, Bool, true, false, Option, none, some, List, [], Result}
use optipod.Platform.{Platform, Labels}
use optipod.Cluster.{ApiError, AppsObject, Object, Workload}
use optipod.Api.Types.{OptimizationPolicy, ContainerRecommendation, Duration, Time}
use optipod.Metrics.{ContainerMetrics}
use optipod.Observability.Collectors.{Meters}
use optipod.Recommendation.{RecommendationError}
use optipod.Application.Values.{Fields}
use optipod.Application.Decision.{EngineConfig, DecisionError}
use optipod.Application.Apply.{Effects, ApplyError, PatchKind}

-- The constants `Skipped`, `Error`, `Recommended` and `Applied`, and the empty string.
pub data Status : Type 0 where
  status_unset status_skipped status_error status_recommended status_applied : Status

-- `getFirstPodName`
pub data PodError : Type 0 where
  unsupported_workload_type selector_failed no_pods_found : PodError
  list_pods_failed : ApiError → PodError

-- Why a container has no metrics; `E` is the error of the metrics backend.
pub data MetricsFault (E : Type 0) : Type 0 where
  pod_name_failed : String → PodError → MetricsFault E
  metrics_failed : String → E → MetricsFault E

-- `addRecommendationAnnotations`: its own errors, and those of the backoff.
pub data AnnotationError : Type 0 where
  client_is_nil object_unsupported : AnnotationError
  update_failed : ApiError → AnnotationError

pub data BackoffError (E : Type 0) : Type 0 where
  timed_out : BackoffError E
  condition_failed : E → BackoffError E

pub data ProcessError : Type 0 where
  unknown_mode : String → ProcessError
  containers_failed conversion_failed nil_dereference : ProcessError
  recommendation_failed : String → RecommendationError → ProcessError
  annotations_failed : BackoffError AnnotationError → ProcessError
  decision_failed : DecisionError → ProcessError
  application_failed : String → ApplyError → ProcessError

-- The text of the field, as the values that it prints.
pub data Reason (E : Type 0) : Type 0 where
  no_reason policy_disabled recommended_only applied_successfully : Reason E
  missing_metrics : MetricsFault E → Reason E
  failed : ProcessError → Reason E
  decided : String → Reason E

-- `WorkloadStatus`; an apply method that is not set is `none`.
pub record WorkloadStatus (P : Platform) (E : Type 0) : Type 0 where
  pub name : String
  pub namespace : String
  pub kind : String
  pub last_recommendation : Option Time
  pub last_applied : Option Time
  pub recommendations : List (ContainerRecommendation P)
  pub status : Status
  pub reason : Reason E
  pub last_apply_method : Option PatchKind
  pub field_ownership : Bool

-- The calls of the Kubernetes client: the pods of a namespace that a selector selects, by name and at
-- most one; and the object with the key and the type of the given one, read or written. A write
-- returns the object as the server stored it.
pub record WorkloadClient (W : Type 0) : Type 0 where
  pub list_pods : String → (Labels → Bool) → W → Result ApiError (List String) × W
  pub get : Object → W → Result ApiError AppsObject × W
  pub update : Object → W → Result ApiError AppsObject × W

-- `time.Now`, `time.Parse` and `Format` with RFC 3339, and the pause of `time.Sleep`.
pub record Clock (W : Type 0) : Type 0 where
  pub now : W → Time
  pub parse : String → Option Time
  pub format : Time → String
  pub sleep : W → W

-- `wait.ExponentialBackoff`: how a pause changes the state, the number of steps, and the condition.
pub record Backoff : Type 1 where
  pub run : (S E : Type 0) → (S → S) → ℕ → (S → Result E Bool × S) → S → Option (BackoffError E) × S

-- `WorkloadProcessor`. The metrics provider is an interface; the client is nil in tests. The collectors
-- of the metrics are global.
pub record WorkloadProcessor (P : Platform) (E W : Type 0) : Type 1 where
  pub get_container_metrics :
      String → String → String → Duration → W → Result E (ContainerMetrics P) × W
  pub engine : EngineConfig
  pub effects : Effects W
  pub metrics_provider_type : String
  pub meters : Meters W
  pub client : Option (WorkloadClient W)
  pub clock : Clock W
  pub backoff : Backoff
  pub to_unstructured : Object → Option Fields

-- What the operator starts with; the label of the durations does not depend on the provider.
abbrev pub new_workload_processor :
    {P : Platform} {E W : Type 0}
    → (String → String → String → Duration → W → Result E (ContainerMetrics P) × W)
    → EngineConfig
    → Effects W
    → Option (WorkloadClient W)
    → Meters W
    → Clock W
    → Backoff
    → (Object → Option Fields)
    → WorkloadProcessor P E W
new_workload_processor get_container_metrics engine effects client meters clock backoff
      to_unstructured =
    record {
      get_container_metrics = get_container_metrics;
      engine = engine;
      effects = effects;
      metrics_provider_type = "metrics-server";
      meters = meters;
      client = client;
      clock = clock;
      backoff = backoff;
      to_unstructured = to_unstructured;
    }
