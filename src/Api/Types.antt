-- ===== src/Api/Types.antt =====
-- The policy resource: its spec and status as records, a field that may be left out as an `Option`.
use optipod.Prelude.{ℤ, pos, String, Bool, Option, List, value_or}
use optipod.Platform.{Platform, LabelSelector}
use optipod.Api.WorkloadTypes.{WorkloadTypeFilter}

-- A string in the source; the three modes are constants of it.
abbrev pub PolicyMode : Type 0
PolicyMode = String

abbrev pub mode_auto : PolicyMode
mode_auto = "Auto"

abbrev pub mode_recommend : PolicyMode
mode_recommend = "Recommend"

abbrev pub mode_disabled : PolicyMode
mode_disabled = "Disabled"

-- A `time.Duration`, an int64 of nanoseconds; a `metav1.Time` is one too, since a fixed instant.
abbrev pub Duration : Type 0
Duration = ℤ

abbrev pub Time : Type 0
Time = ℤ

pub record NamespaceFilter : Type 0 where
  pub allow : List String
  pub deny : List String

-- `WorkloadSelector`, named apart from its field.
pub record WorkloadSelector : Type 0 where
  pub namespace_selector : Option LabelSelector
  pub workload_selector : Option LabelSelector
  pub namespaces : Option NamespaceFilter
  pub workload_types : Option WorkloadTypeFilter

-- `metav1.Condition`
pub record Condition : Type 0 where
  pub type : String
  pub status : String
  pub reason : String
  pub message : String
  pub last_transition_time : Time

pub record WorkloadTypeStatus : Type 0 where
  pub deployments : ℤ
  pub stateful_sets : ℤ
  pub daemon_sets : ℤ

pub record OptimizationPolicyStatus : Type 0 where
  pub conditions : List Condition
  pub workloads_discovered : ℤ
  pub workloads_processed : ℤ
  pub last_reconciliation : Option Time
  pub workloads_by_type : Option WorkloadTypeStatus

module _ (P : Platform) where
  open P use {Quantity, Float}

  pub record MetricsConfig : Type 0 where
    pub provider : String
    pub rolling_window : Duration
    pub percentile : String
    pub safety_factor : Option Float

  pub record ResourceBound : Type 0 where
    pub min : Quantity
    pub max : Quantity

  pub record ResourceBounds : Type 0 where
    pub cpu : ResourceBound
    pub memory : ResourceBound

  pub record LimitConfig : Type 0 where
    pub cpu_limit_multiplier : Option Float
    pub memory_limit_multiplier : Option Float

  pub record UpdateStrategy : Type 0 where
    pub allow_in_place_resize : Bool
    pub allow_recreate : Bool
    pub update_requests_only : Bool
    pub use_server_side_apply : Option Bool
    pub limit_config : Option LimitConfig

  pub record OptimizationPolicySpec : Type 0 where
    pub mode : PolicyMode
    pub weight : Option ℤ
    pub selector : WorkloadSelector
    pub metrics_config : MetricsConfig
    pub resource_bounds : ResourceBounds
    pub update_strategy : UpdateStrategy
    pub reconciliation_interval : Duration

  pub record OptimizationPolicy : Type 0 where
    pub name : String
    pub namespace : String
    pub spec : OptimizationPolicySpec
    pub status : OptimizationPolicyStatus

  -- The values that the text of an explanation prints, in its order.
  pub record Explanation : Type 0 where
    pub percentile : String
    pub cpu_usage : String
    pub memory_usage : String
    pub safety_factor : Float
    pub cpu_min : String
    pub cpu_max : String
    pub memory_min : String
    pub memory_max : String

  -- The explanation `none` is the empty text.
  pub record ContainerRecommendation : Type 0 where
    pub container : String
    pub cpu : Option Quantity
    pub memory : Option Quantity
    pub explanation : Option Explanation

module _ {P : Platform} where
  -- The default weight is 100.
  unfoldable pub get_weight : OptimizationPolicy P → ℤ
  get_weight p = value_or (pos 100) p.spec.weight
