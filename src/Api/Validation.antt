-- ===== src/Api/Validation.antt =====
-- `ValidateCreate` and what it calls: the first check that fails gives the error.
pub mod Laws
use Prim.Native.Nat.{Ordering}
use optipod.Prelude.{
  ◌≡◌, ℕ, suc, ℤ, pos, ltb_ℤ, String, str_eq, Bool, true, false, not, ◌&&◌, ◌||◌, Option, none,
  some, List, [], ◌∷◌, is_some, is_empty, contains_str, Result, ok, err, ◌>>=◌, ◌>>◌, require,
  check_present,
}
use optipod.Platform.{Platform, LabelSelector, MatchExpression}
use optipod.Api.WorkloadTypes.{WorkloadType, WorkloadTypeFilter, known_types}
use optipod.Api.Types.{
  WorkloadSelector, MetricsConfig, ResourceBound, OptimizationPolicy, mode_auto, mode_recommend,
  mode_disabled,
}

-- The field that a selector or a bound stands in.
pub data Field : Type 0 where
  namespace_selector workload_selector include exclude cpu memory : Field

-- One constructor for each `fmt.Errorf`, with the values that it prints.
pub data ValidationError : Type 0 where
  mode_required selector_required provider_required : ValidationError
  invalid_mode : String → ValidationError
  key_required : Field → ℕ → ValidationError
  invalid_operator values_required values_forbidden : Field → ℕ → String → ValidationError
  invalid_workload_type : Field → ℕ → WorkloadType → ValidationError
  min_required max_required min_above_max : Field → ValidationError
  safety_factor_too_small : ValidationError
  weight_out_of_range : ℤ → ValidationError

abbrev Check : Type 0
Check = Result ValidationError (Unit {0})

abbrev pub valid_modes : List String
valid_modes = mode_auto ∷ mode_recommend ∷ mode_disabled ∷ []

abbrev pub valid_operators : List String
valid_operators = "In" ∷ "NotIn" ∷ "Exists" ∷ "DoesNotExist" ∷ []

abbrev pub takes_values : String → Bool
takes_values o = str_eq o "In" || str_eq o "NotIn"

abbrev pub takes_no_values : String → Bool
takes_no_values o = str_eq o "Exists" || str_eq o "DoesNotExist"

validate_mode : String → Check
validate_mode m = do
  require (not (str_eq m "")) mode_required
  require (contains_str valid_modes m) (invalid_mode m)

validate_expression : Field → ℕ → MatchExpression → Check
validate_expression field i e = do
  require (not (str_eq e.key "")) (key_required field i)
  require (contains_str valid_operators e.operator) (invalid_operator field i e.operator)
  require (not (takes_values e.operator && is_empty e.values)) (values_required field i e.operator)
  require (not (takes_no_values e.operator && not (is_empty e.values)))
      (values_forbidden field i e.operator)

validate_expressions : Field → ℕ → List MatchExpression → Check
unfolding validate_expression
validate_expressions field i [] = ok tt
validate_expressions field i (e ∷ es) =
    validate_expression field i e >> validate_expressions field (suc i) es

validate_label_selector : Field → LabelSelector → Check
unfolding validate_expressions
validate_label_selector field s = validate_expressions field 0 s.match_expressions

validate_types : Field → ℕ → List WorkloadType → Check
validate_types field i [] = ok tt
validate_types field i (t ∷ ts) =
    require (contains_str known_types t) (invalid_workload_type field i t)
    >> validate_types field (suc i) ts

validate_workload_types : WorkloadTypeFilter → Check
unfolding validate_types
validate_workload_types f = do
  validate_types include 0 f.include
  validate_types exclude 0 f.exclude

validate_selector : WorkloadSelector → Check
unfolding validate_label_selector validate_workload_types
validate_selector s = do
  require (is_some s.namespace_selector || is_some s.workload_selector || is_some s.namespaces)
      selector_required
  check_present (validate_label_selector namespace_selector) s.namespace_selector
  check_present (validate_label_selector workload_selector) s.workload_selector
  check_present validate_workload_types s.workload_types

abbrev pub is_gt : Ordering → Bool
is_gt Ordering.gt = true
is_gt _ = false

module _ {P : Platform} where
  open P use {cmp, is_zero}

  validate_bound : Field → ResourceBound P → Check
  validate_bound field b = do
    require (not (is_zero b.min)) (min_required field)
    require (not (is_zero b.max)) (max_required field)
    require (not (is_gt (cmp b.min b.max))) (min_above_max field)

module _ (P : Platform) where
  open P use {Float, lt, decimal}

  validate_safety_factor : Option Float → Check
  validate_safety_factor none = ok tt
  validate_safety_factor (some f) = require (not (lt f (decimal 1 0))) safety_factor_too_small

validate_weight : Option ℤ → Check
validate_weight none = ok tt
validate_weight (some w) =
    require (not (ltb_ℤ w (pos 1) || ltb_ℤ (pos 1000) w)) (weight_out_of_range w)

module _ {P : Platform} where
  unfoldable pub validate_optimization_policy :
      OptimizationPolicy P → Result ValidationError (Unit {0})
  unfolding validate_mode validate_selector validate_bound validate_safety_factor validate_weight
  validate_optimization_policy p = do
    validate_mode p.spec.mode
    validate_selector p.spec.selector
    require (not (str_eq p.spec.metrics_config.provider "")) provider_required
    validate_bound cpu p.spec.resource_bounds.cpu
    validate_bound memory p.spec.resource_bounds.memory
    validate_safety_factor P p.spec.metrics_config.safety_factor
    validate_weight p.spec.weight

  unfoldable pub validate_create : OptimizationPolicy P → Result ValidationError (Unit {0})
  unfolding validate_optimization_policy
  validate_create p = validate_optimization_policy p

  unfoldable pub validate_update :
      OptimizationPolicy P → OptimizationPolicy P → Result ValidationError (Unit {0})
  unfolding validate_optimization_policy
  validate_update p old = validate_optimization_policy p

  unfoldable pub validate_delete : OptimizationPolicy P → Result ValidationError (Unit {0})
  validate_delete p = ok tt
