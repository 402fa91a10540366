-- ===== src/Application/Decision.antt =====
-- `CanApply`: the checks in their order, each with its decision.
pub mod Allowed
use optipod.Prelude.{
  ◌≡◌, ◌≢◌, ◌⊎◌, String, str_eq, eq_iff, Bool, true, false, Option, ◌&&◌, StrMap, Result, ok, ◌>>=◌,
  map_err, bind_ok, map_err_ok, arith, if◌then◌else◌, Bool-cases, inl, inr,
}
use optipod.Platform.{Platform}
use optipod.Api.Types.{OptimizationPolicy, mode_recommend, mode_disabled}
use optipod.Recommendation.{Recommendation}
use optipod.Application.Values.{Accessors, AppWorkload}
use optipod.Application.Version.{VersionInfo, VersionError, detect_in_place_resize}
use optipod.Application.Resources.{
  ResourcesError, ResourceRequirements, get_current_resources, is_unsafe_memory_decrease,
}

pub data ApplyMethod : Type 0 where
  in_place recreate skip : ApplyMethod

pub record ApplyDecision : Type 0 where
  pub can_apply : Bool
  pub method : ApplyMethod
  pub reason : String

pub data DecisionError : Type 0 where
  resources_failed : ResourcesError → DecisionError
  detection_failed : VersionError → DecisionError

-- What the engine holds besides its clients: the accessors, the answer of `ServerVersion` and the
-- global dry-run flag.
pub record EngineConfig : Type 0 where
  pub accessors : Accessors
  pub server_version : Option VersionInfo
  pub dry_run : Bool

-- The clients of the source's engine are in what the server answers and in the effects.
abbrev pub new_engine : Accessors → Option VersionInfo → Bool → EngineConfig
new_engine accessors server_version dry_run = record {
  accessors = accessors;
  server_version = server_version;
  dry_run = dry_run;
}

abbrev ok_decision : ApplyDecision → Result DecisionError ApplyDecision
ok_decision d = ok d

abbrev pub skipped : String → ApplyDecision
skipped reason = record { can_apply = false; method = skip; reason = reason }

abbrev pub applied : ApplyMethod → String → ApplyDecision
applied method reason = record { can_apply = true; method = method; reason = reason }

module _ {P : Platform} where
  -- The choice between the two strategies, once nothing forbids the change.
  choose_method : Bool → OptimizationPolicy P → ApplyDecision
  choose_method in_place_supported p =
      if in_place_supported && p.spec.update_strategy.allow_in_place_resize
      then applied in_place "In-place resize is supported and allowed"
      else if p.spec.update_strategy.allow_recreate
      then applied recreate "Using recreate strategy"
      else skipped "No update strategy available"

  decide :
      Option VersionInfo
      → Recommendation P
      → OptimizationPolicy P
      → StrMap (ResourceRequirements P)
      → Result DecisionError ApplyDecision
  unfolding choose_method
  decide server rec p current =
      if is_unsafe_memory_decrease current rec
      then ok (skipped "Memory decrease could cause pod eviction or OOM")
      else map_err detection_failed (detect_in_place_resize server) >>= λ supported.
          ok (choose_method supported p)

  unfoldable pub can_apply :
      EngineConfig
      → AppWorkload
      → Recommendation P
      → OptimizationPolicy P
      → Result DecisionError ApplyDecision
  unfolding decide
  can_apply e w rec p =
      if str_eq p.spec.mode mode_recommend
      then ok (skipped "Policy is in Recommend mode")
      else if str_eq p.spec.mode mode_disabled
      then ok (skipped "Policy is disabled")
      else if e.dry_run
      then ok (skipped "Global dry-run mode is enabled")
      else map_err resources_failed (get_current_resources e.accessors w) >>= λ current.
          decide e.server_version rec p current
