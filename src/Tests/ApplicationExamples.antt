-- ===== src/Tests/ApplicationExamples.antt =====
-- The application engine, on a deployment with one container.
use optipod.Prelude.{
  ◌≡◌, refl, ℕ, ◌+◌, pos, none, some, value_or, false, [], ◌∷◌, List, Option, ok, String, StrMap,
  insert,
}
use optipod.Platform.Demo.{demo}
use optipod.Cluster.{conflict}
use optipod.Observability.Collectors.{Meters}
use optipod.Recommendation.{Recommendation}
use optipod.Application.Values.{
  Value, str, obj, Fields, end, field, index, as_map, as_string, value_list, slice, slice_of,
  Accessors, AppWorkload,
}
use optipod.Application.Version.{VersionInfo, atoi, trim_plus, detect_in_place_resize}
use optipod.Application.Resources.{
  ResourceRequirements, get_current_resources, is_unsafe_memory_decrease, workload_containers,
}
use optipod.Application.Decision.{EngineConfig, ApplyDecision, in_place, applied, can_apply}
use optipod.Application.Decision.Allowed.{IsAllowed, can_apply-IsAllowed}
use optipod.Application.Limits.{
  calculate_limits, calculate_limits_for_annotation, scaled, unconfigured, limits_agree,
}
use optipod.Application.Patch.{
  resources_map, update_container, build_resource_patch, containers_patch,
}
use optipod.Application.Patch.Update.{IsUpdate, build_resource_patch_lem}
use optipod.Application.Apply.{Effects, apply}
use optipod.Application.Apply.Outcome.{IsOutcome, apply-IsOutcome}
use optipod.Tests.Data.{heavy, millis, bytes}

abbrev fields_of : Option Fields → Fields
fields_of none = end
fields_of (some m) = m

-- `walk` goes down a path of maps to a slice; a missing one is empty.
abbrev walk : List String → Fields → Option (List Value)
walk [] m = none
walk (k ∷ ks) m = elim (index k m) [
  | none ↦ some []
  | some v ↦ elim v [ obj below ↦ walk ks below | slice l ↦ some (value_list l) | _ ↦ none ]
]

abbrev pub plain : Accessors
plain = record {
  nested_slice = λ o path. walk path o;
  nested_string = λ m k. value_or "" (as_string (index k m));
  nested_map = λ m k. fields_of (as_map (index k m));
  marshal_json = λ v. some "{}";
}

abbrev main_container : Value
main_container = obj (field "name" (str "main") (field "image" (str "web:1") end))

abbrev under : String → Value → Fields
under k v = field k v end

abbrev pub deployed : AppWorkload
deployed = record {
  kind = "Deployment";
  namespace = "shop";
  name = "web";
  object = under "spec" (
      obj (
        under "template" (
          obj (under "spec" (obj (under "containers" (slice (slice_of (main_container ∷ [])))))))));
}

abbrev advice : Recommendation demo
advice = record { cpu = millis (pos 500); memory = bytes (pos 4000); explanation = none }

abbrev modern : VersionInfo
modern = record { major = "1"; minor = "31+" }

abbrev pub engine : EngineConfig
engine = record { accessors = plain; server_version = some modern; dry_run = false }

abbrev limited : StrMap (ResourceRequirements demo)
limited =
    (
      "main",
      record {
        requests = none;
        limits = some (record { cpu = none; memory = some (bytes (pos 5000)) });
      },
    )
    ∷ []

abbrev go_ahead : ApplyDecision
go_ahead = applied in_place "In-place resize is supported and allowed"

decided : can_apply engine deployed advice heavy ≡ ok go_ahead
unfolding can_apply get_current_resources is_unsafe_memory_decrease detect_in_place_resize index
    insert atoi trim_plus
decided = refl

can_apply-IsAllowed_example : IsAllowed engine deployed advice heavy in_place
can_apply-IsAllowed_example = can_apply-IsAllowed engine deployed advice heavy go_ahead decided refl

limits_agree_example :
    (calculate_limits (millis (pos 500)) (bytes (pos 4000)) heavy
      ≡ scaled demo (millis (pos 500)) (bytes (pos 4000)) (pos 1000) (pos 1100))
    × (calculate_limits_for_annotation (millis (pos 500)) (bytes (pos 4000)) heavy
        ≡ scaled demo (millis (pos 500)) (bytes (pos 4000)) (pos 1000) (pos 1100))
limits_agree_example =
    limits_agree (millis (pos 500)) (bytes (pos 4000)) heavy (pos 1000) (pos 1100) refl refl
      unconfigured unconfigured

patched : build_resource_patch plain deployed "main" advice heavy ≡ ok "{}"
unfolding build_resource_patch workload_containers update_container index
patched = refl

build_resource_patch_lem_example :
    (old new : List Value) × (workload_containers plain deployed ≡ ok old)
    × IsUpdate plain "main" (resources_map advice heavy) old new
    × (plain.marshal_json (containers_patch new) ≡ some "{}")
build_resource_patch_lem_example =
    build_resource_patch_lem plain deployed "main" advice heavy "{}" patched

-- Every increment of a counter counts.
abbrev counting : Meters ℕ
counting = record {
  set = λ c values n w. w;
  inc = λ c values w. w + 1;
  observe_seconds = λ c values d w. w;
}

-- A server that refuses every patch with a conflict; the state counts the records.
abbrev pub refusing : Effects ℕ
refusing = record { patch = λ request w. (some conflict, w); meters = counting }

apply-IsOutcome_example :
    IsOutcome refusing plain deployed "main" advice heavy 0
      (apply refusing plain deployed "main" advice heavy 0)
apply-IsOutcome_example = apply-IsOutcome refusing plain deployed "main" advice heavy 0
