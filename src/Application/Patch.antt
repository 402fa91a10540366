-- ===== src/Application/Patch.antt =====
-- The patches that the application engine sends: `buildResourcePatch` and `buildSSAPatch`.
pub mod Update
use optipod.Prelude.{
  ◌≡◌, ◌↔◌, refl, ap, Bool-cases, String, str_eq, eq_iff, false, Option, none, some, List, [], ◌∷◌,
  ◌++◌, Result, ok, err, ◌>>=◌, map_err, All, arith, if◌then◌else◌, inl, inr, bind_ok, map_err_ok,
}
use optipod.Platform.{Platform}
use optipod.Api.Types.{OptimizationPolicy}
use optipod.Recommendation.{Recommendation}
use optipod.Application.Values.{
  Value, str, scalar, slice, obj, Fields, put, slice_of, object_of, Accessors, AppWorkload,
}
use optipod.Application.Resources.{ResourcesError, workload_containers}
use optipod.Application.Limits.{calculate_limits}

pub data PatchError : Type 0 where
  containers_failed : ResourcesError → PatchError
  container_not_found : String → PatchError
  encoding_failed : PatchError

abbrev quantities : String → String → Value
quantities cpu memory = object_of (("cpu", str cpu) ∷ ("memory", str memory) ∷ [])

module _ {P : Platform} where
  open P use {to_string}

  -- The map of requests, with the limits where the policy updates them too.
  unfoldable pub resources_map : Recommendation P → OptimizationPolicy P → Value
  resources_map rec p =
      let requests = quantities (to_string rec.cpu) (to_string rec.memory) in
      let limits = calculate_limits rec.cpu rec.memory p in
      if p.spec.update_strategy.update_requests_only
      then object_of (("requests", requests) ∷ [])
      else object_of (
          ("requests", requests)
          ∷ ("limits", quantities (to_string limits.0) (to_string limits.1))
          ∷ [])

-- The loop over the containers: the first one of the name gets the map, the others are kept. `none`
-- is the flag `found` left at false.
unfoldable pub update_container : Accessors → String → Value → List Value → Option (List Value)
update_container a target resources [] = none
update_container a target resources (obj container ∷ rest) =
    let later = update_container a target resources rest in
    if str_eq (a.nested_string container "name") target
    then some (obj (put "resources" resources container) ∷ rest)
    else elim later [ none ↦ none | some cs ↦ some (obj container ∷ cs) ]
update_container a target resources (other ∷ rest) =
    elim (update_container a target resources rest) [ none ↦ none | some cs ↦ some (other ∷ cs) ]

-- The value under the path spec, template, spec, containers.
abbrev pod_template : Value → Value
pod_template containers =
    object_of
      (("template", object_of (("spec", object_of (("containers", containers) ∷ [])) ∷ [])) ∷ [])

-- The object of the strategic merge patch.
abbrev pub containers_patch : List Value → Value
containers_patch containers = object_of (("spec", pod_template (slice (slice_of containers))) ∷ [])

abbrev pub get_kind : String → String
get_kind workload_kind = workload_kind

abbrev or_patch_error : {A : Type 0} → PatchError → Option A → Result PatchError A
or_patch_error e none = err e
or_patch_error e (some a) = ok a

module _ {P : Platform} (a : Accessors) where
  unfoldable pub build_resource_patch :
      AppWorkload → String → Recommendation P → OptimizationPolicy P → Result PatchError String
  build_resource_patch w container_name rec p = do
    containers ← map_err containers_failed (workload_containers a w)
    updated ←
        or_patch_error (container_not_found container_name)
          (update_container a container_name (resources_map rec p) containers)
    or_patch_error encoding_failed (a.marshal_json (containers_patch updated))

  -- The minimal object: the identity of the workload, and one container with its resources.
  unfoldable pub build_ssa_patch :
      AppWorkload → String → Recommendation P → OptimizationPolicy P → Result PatchError String
  build_ssa_patch w container_name rec p = or_patch_error encoding_failed (
      a.marshal_json (
        object_of (
          ("apiVersion", str "apps/v1")
          ∷ ("kind", str (get_kind w.kind))
          ∷ ("metadata", object_of (("name", str w.name) ∷ ("namespace", str w.namespace) ∷ []))
          ∷ (
            "spec",
            pod_template (
                slice (
                  slice_of (
                    object_of
                      (("name", str container_name) ∷ ("resources", resources_map rec p) ∷ [])
                    ∷ []))),
          )
          ∷ [])))
