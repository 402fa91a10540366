-- ===== src/Application/Apply.antt =====
-- `Apply`, `ApplyWithSSA` and `ApplyWithStrategicMerge`: one patch request, and the record of its
-- outcome. The API server and the metrics stand in a state that the requests take on.
pub mod Outcome
use optipod.Prelude.{
  ◌≡◌, ◌⊎◌, refl, String, str_eq, Bool, true, false, Option, none, some, Result, ok, err, map_err,
  value_or, arith, if◌then◌else◌, Bool-cases, inl, inr,
}
use optipod.Platform.{Platform}
use optipod.Cluster.{ApiError, conflict, forbidden, invalid}
use optipod.Api.Types.{OptimizationPolicy}
use optipod.Observability.Collectors.{Meters, record_ssa_patch}
use optipod.Recommendation.{Recommendation}
use optipod.Application.Values.{
  Accessors, AppWorkload, kind_deployment, kind_stateful_set, kind_daemon_set,
}
use optipod.Application.Patch.{PatchError, build_resource_patch, build_ssa_patch}

pub data PatchKind : Type 0 where
  server_side_apply strategic_merge_patch : PatchKind

-- `schema.GroupVersionResource`; the group is apps and the version v1.
pub data AppsResource : Type 0 where
  deployments stateful_sets daemon_sets : AppsResource

-- The call of `Patch` on the dynamic client. The field manager is empty where the options are.
pub record PatchRequest : Type 0 where
  pub resource : AppsResource
  pub namespace : String
  pub name : String
  pub kind : PatchKind
  pub patch : String
  pub field_manager : String
  pub force : Bool

-- What is told to `observability.RecordSSAPatch`.
pub record PatchRecord : Type 0 where
  pub policy : String
  pub namespace : String
  pub workload : String
  pub kind : String
  pub succeeded : Bool
  pub patch_type : PatchKind

-- The API server's answer to a patch, and the collectors of the metrics.
pub record Effects (W : Type 0) : Type 0 where
  pub patch : PatchRequest → W → Option ApiError × W
  pub meters : Meters W

abbrev patch_type_text : PatchKind → String
patch_type_text server_side_apply = "ServerSideApply"
patch_type_text strategic_merge_patch = "StrategicMergePatch"

unfoldable pub record_patch : {W : Type 0} → Effects W → PatchRecord → W → W
record_patch fx r =
    record_ssa_patch fx.meters r.policy r.namespace r.workload r.kind
      (if r.succeeded then "success" else "failure") (patch_type_text r.patch_type)

pub data ApplyError : Type 0 where
  build_failed : PatchError → ApplyError
  gvr_failed : String → ApplyError
  ssa_conflict ssa_forbidden ssa_invalid ssa_failed : ApiError → ApplyError
  merge_forbidden merge_failed : ApiError → ApplyError

-- The method is the name of the kind of patch.
pub record ApplyResult : Type 0 where
  pub method : PatchKind
  pub field_ownership : Bool

unfoldable pub get_gvr : String → Result ApplyError AppsResource
get_gvr kind =
    if str_eq kind kind_deployment
    then ok deployments
    else if str_eq kind kind_stateful_set
    then ok stateful_sets
    else if str_eq kind kind_daemon_set
    then ok daemon_sets
    else err (gvr_failed kind)

unfoldable pub handle_ssa_error : ApiError → ApplyError
handle_ssa_error conflict = ssa_conflict conflict
handle_ssa_error forbidden = ssa_forbidden forbidden
handle_ssa_error invalid = ssa_invalid invalid
handle_ssa_error e = ssa_failed e

unfoldable pub handle_merge_error : ApiError → ApplyError
handle_merge_error forbidden = merge_forbidden forbidden
handle_merge_error e = merge_failed e

-- `fmt.Errorf("failed to build patch: %w", err)`
abbrev built : Result PatchError String → Result ApplyError String
built r = map_err build_failed r

abbrev pub ssa_request : AppWorkload → AppsResource → String → PatchRequest
ssa_request workload resource patch = record {
  resource = resource;
  namespace = workload.namespace;
  name = workload.name;
  kind = server_side_apply;
  patch = patch;
  field_manager = "optipod";
  force = true;
}

abbrev pub merge_request : AppWorkload → AppsResource → String → PatchRequest
merge_request workload resource patch = record {
  resource = resource;
  namespace = workload.namespace;
  name = workload.name;
  kind = strategic_merge_patch;
  patch = patch;
  field_manager = "";
  force = false;
}

abbrev pub use_ssa : {P : Platform} → OptimizationPolicy P → Bool
use_ssa p = value_or true p.spec.update_strategy.use_server_side_apply

abbrev pub outcome_of :
    {P : Platform} → PatchKind → AppWorkload → OptimizationPolicy P → Bool → PatchRecord
outcome_of kind workload p succeeded = record {
  policy = p.name;
  namespace = workload.namespace;
  workload = workload.name;
  kind = workload.kind;
  succeeded = succeeded;
  patch_type = kind;
}

abbrev as_result :
    {W : Type 0} → PatchKind → Bool → Option ApplyError × W → Result ApplyError ApplyResult × W
as_result kind ownership (some e, w) = (err e, w)
as_result kind ownership (none, w) = (ok (record { method = kind; field_ownership = ownership }), w)

module _ {W : Type 0} (fx : Effects W) where
  -- The request, the record of its outcome and the error of the caller.
  send : (ApiError → ApplyError) → PatchRequest → (Bool → PatchRecord) → W → Option ApplyError × W
  send handle request outcome w =
      let answer = fx.patch request w in
      elim (answer.0) [
        | some e ↦ (some (handle e), record_patch fx (outcome false) (answer.1))
        | none ↦ (none, record_patch fx (outcome true) (answer.1))
      ]

  -- A patch that is not built is not sent.
  with_patch :
      Result ApplyError String
      → Result ApplyError AppsResource
      → (String → AppsResource → W → Option ApplyError × W)
      → W
      → Option ApplyError × W
  with_patch (err e) gvr k w = (some e, w)
  with_patch (ok patch) (err e) k w = (some e, w)
  with_patch (ok patch) (ok resource) k w = k patch resource w

  module _ {P : Platform} (a : Accessors) where
    unfoldable pub apply_with_ssa :
        AppWorkload → String → Recommendation P → OptimizationPolicy P → W → Option ApplyError × W
    unfolding with_patch send
    apply_with_ssa workload container_name rec p =
        with_patch (built (build_ssa_patch a workload container_name rec p)) (get_gvr workload.kind)
          (λ patch resource.
            send handle_ssa_error (ssa_request workload resource patch)
              (outcome_of server_side_apply workload p))

    unfoldable pub apply_with_strategic_merge :
        AppWorkload → String → Recommendation P → OptimizationPolicy P → W → Option ApplyError × W
    unfolding with_patch send
    apply_with_strategic_merge workload container_name rec p =
        with_patch (built (build_resource_patch a workload container_name rec p))
          (get_gvr workload.kind)
          (λ patch resource.
            send handle_merge_error (merge_request workload resource patch)
              (outcome_of strategic_merge_patch workload p))

    unfoldable pub apply :
        AppWorkload
        → String
        → Recommendation P
        → OptimizationPolicy P
        → W
        → Result ApplyError ApplyResult × W
    apply workload container_name rec p w =
        if use_ssa p
        then as_result server_side_apply true (apply_with_ssa workload container_name rec p w)
        else as_result strategic_merge_patch false
            (apply_with_strategic_merge workload container_name rec p w)
