-- ===== src/Observability/Events.antt =====
-- internal/observability/events.go: `EventRecorder`, one function per method. The text of an error is
-- an argument, and so is the decimal text of a number.
use Prim.Native.String.{◌++◌}
use optipod.Prelude.{ℤ, String, str_eq, if◌then◌else◌}

-- `corev1.EventTypeNormal` and `corev1.EventTypeWarning`.
pub data EventType : Type 0 where
  event_normal event_warning : EventType

-- What a call of `Event` on the Kubernetes recorder says.
pub record Event : Type 0 where
  pub type : EventType
  pub reason : String
  pub message : String

abbrev pub event : EventType → String → String → Event
event t reason message = record { type = t; reason = reason; message = message }

-- The Kubernetes recorder, over the objects that events are about.
pub record EventRecorder (O W : Type 0) : Type 0 where
  pub recorder : O → Event → W → W

abbrev pub new_event_recorder : {O W : Type 0} → (O → Event → W → W) → EventRecorder O W
new_event_recorder recorder = record { recorder = recorder }

abbrev pub event_reason_ssa_ownership_taken : String
event_reason_ssa_ownership_taken = "SSAOwnershipTaken"

abbrev pub event_reason_ssa_conflict : String
event_reason_ssa_conflict = "SSAConflict"

-- `%s/%s` of the namespace and the name of a workload.
abbrev pub slashed : String → String → String
slashed namespace workload_name = namespace ++ "/" ++ workload_name

module _ {O W : Type 0} (er : EventRecorder O W) (object : O) where
  unfoldable pub record_workload_update_success : String → String → String → W → W
  record_workload_update_success workload_name namespace method = er.recorder object (
      event event_normal "UpdateSuccess" (
        "Successfully updated resource requests for workload "
        ++ slashed namespace workload_name
        ++ " using "
        ++ method
        ++ " method"))

  unfoldable pub record_workload_update_failure : String → String → String → W → W
  record_workload_update_failure workload_name namespace error = er.recorder object (
      event event_warning "UpdateFailed" (
        "Failed to update workload "
        ++ slashed namespace workload_name
        ++ ": "
        ++ error
        ++ ". Suggestion: Check RBAC permissions and ensure the workload exists"))

  unfoldable pub record_policy_validation_error : String → String → W → W
  record_policy_validation_error policy_name error = er.recorder object (
      event event_warning "ValidationFailed" (
        "Policy validation failed for " ++ policy_name ++ ": " ++ error
        ++ ". Suggestion: Review policy configuration and ensure all required fields are valid"))

  unfoldable pub record_metrics_collection_error : String → String → String → String → W → W
  record_metrics_collection_error workload_name namespace provider error = er.recorder object (
      event event_warning "MetricsCollectionFailed" (
        "Failed to collect metrics for workload "
        ++ slashed namespace workload_name
        ++ " from "
        ++ provider
        ++ ": "
        ++ error
        ++ ". Suggestion: Verify metrics provider is accessible and workload has sufficient runtime data"))

  unfoldable pub record_rbac_error : String → String → String → W → W
  record_rbac_error workload_name namespace operation = er.recorder object (
      event event_warning "RBACError" (
        "Insufficient RBAC permissions to "
        ++ operation
        ++ " workload "
        ++ slashed namespace workload_name
        ++ ". Suggestion: Grant OptiPod service account appropriate permissions (get, list, patch, update) for this resource type"))

  unfoldable pub record_in_place_resize_unavailable : String → String → W → W
  record_in_place_resize_unavailable workload_name namespace = er.recorder object (
      event event_warning "InPlaceResizeUnavailable" (
        "In-place resize not available for workload "
        ++ slashed namespace workload_name
        ++ ". Suggestion: Enable InPlacePodVerticalScaling feature gate or allow recreate strategy in policy"))

  unfoldable pub record_recommendation_generated : (ℤ → String) → String → String → ℤ → W → W
  record_recommendation_generated decimal workload_name namespace container_count =
      er.recorder object (
        event event_normal "RecommendationGenerated" (
          "Generated resource recommendations for "
          ++ decimal container_count
          ++ " container(s) in workload "
          ++ slashed namespace workload_name))

  unfoldable pub record_workload_skipped : String → String → String → W → W
  record_workload_skipped workload_name namespace reason = er.recorder object (
      event event_normal "WorkloadSkipped"
        ("Skipped workload " ++ slashed namespace workload_name ++ ": " ++ reason))

  unfoldable pub record_ssa_ownership_taken : String → String → String → W → W
  record_ssa_ownership_taken workload_name namespace previous_owner =
      let taken =
        "Took ownership of resource fields for workload "
        ++ slashed namespace workload_name
        ++ " via Server-Side Apply" in
      er.recorder object (
        event event_normal event_reason_ssa_ownership_taken (
          if str_eq previous_owner ""
          then taken
          else taken ++ " (previous owner: " ++ previous_owner ++ ")"))

  unfoldable pub record_ssa_conflict : String → String → String → String → W → W
  record_ssa_conflict workload_name namespace conflicting_manager error = er.recorder object (
      event event_warning event_reason_ssa_conflict (
        "Server-Side Apply conflict for workload "
        ++ slashed namespace workload_name
        ++ ": field manager '"
        ++ conflicting_manager
        ++ "' owns conflicting fields. Error: "
        ++ error
        ++ ". Suggestion: Review field ownership or enable Force flag to take ownership"))
