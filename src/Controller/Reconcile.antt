-- ===== src/Controller/Reconcile.antt =====
-- internal/controller/optimizationpolicy_controller.go: `Reconcile`, the whole of one reconciliation.
pub mod Outcome
pub mod Answers
pub mod Processors
pub mod DryRun
pub mod Engines
pub mod Requests
use Prim.Native.String.{◌++◌}
use optipod.Prelude.{ℕ, pos, ◌-ℤ◌, String, Option, none, some, [], ◌∷◌, Result, ok, err}
use optipod.Platform.{Platform}
use optipod.Cluster.{ApiError, not_found}
use optipod.Api.Types.{OptimizationPolicy, Condition, Duration, Time}
use optipod.Api.Validation.{ValidationError, validate_create}
use optipod.Observability.Events.{
  event, event_warning, EventRecorder, record_policy_validation_error,
}
use optipod.Observability.Collectors.{reconciliation_duration}
use optipod.Discovery.{DiscoveryError}
use optipod.Controller.Retry.{StatusError}
use optipod.Controller.Requeue.{calculate_requeue_interval}
use optipod.Controller.StatusUpdates.{update_policy_status, update_policy_summary}
use optipod.Controller.Selection.{Reconciler, count_error, process_workloads_with_policy_selection}

pub data ReconcileError : Type 0 where
  fetch_failed : ApiError → ReconcileError
  status_failed : StatusError → ReconcileError
  processing_failed : DiscoveryError → ReconcileError

abbrev invalid_condition : String → Time → Condition
invalid_condition text now = record {
  type = "Ready";
  status = "False";
  reason = "ValidationFailed";
  message = "Policy validation failed: " ++ text;
  last_transition_time = now;
}

abbrev ready_condition : Time → Condition
ready_condition now = record {
  type = "Ready";
  status = "True";
  reason = "PolicyValid";
  message = "Policy is active and processing workloads";
  last_transition_time = now;
}

module _ {P : Platform} {E W : Type 0} (rc : Reconciler P E W) where
  abbrev pub validate_policy : OptimizationPolicy P → Result {0, 0} ValidationError Unit
  validate_policy p = validate_create p

  -- What is returned: an error, or the time after which the policy comes again, 0 for never.
  abbrev Answer : Type 0
  Answer = Result ReconcileError Duration × W

  after_summary : OptimizationPolicy P → ℕ → ℕ → Option StatusError → W → Answer
  after_summary p processed discovered (some e) v = (err (status_failed e), v)
  after_summary p processed discovered none v =
      (ok (calculate_requeue_interval p (pos discovered) (pos processed) (rc.random v)), v)

  after_processing : OptimizationPolicy P → Result DiscoveryError (ℕ × ℕ) → W → Answer
  unfolding after_summary
  after_processing p (err e) v = (err (processing_failed e), v)
  after_processing p (ok (processed, discovered)) v =
      let summary = update_policy_summary rc.store rc.now p (pos discovered) (pos processed) v in
      after_summary p processed discovered (summary.0) (summary.1)

  after_ready : OptimizationPolicy P → Option StatusError → W → Answer
  unfolding after_processing
  after_ready p (some e) v = (err (status_failed e), v)
  after_ready p none v =
      let done = process_workloads_with_policy_selection rc p v in
      after_processing p (done.0) (done.1)

  -- The event goes to the first recorder that is set.
  unfoldable pub record_validation_error :
      Option (EventRecorder (OptimizationPolicy P) W)
      → OptimizationPolicy P
      → ValidationError
      → W
      → W
  unfolding record_policy_validation_error
  record_validation_error (some er) p e v =
      record_policy_validation_error er p p.name (rc.validation_text e) v
  record_validation_error none p e v =
      rc.recorder p
        (event event_warning "ValidationFailed"
          ("Policy validation failed: " ++ rc.validation_text e))
        v

  after_refusal : OptimizationPolicy P → ValidationError → Option StatusError → W → Answer
  unfolding record_validation_error
  after_refusal p e (some s) v = (err (status_failed s), v)
  after_refusal p e none v = (
    ok (pos 0),
    count_error rc p.name "validation_error" (record_validation_error rc.event_recorder p e v),
  )

  after_validation : OptimizationPolicy P → Result {0, 0} ValidationError Unit → W → Answer
  unfolding after_refusal after_ready
  after_validation p (err e) v =
      let status =
        update_policy_status rc.store p (invalid_condition (rc.validation_text e) (rc.now v)) v in
      after_refusal p e (status.0) (status.1)
  after_validation p (ok _) v =
      let status = update_policy_status rc.store p (ready_condition (rc.now v)) v in
      after_ready p (status.0) (status.1)

  after_fetch : String → Result ApiError (OptimizationPolicy P) → W → Answer
  unfolding after_validation
  after_fetch name (err not_found) v = (ok (pos 0), v)
  after_fetch name (err e) v = (err (fetch_failed e), count_error rc name "fetch_error" v)
  after_fetch name (ok p) v = after_validation p (validate_policy p) v

  -- The deferred observation of the duration.
  observe_duration : String → W → Answer → Answer
  observe_duration name start (answer, v) = (
    answer,
    rc.meters.observe_seconds reconciliation_duration (name ∷ []) (rc.now v -ℤ rc.now start) v,
  )

  unfoldable pub reconcile : String → String → W → Answer
  unfolding after_fetch observe_duration
  reconcile namespace name v =
      let fetched = rc.store.get namespace name v in
      observe_duration name v (after_fetch name (fetched.0) (fetched.1))
