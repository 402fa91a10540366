-- ===== src/Controller/Processor/Process.antt =====
-- `ProcessWorkload`: the steps in their order, each with the status that it leaves.
pub mod Modes
pub mod Requests
pub mod Outcome
pub mod Bounds
pub mod DryRun
use optipod.Prelude.{
  String, str_eq, Bool, true, false, not, Option, none, some, List, [], ◌∷◌, is_empty, Result, ok,
  err, if◌then◌else◌,
}
use optipod.Platform.{Platform}
use optipod.Cluster.{Workload, Object}
use optipod.Api.Types.{
  OptimizationPolicy, ContainerRecommendation, mode_auto, mode_recommend, mode_disabled,
}
use optipod.Recommendation.{Recommendation}
use optipod.Application.Values.{AppWorkload}
use optipod.Application.Decision.{ApplyDecision, DecisionError, can_apply}
use optipod.Application.Apply.{ApplyResult, ApplyError, apply}
use optipod.Controller.Processor.{
  Status, status_unset, status_skipped, status_error, status_recommended, status_applied,
  AnnotationError, BackoffError, MetricsFault, WorkloadClient, ProcessError, unknown_mode,
  nil_dereference, annotations_failed, decision_failed, application_failed, Reason, no_reason,
  policy_disabled, recommended_only, applied_successfully, missing_metrics, failed, decided,
  WorkloadStatus, WorkloadProcessor,
}
use optipod.Controller.Processor.Statuses.{
  Processed, fresh_status, finished, stopped, conclude, app_recommendation,
}
use optipod.Controller.Processor.Pods.{get_containers, convert_to_application_workload}
use optipod.Controller.Processor.Annotations.{add_recommendation_annotations}
use optipod.Controller.Processor.Collect.{Gathered, nothing_gathered, gather_all}

module _ {P : Platform} {E W : Type 0} (wp : WorkloadProcessor P E W) where
  -- After an application: the time is set with the last container only.
  after_apply :
      String
      → Bool
      → Result ApplyError ApplyResult
      → (Option ApplyResult → WorkloadStatus P E → W → Processed P E × W)
      → WorkloadStatus P E
      → W
      → Processed P E × W
  after_apply container last (err e) more st v = (stopped (application_failed container e) st, v)
  after_apply container last (ok r) more st v =
      more (some r) (if last then record st { last_applied = some (wp.clock.now v) } else st) v

  after_decision :
      AppWorkload
      → String
      → Recommendation P
      → OptimizationPolicy P
      → Bool
      → Result DecisionError ApplyDecision
      → (Option ApplyResult → WorkloadStatus P E → W → Processed P E × W)
      → WorkloadStatus P E
      → W
      → Processed P E × W
  unfolding after_apply
  after_decision app container rec p last (err e) more st v = (stopped (decision_failed e) st, v)
  after_decision app container rec p last (ok d) more st v =
      let done = apply wp.effects wp.engine.accessors app container rec p v in
      if d.can_apply
      then after_apply container last (done.0) more st (done.1)
      else (finished status_skipped (decided d.reason) st, v)

  -- A conversion that failed ends the loop, and so does a recommendation without a quantity.
  after_convert :
      Result ProcessError AppWorkload
      → Option (Recommendation P)
      → OptimizationPolicy P
      → String
      → Bool
      → (Option ApplyResult → WorkloadStatus P E → W → Processed P E × W)
      → WorkloadStatus P E
      → W
      → Processed P E × W
  unfolding after_decision
  after_convert (err e) rec p container last more st v = (stopped e st, v)
  after_convert (ok app) none p container last more st v = (stopped nil_dereference st, v)
  after_convert (ok app) (some rec) p container last more st v =
      after_decision app container rec p last (can_apply wp.engine app rec p) more st v

  unfoldable pub apply_all :
      Workload
      → OptimizationPolicy P
      → List (ContainerRecommendation P)
      → Option ApplyResult
      → WorkloadStatus P E
      → W
      → Processed P E × W
  unfolding after_convert
  apply_all w p [] result st v = (conclude result st, v)
  apply_all w p (r ∷ rest) result st v =
      after_convert (convert_to_application_workload wp.to_unstructured w) (app_recommendation r) p
        r.container (is_empty rest) (apply_all w p rest) st v

  -- With all metrics there: the mode decides whether the recommendations are applied.
  after_annotations :
      Workload
      → OptimizationPolicy P
      → Option (BackoffError AnnotationError)
      → Object
      → WorkloadStatus P E
      → W
      → Processed P E × W
  unfolding apply_all
  after_annotations w p (some e) obj st v = (stopped (annotations_failed e) st, v)
  after_annotations w p none obj st v =
      if str_eq p.spec.mode mode_recommend
      then (finished status_recommended recommended_only st, v)
      else if str_eq p.spec.mode mode_auto
      then apply_all (record w { object = obj }) p st.recommendations none st v
      else (record { status = some st; error = none }, v)

  -- Annotations are written where there is a client.
  annotate_and_apply :
      Option (WorkloadClient W)
      → Workload
      → OptimizationPolicy P
      → WorkloadStatus P E
      → W
      → Processed P E × W
  unfolding after_annotations
  annotate_and_apply none w p st v = after_annotations w p none w.object st v
  annotate_and_apply (some c) w p st v =
      let written =
        add_recommendation_annotations wp.clock wp.backoff (some c) p st.recommendations
          (w.object, v) in
      after_annotations w p (written.0) ((written.1).0) st ((written.1).1)

  -- A fault of the metrics prevents every change.
  after_fault :
      Option (MetricsFault E)
      → Workload
      → OptimizationPolicy P
      → WorkloadStatus P E
      → W
      → Processed P E × W
  unfolding annotate_and_apply
  after_fault (some f) w p st v = (finished status_skipped (missing_metrics f) st, v)
  after_fault none w p st v = annotate_and_apply wp.client w p st v

  after_gathering :
      Result ProcessError (Gathered P E) → Workload → OptimizationPolicy P → W → Processed P E × W
  unfolding after_fault
  after_gathering (err e) w p v = (stopped e (fresh_status w), v)
  after_gathering (ok g) w p v =
      after_fault g.fault w p
        (record (fresh_status w) {
          recommendations = g.recommendations;
          last_recommendation = some (wp.clock.now v);
        })
        v

  after_containers :
      Result ProcessError (List String) → Workload → OptimizationPolicy P → W → Processed P E × W
  unfolding after_gathering
  after_containers (err e) w p v = (stopped e (fresh_status w), v)
  after_containers (ok cs) w p v =
      let gathered = gather_all wp w p cs nothing_gathered v in
      after_gathering (gathered.0) w p (gathered.1)

  -- The switch on the mode.
  unfoldable pub process_workload : Workload → OptimizationPolicy P → W → Processed P E × W
  unfolding after_containers
  process_workload w p v =
      if str_eq p.spec.mode mode_disabled
      then (finished status_skipped policy_disabled (fresh_status w), v)
      else if str_eq p.spec.mode mode_recommend
      then after_containers (get_containers w) w p v
      else if str_eq p.spec.mode mode_auto
      then after_containers (get_containers w) w p v
      else (record { status = none; error = some (unknown_mode p.spec.mode) }, v)
