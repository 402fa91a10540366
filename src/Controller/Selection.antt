-- ===== src/Controller/Selection.antt =====
-- internal/controller/optimizationpolicy_controller.go: the discovered workloads, each processed with
-- its best policy where that is the one under reconciliation.
pub mod Runs
pub mod Requests
pub mod Processors
use Prim.Native.String.{◌++◌}
use optipod.Prelude.{
  ℕ, zero, suc, String, str_eq, Bool, true, false, Option, none, some, List, [], ◌∷◌, length,
  Result, ok, err, if◌then◌else◌,
}
use optipod.Platform.{Platform}
use optipod.Cluster.{Workload, Client}
use optipod.Api.Types.{OptimizationPolicy, Time}
use optipod.Api.Validation.{ValidationError}
use optipod.Observability.Events.{Event, event, event_warning, EventRecorder, slashed}
use optipod.Observability.Collectors.{Meters, reconciliation_errors, workloads_monitored}
use optipod.Discovery.{DiscoveryError, discover_workloads}
use optipod.Selector.{SelectionError, select_best_policy}
use optipod.Controller.Retry.{PolicyStore}
use optipod.Controller.StatusUpdates.{count_types, update_workload_type_counts}
use optipod.Controller.Processor.{ProcessError, WorkloadProcessor}
use optipod.Controller.Processor.Process.{process_workload}

-- `OptimizationPolicyReconciler`: the reads of its client in a state, the policies that it writes, the
-- processor, which may be nil, and the two recorders of events, of which the second may be nil. The
-- collectors of the metrics are global, the random number is the next of the generator, and the texts
-- are those that the errors print.
pub record Reconciler (P : Platform) (E W : Type 0) : Type 1 where
  pub reads : W → Client P
  pub store : PolicyStore P W
  pub processor : Option (WorkloadProcessor P E W)
  pub recorder : OptimizationPolicy P → Event → W → W
  pub event_recorder : Option (EventRecorder (OptimizationPolicy P) W)
  pub meters : Meters W
  pub now : W → Time
  pub random : W → P.Float
  pub validation_text : ValidationError → String
  pub discovery_text : DiscoveryError → String
  pub process_text : ProcessError → String

-- `ReconciliationErrors` counts an error of the policy by its kind.
unfoldable pub count_error :
    {P : Platform} {E W : Type 0} → Reconciler P E W → String → String → W → W
count_error rc policy kind = rc.meters.inc reconciliation_errors (policy ∷ kind ∷ [])

module _ {P : Platform} {E W : Type 0} (rc : Reconciler P E W)
    (triggering : OptimizationPolicy P) where
  unfoldable pub processing_failed : Workload → ProcessError → W → W
  processing_failed w e = rc.recorder triggering (
      event event_warning "ProcessingFailed"
        ("Failed to process workload " ++ slashed w.namespace w.name ++ ": " ++ rc.process_text e))

  unfoldable pub discovery_failed : DiscoveryError → W → W
  discovery_failed e = rc.recorder triggering (
      event event_warning "DiscoveryFailed"
        ("Failed to discover workloads: " ++ rc.discovery_text e))

  -- Whether the workload counts as processed.
  after_process_workload : Workload → Option ProcessError → W → Bool × W
  after_process_workload w none v = (true, v)
  after_process_workload w (some e) v =
      (false, count_error rc triggering.name "processing_error" (processing_failed w e v))

  process_with : Option (WorkloadProcessor P E W) → Workload → OptimizationPolicy P → W → Bool × W
  unfolding after_process_workload
  process_with none w best v = (false, v)
  process_with (some wp) w best v =
      let done = process_workload wp w best v in after_process_workload w (done.0).error (done.1)

  -- The policies are told apart by their names.
  after_select_best_policy : Workload → Result SelectionError (OptimizationPolicy P) → W → Bool × W
  unfolding process_with
  after_select_best_policy w (err e) v = (false, v)
  after_select_best_policy w (ok best) v =
      let done = process_with rc.processor w best v in
      if str_eq best.name triggering.name then done else (false, v)

  -- One round of the loop.
  unfoldable pub process_one : Workload → W → Bool × W
  unfolding after_select_best_policy
  process_one w v = after_select_best_policy w (select_best_policy (rc.reads v) w) v

  -- The loop, with the count of processed workloads.
  unfoldable pub process_each : List Workload → ℕ → W → ℕ × W
  process_each [] n v = (n, v)
  process_each (w ∷ ws) n v =
      let one = process_one w v in process_each ws (if one.0 then suc n else n) (one.1)

  -- `WorkloadsMonitored` shows the number of workloads of the policy.
  unfoldable pub monitored : ℕ → W → W
  monitored n = rc.meters.set workloads_monitored (triggering.namespace ∷ triggering.name ∷ []) n

  after_discovery : Result DiscoveryError (List Workload) → W → Result DiscoveryError (ℕ × ℕ) × W
  after_discovery (err e) v =
      (err e, count_error rc triggering.name "discovery_error" (discovery_failed e v))
  after_discovery (ok ws) v =
      let counted = update_workload_type_counts rc.store triggering (count_types ws []) v in
      let done = process_each ws 0 (monitored (length ws) (counted.1)) in
      (ok (done.0, length ws), done.1)

  -- The numbers of processed and of discovered workloads. An error of the count by type is dropped.
  unfoldable pub process_workloads_with_policy_selection : W → Result DiscoveryError (ℕ × ℕ) × W
  unfolding after_discovery
  process_workloads_with_policy_selection v =
      after_discovery (discover_workloads (rc.reads v) triggering) v
