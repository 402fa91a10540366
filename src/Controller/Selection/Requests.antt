-- ===== src/Controller/Selection/Requests.antt =====
-- How many requests a reconciliation sends for the workloads that it runs through.
use optipod.Prelude.{
  ◌≡◌, ◌∙◌, refl, ℕ, ◌+◌, ◌≤◌, String, some, List, [], ◌∷◌, length, Result, ok, err, arith,
}
use optipod.Platform.{Platform}
use optipod.Platform.Laws.{SortLaws}
use optipod.Cluster.{Workload}
use optipod.Api.Types.{OptimizationPolicy}
use optipod.Observability.Events.{Event}
use optipod.Observability.Collectors.{Collector}
use optipod.Controller.Processor.{ProcessError, WorkloadProcessor}
use optipod.Controller.Processor.Requests.{CountsPatches, count_of}
use optipod.Controller.Processor.Pods.{get_containers}
use optipod.Controller.Processor.Annotations.Attempts.{BackoffLaws}
use optipod.Controller.Processor.Process.{process_workload}
use optipod.Controller.Processor.Process.Requests.{process_workload-sent}
use optipod.Discovery.{DiscoveryError, discover_workloads}
use optipod.Controller.Retry.Requests.{KeepsCount, retry_update-keeps}
use optipod.Controller.StatusUpdates.{count_types, update_workload_type_counts}
use optipod.Controller.Selection.{
  Reconciler, count_error, processing_failed, discovery_failed, process_each, monitored,
  after_discovery, process_workloads_with_policy_selection,
}
use optipod.Controller.Selection.Runs.{Run, done, left, processed, failed, process_each-Run}

-- The containers of the workloads.
abbrev pub containers_of : List Workload → ℕ
containers_of [] = 0
containers_of (w ∷ ws) = count_of (get_containers w) + containers_of ws

-- Only a patch request of the processor counts, and its backoff behaves as documented.
pub record CountsRequests {P : Platform} {E W : Type 0} (rc : Reconciler P E W) (sent : W → ℕ)
    : Type 1 where
  pub recorder_keeps :
      (p : OptimizationPolicy P) (e : Event) (v : W) → sent (rc.recorder p e v) ≡ sent v
  pub inc_keeps :
      (c : Collector) (values : List String) (v : W) → sent (rc.meters.inc c values v) ≡ sent v
  pub set_keeps :
      (c : Collector) (values : List String) (n : ℕ) (v : W)
      → sent (rc.meters.set c values n v) ≡ sent v
  pub store_keeps : KeepsCount rc.store sent
  pub counts :
      (wp : WorkloadProcessor P E W)
      → rc.processor ≡ some wp
      → CountsPatches wp sent × BackoffLaws wp.backoff

module _ {P : Platform} (sorts : SortLaws P) {E W : Type 0} (rc : Reconciler P E W)
    (p : OptimizationPolicy P) (sent : W → ℕ) (laws : CountsRequests rc sent) where
  told-keeps :
      (w : Workload) (e : ProcessError) (v : W)
      → sent (count_error rc p.name "processing_error" (processing_failed rc p w e v)) ≡ sent v
  unfolding count_error processing_failed
  told-keeps w e v = laws.inc_keeps _ _ _ ∙ laws.recorder_keeps p _ v

  Run-sent :
      {ws : List Workload} {n : ℕ} {v u : W}
      → Run sorts rc p ws n v u
      → sent u ≤ sent v + containers_of ws
  Run-sent (done v) = omega arith
  Run-sent (left l r) = let rest = Run-sent r in omega arith
  Run-sent (processed {w = w} {v = v} wp best c e r) =
      let (counts, backoff) = laws.counts wp c.present in
      let one = process_workload-sent wp sent counts backoff w best v in
      let rest = Run-sent r in omega arith
  Run-sent (failed {w = w} {v = v} wp best e c q r) =
      let (counts, backoff) = laws.counts wp c.present in
      let one = process_workload-sent wp sent counts backoff w best v in
      let told = told-keeps w e (process_workload wp w best v).1 in
      let rest = Run-sent r in omega arith

  -- The run through the discovered workloads sends at most one request that applies a recommendation
  -- for each of their containers, however it ends for each workload. A patch request is assumed to
  -- count as one and no other call to count, and the backoff to behave as documented.
  pub process_each-sent :
      (ws : List Workload) (n : ℕ) (v : W)
      → sent (process_each rc p ws n v).1 ≤ sent v + containers_of ws
  process_each-sent ws n v = let (k, e, r) = process_each-Run sorts rc p ws n v in Run-sent r

  -- What the run through the workloads of the policy sends, from `v` to `u`.
  pub data IsRun (v : W) : W → Type 0 where
    undiscovered : {u : W} → sent u ≡ sent v → IsRun v u
    discovered :
        {u : W} (ws : List Workload)
        → discover_workloads (rc.reads v) p ≡ ok ws
        → sent u ≤ sent v + containers_of ws
        → IsRun v u

  discovery-IsRun :
      (d : Result DiscoveryError (List Workload)) (v : W)
      → discover_workloads (rc.reads v) p ≡ d
      → IsRun v (after_discovery rc p d v).1
  unfolding after_discovery discovery_failed count_error monitored update_workload_type_counts
  discovery-IsRun (err e) v h = undiscovered (laws.inc_keeps _ _ _ ∙ laws.recorder_keeps p _ v)
  discovery-IsRun (ok ws) v h =
      let written : W = (update_workload_type_counts rc.store p (count_types ws []) v).1 in
      let kept : sent written ≡ sent v =
        retry_update-keeps rc.store sent laws.store_keeps _ p _ v in
      let shown : sent (monitored rc p (length ws) written) ≡ sent written =
        laws.set_keeps _ _ (length ws) written in
      let bound = process_each-sent ws 0 (monitored rc p (length ws) written) in
      discovered ws h (omega arith)

  pub process_workloads-IsRun : (v : W) → IsRun v (process_workloads_with_policy_selection rc p v).1
  unfolding process_workloads_with_policy_selection
  process_workloads-IsRun v = discovery-IsRun _ v refl
