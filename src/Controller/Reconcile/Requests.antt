-- ===== src/Controller/Reconcile/Requests.antt =====
-- How many requests a whole reconciliation sends.
use optipod.Prelude.{
  ◌≡◌, ◌∙◌, refl, ℕ, ◌+◌, ◌≤◌, String, Option, none, some, List, Result, ok, err, arith,
}
use optipod.Platform.{Platform}
use optipod.Platform.Laws.{SortLaws}
use optipod.Cluster.{Workload, ApiError, not_found, conflict, forbidden, invalid, other_error}
use optipod.Api.Types.{OptimizationPolicy, Duration}
use optipod.Api.Validation.{ValidationError, validate_create}
use optipod.Observability.Events.{Event, EventRecorder, record_policy_validation_error}
use optipod.Observability.Collectors.{Collector}
use optipod.Discovery.{DiscoveryError, discover_workloads}
use optipod.Controller.Retry.{StatusError}
use optipod.Controller.Retry.Requests.{retry_update-keeps}
use optipod.Controller.StatusUpdates.{update_policy_status, update_policy_summary}
use optipod.Controller.Selection.{Reconciler, count_error}
use optipod.Controller.Selection.Requests.{
  CountsRequests, containers_of, IsRun, undiscovered, discovered, process_workloads-IsRun,
}
use optipod.Controller.Reconcile.{
  ReconcileError, after_summary, after_processing, after_ready, after_refusal, after_validation,
  after_fetch, record_validation_error, observe_duration, reconcile,
}

-- The observation of a duration and the events of the second recorder do not count either.
pub record CountsAll {P : Platform} {E W : Type 0} (rc : Reconciler P E W) (sent : W → ℕ)
    : Type 1 where
  pub requests : CountsRequests rc sent
  pub observe_keeps :
      (c : Collector) (values : List String) (d : Duration) (v : W)
      → sent (rc.meters.observe_seconds c values d v) ≡ sent v
  pub event_keeps :
      (er : EventRecorder (OptimizationPolicy P) W)
      → rc.event_recorder ≡ some er
      → (p : OptimizationPolicy P) (e : Event) (v : W) → sent (er.recorder p e v) ≡ sent v

module _ {P : Platform} (sorts : SortLaws P) {E W : Type 0} (rc : Reconciler P E W) (sent : W → ℕ)
    (laws : CountsAll rc sent) where
  -- From `v` to `u` nothing was sent, or the valid policy of the name was fetched, its workloads were
  -- discovered, and at most one request was sent for each of their containers.
  pub data IsFrugal (namespace name : String) (v : W) : W → Type 0 where
    idle : {u : W} → sent u ≡ sent v → IsFrugal namespace name v u
    busy :
        {u : W} (p : OptimizationPolicy P) (w : W) (ws : List Workload)
        → (rc.store.get namespace name v).0 ≡ ok p
        → validate_create p ≡ ok tt
        → discover_workloads (rc.reads w) p ≡ ok ws
        → sent u ≤ sent v + containers_of ws
        → IsFrugal namespace name v u

  counted : (policy kind : String) (v : W) → sent (count_error rc policy kind v) ≡ sent v
  unfolding count_error
  counted policy kind v = laws.requests.inc_keeps _ _ v

  told :
      (o : Option (EventRecorder (OptimizationPolicy P) W)) (p : OptimizationPolicy P)
      (e : ValidationError) (v : W)
      → rc.event_recorder ≡ o
      → sent (record_validation_error rc o p e v) ≡ sent v
  unfolding record_validation_error record_policy_validation_error
  told (some er) p e v h = laws.event_keeps er h p _ v
  told none p e v h = laws.requests.recorder_keeps p _ v

  module _ (namespace name : String) (v : W) where
    abbrev Frugal : Result ReconcileError Duration × W → Type 0
    Frugal r = IsFrugal namespace name v (r.1)

    summary_keeps :
        (p : OptimizationPolicy P) (n d : ℕ) (o : Option StatusError) (u : W)
        → sent (after_summary rc p n d o u).1 ≡ sent u
    unfolding after_summary
    summary_keeps p n d (some e) u = refl
    summary_keeps p n d none u = refl

    processing_keeps :
        (p : OptimizationPolicy P) (r : Result DiscoveryError (ℕ × ℕ)) (u : W)
        → sent (after_processing rc p r u).1 ≡ sent u
    unfolding after_processing update_policy_summary
    processing_keeps p (err e) u = refl
    processing_keeps p (ok (n, d)) u =
        summary_keeps p n d _ _ ∙ retry_update-keeps rc.store sent laws.requests.store_keeps _ p _ u

    run-Frugal :
        (p : OptimizationPolicy P) (w x u : W)
        → (rc.store.get namespace name v).0 ≡ ok p
        → validate_create p ≡ ok tt
        → sent w ≡ sent v
        → IsRun sorts rc p sent laws.requests w x
        → sent u ≡ sent x
        → IsFrugal namespace name v u
    run-Frugal p w x u found valid h (undiscovered k) l = idle (l ∙ (k ∙ h))
    run-Frugal p w x u found valid h (discovered ws d k) l = busy p w ws found valid d (omega arith)

    ready-Frugal :
        (p : OptimizationPolicy P) (o : Option StatusError) (w : W)
        → (rc.store.get namespace name v).0 ≡ ok p
        → validate_create p ≡ ok tt
        → sent w ≡ sent v
        → Frugal (after_ready rc p o w)
    unfolding after_ready
    ready-Frugal p (some e) w found valid h = idle h
    ready-Frugal p none w found valid h =
        run-Frugal p w _ _ found valid h (process_workloads-IsRun sorts rc p sent laws.requests w)
          (processing_keeps p _ _)

    refusal-Frugal :
        (p : OptimizationPolicy P) (e : ValidationError) (o : Option StatusError) (w : W)
        → sent w ≡ sent v
        → Frugal (after_refusal rc p e o w)
    unfolding after_refusal
    refusal-Frugal p e (some s) w h = idle h
    refusal-Frugal p e none w h = idle (counted _ _ _ ∙ (told _ p e w refl ∙ h))

    validation-Frugal :
        (p : OptimizationPolicy P) (r : Result {0, 0} ValidationError Unit) (w : W)
        → (rc.store.get namespace name v).0 ≡ ok p
        → validate_create p ≡ r
        → sent w ≡ sent v
        → Frugal (after_validation rc p r w)
    unfolding after_validation update_policy_status
    validation-Frugal p (err e) w found k h =
        refusal-Frugal p e _ _
          (retry_update-keeps rc.store sent laws.requests.store_keeps _ p _ w ∙ h)
    validation-Frugal p (ok tt) w found k h =
        ready-Frugal p _ _ found k
          (retry_update-keeps rc.store sent laws.requests.store_keeps _ p _ w ∙ h)

    fetch-Frugal :
        (r : Result ApiError (OptimizationPolicy P)) (w : W)
        → (rc.store.get namespace name v).0 ≡ r
        → sent w ≡ sent v
        → Frugal (after_fetch rc name r w)
    unfolding after_fetch
    fetch-Frugal (ok p) w k h = validation-Frugal p _ w k refl h
    fetch-Frugal (err not_found) w k h = idle h
    fetch-Frugal (err conflict) w k h = idle (counted _ _ w ∙ h)
    fetch-Frugal (err forbidden) w k h = idle (counted _ _ w ∙ h)
    fetch-Frugal (err invalid) w k h = idle (counted _ _ w ∙ h)
    fetch-Frugal (err other_error) w k h = idle (counted _ _ w ∙ h)

    IsFrugal-same :
        (u x : W) → sent x ≡ sent u → IsFrugal namespace name v u → IsFrugal namespace name v x
    IsFrugal-same u x k (idle h) = idle (k ∙ h)
    IsFrugal-same u x k (busy p w ws found valid d h) = busy p w ws found valid d (omega arith)

    -- A reconciliation sends no request that applies a recommendation, or its policy is fetched and
    -- valid, and it sends at most one for each container of the workloads that discovery returns for
    -- the policy, however it ends for each of them. A patch request of the processor is assumed to
    -- count as one and no other call to count, and the backoff to behave as documented.
    pub reconcile-IsFrugal : Frugal (reconcile rc namespace name v)
    unfolding reconcile observe_duration
    reconcile-IsFrugal =
        IsFrugal-same _ _ (laws.observe_keeps _ _ _ _)
          (fetch-Frugal _ _ refl (laws.requests.store_keeps.get_keeps namespace name v))
