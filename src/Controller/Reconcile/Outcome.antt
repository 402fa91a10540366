-- ===== src/Controller/Reconcile/Outcome.antt =====
-- What a reconciliation leads to.
use optipod.Prelude.{
  ◌≡◌, ◌≢◌, refl, ℕ, ◌*◌, ◌^◌, ◌≤◌, pos, ◌≤ℤ◌, String, Option, none, some, Result, ok, err,
}
use optipod.Platform.{Platform}
use optipod.Platform.FloatOrder.{FloatOrder, FractionLaws}
use optipod.Cluster.{ApiError}
use optipod.Api.Types.{OptimizationPolicy, Duration}
use optipod.Api.Validation.{ValidationError, validate_create}
use optipod.Discovery.{DiscoveryError}
use optipod.Controller.Retry.{StatusError}
use optipod.Controller.Requeue.{IsInterval, IsFraction, requeue_within}
use optipod.Controller.Processor.{WorkloadProcessor}
use optipod.Controller.Selection.{Reconciler, count_error}
use optipod.Controller.Reconcile.{
  ReconcileError, after_summary, after_processing, after_ready, after_validation, after_fetch,
  observe_duration, reconcile,
}

-- The time after which a policy comes again: between one and four intervals of `n` nanoseconds.
abbrev pub IsInTime : ℕ → Result ReconcileError Duration → Type 0
IsInTime n (err e) = Unit
IsInTime n (ok d) = (pos n ≤ℤ d) × (d ≤ℤ pos (n * 4))

module _ {P : Platform} {E W : Type 0} (rc : Reconciler P E W) where
  -- There is no policy, or it does not pass validation.
  abbrev pub IsRefused : Result ApiError (OptimizationPolicy P) → Type 0
  IsRefused (err e) = Unit
  IsRefused (ok p) = validate_create p ≢ ok tt

  validation_same :
      (o : Option (WorkloadProcessor P E W)) (p : OptimizationPolicy P)
      (r : Result {0, 0} ValidationError Unit) (v : W)
      → r ≢ ok tt
      → after_validation (record rc { processor = o }) p r v ≡ after_validation rc p r v
  unfolding after_validation count_error
  validation_same o p (err e) v h = refl
  validation_same o p (ok tt) v h = absurd (h refl)

  fetch_same :
      (o : Option (WorkloadProcessor P E W)) (name : String)
      (r : Result ApiError (OptimizationPolicy P)) (v : W)
      → IsRefused r
      → after_fetch (record rc { processor = o }) name r v ≡ after_fetch rc name r v
  unfolding after_fetch count_error
  fetch_same o name (err e) v h = refl
  fetch_same o name (ok p) v h = validation_same o p (validate_create p) v h

  -- With any other processor of workloads, or with none, the answer and the state are the same where
  -- the policy is not fetched or does not pass validation: no workload is processed then.
  pub reconcile-with_processor :
      (o : Option (WorkloadProcessor P E W)) (namespace name : String) (v : W)
      → IsRefused (rc.store.get namespace name v).0
      → reconcile (record rc { processor = o }) namespace name v ≡ reconcile rc namespace name v
  unfolding reconcile observe_duration
  reconcile-with_processor o namespace name v h = rw (fetch_same o name _ _ h)

  module _ (fo : FloatOrder P) (fractions : FractionLaws fo) (p : OptimizationPolicy P) (n : ℕ)
      (is : IsInterval p n) (small : n ≤ 2 ^ 53)
      (random : (v : W) → IsFraction fo fractions (rc.random v)) where
    summary-IsInTime :
        (processed discovered : ℕ) (o : Option StatusError) (v : W)
        → IsInTime n (after_summary rc p processed discovered o v).0
    unfolding after_summary
    summary-IsInTime processed discovered (some e) v = tt
    summary-IsInTime processed discovered none v =
        requeue_within fo fractions p (pos discovered) (pos processed) (rc.random v) n is small
          (random v)

    processing-IsInTime :
        (r : Result DiscoveryError (ℕ × ℕ)) (v : W) → IsInTime n (after_processing rc p r v).0
    unfolding after_processing
    processing-IsInTime (err e) v = tt
    processing-IsInTime (ok (processed, discovered)) v = summary-IsInTime processed discovered _ _

    ready-IsInTime : (o : Option StatusError) (v : W) → IsInTime n (after_ready rc p o v).0
    unfolding after_ready
    ready-IsInTime (some e) v = tt
    ready-IsInTime none v = processing-IsInTime _ _

    fetch-IsInTime :
        (name : String) (r : Result ApiError (OptimizationPolicy P)) (v : W)
        → r ≡ ok p
        → validate_create p ≡ ok tt
        → IsInTime n (after_fetch rc name r v).0
    unfolding after_fetch after_validation
    fetch-IsInTime name r v h valid =
        rw (h, valid, after_fetch, after_validation) (ready-IsInTime _ _)

    -- A policy that is fetched and passes validation comes again after at least one and at most four
    -- of its intervals, five minutes being the interval of one that has none, or the reconciliation
    -- returns an error. The interval is at most 2^53 nanoseconds (104 days). The random numbers are
    -- assumed to lie from 0 to 1, and the rounding of float64 to keep to the bounds.
    pub reconcile-IsInTime :
        (namespace name : String) (v : W)
        → (rc.store.get namespace name v).0 ≡ ok p
        → validate_create p ≡ ok tt
        → IsInTime n (reconcile rc namespace name v).0
    unfolding reconcile observe_duration
    reconcile-IsInTime namespace name v h valid = fetch-IsInTime name _ _ h valid
