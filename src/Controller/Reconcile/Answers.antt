-- ===== src/Controller/Reconcile/Answers.antt =====
-- What a reconciliation answers, and what has been done then.
use mathlib.Core.Path.{subst}
use optipod.Prelude.{
  ◌≡◌, ◌≢◌, refl, ap, ℕ, pos, ◌-ℤ◌, String, Option, none, some, [], ◌∷◌, Result, ok, err,
}
use optipod.Platform.{Platform}
use optipod.Platform.Laws.{SortLaws}
use optipod.Cluster.{ApiError, not_found, conflict, forbidden, invalid, other_error}
use optipod.Api.Types.{OptimizationPolicy, Condition, Duration}
use optipod.Api.Validation.{ValidationError, validate_create}
use optipod.Observability.Collectors.{reconciliation_duration}
use optipod.Discovery.{DiscoveryError}
use optipod.Discovery.Sound.{ReadLaws}
use optipod.Controller.Requeue.{calculate_requeue_interval}
use optipod.Controller.Retry.{StatusError}
use optipod.Controller.StatusUpdates.{update_policy_status, update_policy_summary}
use optipod.Controller.StatusUpdates.Confirmed.{IsConfirmed, update_policy_status-IsConfirmed}
use optipod.Controller.Selection.{Reconciler, count_error}
use optipod.Controller.Selection.Runs.{IsSelectionOutcome, process_workloads-IsSelectionOutcome}
use optipod.Controller.Reconcile.{
  ReconcileError, fetch_failed, status_failed, processing_failed, invalid_condition,
  ready_condition, record_validation_error, after_summary, after_processing, after_ready,
  after_refusal, after_validation, after_fetch, observe_duration, reconcile,
}

module _ {P : Platform} (sorts : SortLaws P) {E W : Type 0} (rc : Reconciler P E W) where
  -- A status update without an error, and what it has confirmed.
  pub record IsWritten (p : OptimizationPolicy P) (c : Condition) (v u : W) : Type 0 where
    pub without_error : update_policy_status rc.store p c v ≡ (none, u)
    pub confirmed : IsConfirmed rc.store p c v u

  -- The condition that the status of a policy is to show, by whether it is valid.
  pub data Says (p : OptimizationPolicy P) (v : W) : Condition → Type 0 where
    says_invalid :
        (e : ValidationError)
        → validate_create p ≡ err e
        → Says p v (invalid_condition (rc.validation_text e) (rc.now v))
    says_ready : validate_create p ≡ ok tt → Says p v (ready_condition (rc.now v))

  -- A policy that is fetched and valid, and whose status says so.
  pub record IsReady (namespace name : String) (p : OptimizationPolicy P) (v u : W) : Type 0 where
    pub found : (rc.store.get namespace name v).0 ≡ ok p
    pub valid : validate_create p ≡ ok tt
    pub written :
        IsWritten p
          (ready_condition (rc.now (rc.store.get namespace name v).1))
          (rc.store.get namespace name v).1
          u

  -- The answers, with the state before the duration is observed.
  pub data IsAnswer (namespace name : String) (v : W)
      : Result ReconcileError Duration → W → Type 1 where
    gone :
        (rc.store.get namespace name v).0 ≡ err not_found
        → IsAnswer namespace name v (ok (pos 0)) (rc.store.get namespace name v).1
    unfetched :
        (e : ApiError)
        → (rc.store.get namespace name v).0 ≡ err e
        → e ≢ not_found
        → IsAnswer namespace name v
            (err (fetch_failed e))
            (count_error rc name "fetch_error" (rc.store.get namespace name v).1)
    refused :
        (p : OptimizationPolicy P) (e : ValidationError) (u : W)
        → (rc.store.get namespace name v).0 ≡ ok p
        → validate_create p ≡ err e
        → IsWritten p
            (invalid_condition (rc.validation_text e) (rc.now (rc.store.get namespace name v).1))
            (rc.store.get namespace name v).1
            u
        → IsAnswer namespace name v (ok (pos 0)) (
            count_error rc p.name "validation_error"
              (record_validation_error rc rc.event_recorder p e u))
    unwritten :
        (p : OptimizationPolicy P) (c : Condition) (s : StatusError) (u : W)
        → (rc.store.get namespace name v).0 ≡ ok p
        → Says p (rc.store.get namespace name v).1 c
        → update_policy_status rc.store p c (rc.store.get namespace name v).1 ≡ (some s, u)
        → IsAnswer namespace name v (err (status_failed s)) u
    undiscovered :
        (p : OptimizationPolicy P) (e : DiscoveryError) (w u : W)
        → IsReady namespace name p v w
        → IsSelectionOutcome sorts rc p w (err e) u
        → IsAnswer namespace name v (err (processing_failed e)) u
    unsummarized :
        (p : OptimizationPolicy P) (processed discovered : ℕ) (s : StatusError) (w x u : W)
        → IsReady namespace name p v w
        → IsSelectionOutcome sorts rc p w (ok (processed, discovered)) x
        → update_policy_summary rc.store rc.now p (pos discovered) (pos processed) x ≡ (some s, u)
        → IsAnswer namespace name v (err (status_failed s)) u
    reconciled :
        (p : OptimizationPolicy P) (processed discovered : ℕ) (w x u : W)
        → IsReady namespace name p v w
        → IsSelectionOutcome sorts rc p w (ok (processed, discovered)) x
        → update_policy_summary rc.store rc.now p (pos discovered) (pos processed) x ≡ (none, u)
        → IsAnswer namespace name v
            (ok (calculate_requeue_interval p (pos discovered) (pos processed) (rc.random u)))
            u

  module _ (reads : (v : W) → ReadLaws (rc.reads v)) (namespace name : String) (v : W) where
    abbrev fetched : W
    fetched = (rc.store.get namespace name v).1

    -- What a step after the fetch answers.
    abbrev Answers : Result ReconcileError Duration × W → Type 1
    Answers r = IsAnswer namespace name v (r.0) (r.1)

    written :
        (p : OptimizationPolicy P) (c : Condition) (u : W)
        → update_policy_status rc.store p c fetched ≡ (none, u)
        → IsWritten p c fetched u
    written p c u h =
        let confirmed = update_policy_status-IsConfirmed rc.store p c fetched (ap (λ r. r.0) h) in
        record {
          without_error = h;
          confirmed = subst (IsConfirmed rc.store p c fetched) (ap (λ r. r.1) h) confirmed;
        }

    summary-Answers :
        (p : OptimizationPolicy P) (processed discovered : ℕ) (w x : W) (o : Option StatusError)
        (u : W)
        → IsReady namespace name p v w
        → IsSelectionOutcome sorts rc p w (ok (processed, discovered)) x
        → update_policy_summary rc.store rc.now p (pos discovered) (pos processed) x ≡ (o, u)
        → Answers (after_summary rc p processed discovered o u)
    unfolding after_summary
    summary-Answers p n d w x (some s) u ready s_o h = unsummarized p n d s w x u ready s_o h
    summary-Answers p n d w x none u ready s_o h = reconciled p n d w x u ready s_o h

    processing-Answers :
        (p : OptimizationPolicy P) (r : Result DiscoveryError (ℕ × ℕ)) (w x : W)
        → IsReady namespace name p v w
        → IsSelectionOutcome sorts rc p w r x
        → Answers (after_processing rc p r x)
    unfolding after_processing
    processing-Answers p (err e) w x ready s_o = undiscovered p e w x ready s_o
    processing-Answers p (ok (n, d)) w x ready s_o = summary-Answers p n d w x _ _ ready s_o refl

    ready-Answers :
        (p : OptimizationPolicy P) (o : Option StatusError) (u : W)
        → (rc.store.get namespace name v).0 ≡ ok p
        → validate_create p ≡ ok tt
        → update_policy_status rc.store p (ready_condition (rc.now fetched)) fetched ≡ (o, u)
        → Answers (after_ready rc p o u)
    unfolding after_ready
    ready-Answers p (some s) u found valid h = unwritten p _ s u found (says_ready valid) h
    ready-Answers p none u found valid h =
        processing-Answers p _ u _
          (record { found = found; valid = valid; written = written p _ u h })
          (process_workloads-IsSelectionOutcome sorts rc p u (reads u))

    refusal-Answers :
        (p : OptimizationPolicy P) (e : ValidationError) (o : Option StatusError) (u : W)
        → (rc.store.get namespace name v).0 ≡ ok p
        → validate_create p ≡ err e
        → update_policy_status rc.store p
            (invalid_condition (rc.validation_text e) (rc.now fetched))
            fetched
          ≡ (o, u)
        → Answers (after_refusal rc p e o u)
    unfolding after_refusal
    refusal-Answers p e (some s) u found invalid_ h =
        unwritten p _ s u found (says_invalid e invalid_) h
    refusal-Answers p e none u found invalid_ h = refused p e u found invalid_ (written p _ u h)

    validation-Answers :
        (p : OptimizationPolicy P) (r : Result {0, 0} ValidationError Unit)
        → (rc.store.get namespace name v).0 ≡ ok p
        → validate_create p ≡ r
        → Answers (after_validation rc p r fetched)
    unfolding after_validation
    validation-Answers p (err e) found h = refusal-Answers p e _ _ found h refl
    validation-Answers p (ok tt) found h = ready-Answers p _ _ found h refl

    fetch-Answers :
        (r : Result ApiError (OptimizationPolicy P))
        → (rc.store.get namespace name v).0 ≡ r
        → Answers (after_fetch rc name r fetched)
    unfolding after_fetch
    fetch-Answers (ok p) h = validation-Answers p _ h refl
    fetch-Answers (err not_found) h = gone h
    fetch-Answers (err conflict) h = unfetched conflict h (λ q. cc)
    fetch-Answers (err forbidden) h = unfetched forbidden h (λ q. cc)
    fetch-Answers (err invalid) h = unfetched invalid h (λ q. cc)
    fetch-Answers (err other_error) h = unfetched other_error h (λ q. cc)

    -- A reconciliation answers in one of these ways, and then the time that it took is observed. The
    -- policy is gone: nothing is done. It is not fetched: the error is counted and returned. It is
    -- not valid: its status says why, an event says so, the error is counted, and the policy does
    -- not come again. It is valid: its status says that, its workloads are run through, and either
    -- the discovery fails and that is the error, or the numbers of discovered and of processed
    -- workloads are written and the policy comes again after the interval for these numbers. A
    -- status says so where in the last attempt to write it the policy was gone, was fetched with the
    -- condition, or was accepted by the API server with the condition added. Where a status is not
    -- written, that is the error and nothing follows. The client is assumed to return what was asked
    -- for when it lists and gets for the discovery.
    pub reconcile-IsAnswer :
        (u : W) × IsAnswer namespace name v (reconcile rc namespace name v).0 u
        × ((reconcile rc namespace name v).1
            ≡ rc.meters.observe_seconds reconciliation_duration
                (name ∷ [])
                (rc.now u -ℤ rc.now v)
                u)
    unfolding reconcile observe_duration
    reconcile-IsAnswer = (_, fetch-Answers _ refl, refl)
