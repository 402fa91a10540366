-- ===== src/Controller/Reconcile/Processors.antt =====
-- When two processors of workloads lead to the same reconciliation.
use optipod.Prelude.{◌≡◌, refl, String, Option, none, some, Result, ok, err}
use optipod.Platform.{Platform}
use optipod.Cluster.{ApiError, not_found}
use optipod.Api.Types.{OptimizationPolicy}
use optipod.Api.Validation.{ValidationError, validate_create}
use optipod.Controller.Retry.{StatusError}
use optipod.Controller.Processor.{WorkloadProcessor}
use optipod.Controller.Selection.{Reconciler, count_error}
use optipod.Controller.Selection.Processors.{here, there, AgreesOn, process_workloads_agree}
use optipod.Controller.Reconcile.{
  after_ready, after_validation, after_fetch, observe_duration, reconcile,
}

module _ {P : Platform} {E W : Type 0} (rc : Reconciler P E W)
    (wp other : WorkloadProcessor P E W) where
  module _ (p : OptimizationPolicy P) (agrees : AgreesOn rc wp other p.name) where
    ready_same :
        (o : Option StatusError) (v : W)
        → after_ready (there rc wp other) p o v ≡ after_ready (here rc wp other) p o v
    unfolding after_ready
    ready_same (some e) v = refl
    ready_same none v = rw (process_workloads_agree rc wp other p agrees v)

    validation_same :
        (r : Result {0, 0} ValidationError Unit) (v : W)
        → after_validation (there rc wp other) p r v ≡ after_validation (here rc wp other) p r v
    unfolding after_validation count_error
    validation_same (err e) v = refl
    validation_same (ok _) v = ready_same _ _

  fetch_same :
      (name : String) (r : Result ApiError (OptimizationPolicy P)) (v : W)
      → ((p : OptimizationPolicy P) → r ≡ ok p → AgreesOn rc wp other p.name)
      → after_fetch (there rc wp other) name r v ≡ after_fetch (here rc wp other) name r v
  unfolding after_fetch count_error
  fetch_same name (err not_found) v agrees = refl
  fetch_same name (err e) v agrees = refl
  fetch_same name (ok p) v agrees = validation_same p (agrees p refl) (validate_create p) v

  pub reconcile_agrees :
      (namespace name : String) (v : W)
      → ((p : OptimizationPolicy P)
          → (rc.store.get namespace name v).0 ≡ ok p
          → AgreesOn rc wp other p.name)
      → reconcile (there rc wp other) namespace name v
        ≡ reconcile (here rc wp other) namespace name v
  unfolding reconcile observe_duration
  reconcile_agrees namespace name v agrees = rw (fetch_same name _ _ agrees)
