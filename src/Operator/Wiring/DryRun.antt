-- ===== src/Operator/Wiring/DryRun.antt =====
-- The dry-run flag, from the configuration of the operator to a reconciliation.
use optipod.Prelude.{◌≡◌, ◌∙◌, sym, ap, String, true, Option, Result, ok, err}
use optipod.Platform.{Platform}
use optipod.Metrics.Factory.{Provider, FactoryError, ProviderError}
use optipod.Application.Apply.{Effects}
use optipod.Controller.Selection.{Reconciler}
use optipod.Controller.Reconcile.{reconcile}
use optipod.Controller.Reconcile.DryRun.{reconcile_dry_run}
use optipod.Operator.{OperatorConfig, is_dry_run, metrics_provider}
use optipod.Operator.Wiring.{Connections, workload_processor, reconciler_of, wired, start}

module _ {P : Platform} {E W : Type 0} (cn : Connections P E W) (fx : Effects W)
    (c : OperatorConfig) (dry : is_dry_run c ≡ true) where
  abbrev other : Connections P E W
  other = record cn { effects = fx }

  wired_same :
      (r : Result (FactoryError E) Provider) (rc rc' : Reconciler P (ProviderError E) W)
      → wired cn c r ≡ ok rc
      → wired other c r ≡ ok rc'
      → (namespace name : String) (v : W)
      → reconcile rc' namespace name v ≡ reconcile rc namespace name v
  unfolding wired
  wired_same (err e) rc rc' h h' namespace name v = cc
  wired_same (ok provider) rc rc' h h' namespace name v =
      let wp = workload_processor cn c provider in
      let here : reconciler_of cn wp ≡ rc = cc in
      let there : reconciler_of other (record wp { effects = fx }) ≡ rc' = cc in
      ap (λ r. reconcile r namespace name v) (sym there)
      ∙ reconcile_dry_run (reconciler_of cn wp) wp fx dry namespace name v
      ∙ ap (λ r. reconcile r namespace name v) here

  -- Started with the dry-run flag, the operator applies nothing: with any other way to make the
  -- requests that would apply a recommendation, and with any metrics provider, the reconcilers that
  -- it starts with answer the same and leave the same state in every reconciliation.
  pub start_dry_run :
      (new_client : String → Option E) (rc rc' : Reconciler P (ProviderError E) W)
      → start cn new_client c ≡ ok rc
      → start (record cn { effects = fx }) new_client c ≡ ok rc'
      → (namespace name : String) (v : W)
      → reconcile rc' namespace name v ≡ reconcile rc namespace name v
  unfolding start
  start_dry_run new_client rc rc' = wired_same (metrics_provider new_client c) rc rc'
