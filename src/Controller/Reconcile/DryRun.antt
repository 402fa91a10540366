-- ===== src/Controller/Reconcile/DryRun.antt =====
-- A reconciliation in a dry run.
use optipod.Prelude.{◌≡◌, String, true, some}
use optipod.Platform.{Platform}
use optipod.Application.Apply.{Effects}
use optipod.Controller.Processor.{WorkloadProcessor}
use optipod.Controller.Processor.Process.DryRun.{process_workload_dry_run}
use optipod.Controller.Selection.{Reconciler}
use optipod.Controller.Reconcile.{reconcile}
use optipod.Controller.Reconcile.Processors.{reconcile_agrees}

-- In a dry run of the processor's engine, a whole reconciliation applies nothing: with any other
-- way to make the requests that would apply a recommendation, the answer and the state are the
-- same, whatever the policies, the workloads and the answers of the backends are.
pub reconcile_dry_run :
    {P : Platform} {E W : Type 0} (rc : Reconciler P E W) (wp : WorkloadProcessor P E W)
    (fx : Effects W)
    → wp.engine.dry_run ≡ true
    → (namespace name : String) (v : W)
    → reconcile (record rc { processor = some (record wp { effects = fx }) }) namespace name v
      ≡ reconcile (record rc { processor = some wp }) namespace name v
reconcile_dry_run rc wp fx dry namespace name v =
    reconcile_agrees rc wp (record wp { effects = fx }) namespace name v
      (λ p found w best u selected named. process_workload_dry_run wp fx dry w best u)
