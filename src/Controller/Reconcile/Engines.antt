-- ===== src/Controller/Reconcile/Engines.antt =====
-- A reconciliation without a policy in Auto mode.
use optipod.Prelude.{◌≡◌, ◌≢◌, ◌∙◌, String, some, List, Mem, mem_of_mem-select, ok}
use optipod.Platform.{Platform}
use optipod.Platform.Laws.{SortLaws}
use optipod.Cluster.{Workload}
use optipod.Api.Types.{OptimizationPolicy, mode_auto}
use optipod.Application.Decision.{EngineConfig}
use optipod.Application.Apply.{Effects}
use optipod.Selector.{select_best_policy}
use optipod.Controller.Processor.{WorkloadProcessor}
use optipod.Controller.Processor.Process.Modes.{other_mode, process_workload-with_engine}
use optipod.Controller.Selection.{Reconciler}
use optipod.Controller.Selection.Runs.{select_best_policy_listed}
use optipod.Controller.Reconcile.{reconcile}
use optipod.Controller.Reconcile.Processors.{reconcile_agrees}

module _ {P : Platform} (sorts : SortLaws P) {E W : Type 0} (rc : Reconciler P E W) where
  -- In no state a policy of the name is listed in Auto mode.
  abbrev pub IsNeverAuto : String → Type 0
  IsNeverAuto name =
      (v : W) (ps : List (OptimizationPolicy P)) (q : OptimizationPolicy P)
      → (rc.reads v).list_policies ≡ ok ps
      → Mem q ps
      → q.name ≡ name
      → q.spec.mode ≢ mode_auto

  selected-ne-auto :
      (name : String) (w : Workload) (best : OptimizationPolicy P) (v : W)
      → IsNeverAuto name
      → select_best_policy (rc.reads v) w ≡ ok best
      → best.name ≡ name
      → best.spec.mode ≢ mode_auto
  selected-ne-auto name w best v never selected named =
      let (ps, listed, is_best) = select_best_policy_listed sorts (rc.reads v) w best selected in
      never v ps best listed (mem_of_mem-select _ ps is_best.listed).0 named

  -- Where no policy of the name asked for is ever listed in Auto mode, and a policy is fetched by
  -- its name, a whole reconciliation does not ask the application engine: with any other engine, and
  -- any other way to make its requests, the answer and the state are the same.
  pub reconcile-with_engine :
      (wp : WorkloadProcessor P E W) (e : EngineConfig) (fx : Effects W) (namespace name : String)
      (v : W)
      → IsNeverAuto name
      → ((p : OptimizationPolicy P) → (rc.store.get namespace name v).0 ≡ ok p → p.name ≡ name)
      → reconcile
          (record rc { processor = some (record wp { engine = e; effects = fx }) })
          namespace
          name
          v
        ≡ reconcile (record rc { processor = some wp }) namespace name v
  reconcile-with_engine wp e fx namespace name v never found =
      reconcile_agrees rc wp (record wp { engine = e; effects = fx }) namespace name v
        (λ p fetched w best u selected named.
          process_workload-with_engine wp e fx w best u
            (other_mode (selected-ne-auto name w best u never selected (named ∙ found p fetched))))
