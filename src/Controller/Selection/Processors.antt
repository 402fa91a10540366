-- ===== src/Controller/Selection/Processors.antt =====
-- When two processors of workloads lead to the same processing of the discovered workloads.
use optipod.Prelude.{
  ◌≡◌, refl, ℕ, String, str_eq, eq_iff, some, List, [], ◌∷◌, Result, ok, err, arith, Bool-cases,
  inl, inr,
}
use optipod.Platform.{Platform}
use optipod.Cluster.{Workload}
use optipod.Api.Types.{OptimizationPolicy}
use optipod.Discovery.{DiscoveryError, discover_workloads}
use optipod.Selector.{SelectionError, select_best_policy}
use optipod.Controller.Processor.{WorkloadProcessor}
use optipod.Controller.Processor.Process.{process_workload}
use optipod.Controller.Selection.{
  Reconciler, process_with, after_select_best_policy, process_one, process_each, after_discovery,
  process_workloads_with_policy_selection, processing_failed, discovery_failed, monitored,
  count_error,
}

module _ {P : Platform} {E W : Type 0} (rc : Reconciler P E W)
    (wp other : WorkloadProcessor P E W) where
  abbrev pub here : Reconciler P E W
  here = record rc { processor = some wp }

  abbrev pub there : Reconciler P E W
  there = record rc { processor = some other }

  -- Both processors do the same with every workload whose best policy has the name.
  abbrev pub AgreesOn : String → Type 0
  AgreesOn name =
      (w : Workload) (best : OptimizationPolicy P) (v : W)
      → select_best_policy (rc.reads v) w ≡ ok best
      → best.name ≡ name
      → process_workload other w best v ≡ process_workload wp w best v

module _ {P : Platform} {E W : Type 0} (rc : Reconciler P E W) (wp other : WorkloadProcessor P E W)
    (p : OptimizationPolicy P) (agrees : AgreesOn rc wp other p.name) where
  selected_same :
      (w : Workload) (s : Result SelectionError (OptimizationPolicy P)) (v : W)
      → select_best_policy (rc.reads v) w ≡ s
      → after_select_best_policy (there rc wp other) p w s v
        ≡ after_select_best_policy (here rc wp other) p w s v
  unfolding after_select_best_policy process_with processing_failed count_error
  selected_same w (err e) v h = refl
  selected_same w (ok best) v h = elim (Bool-cases (str_eq best.name p.name)) [
    | inl same ↦
        let name : best.name ≡ p.name = ground (arith, eq_iff best.name p.name) in
        rw (same, after_select_best_policy, process_with, agrees w best v h name) refl
    | inr different ↦ rw (different, after_select_best_policy) refl
  ]

  one_same :
      (w : Workload) (v : W)
      → process_one (there rc wp other) p w v ≡ process_one (here rc wp other) p w v
  unfolding process_one
  one_same w v = selected_same w (select_best_policy (rc.reads v) w) v refl

  each_same :
      (ws : List Workload) (n : ℕ) (v : W)
      → process_each (there rc wp other) p ws n v ≡ process_each (here rc wp other) p ws n v
  unfolding process_each
  each_same [] n v = refl
  each_same (w ∷ ws) n v = rw (one_same w v) (each_same ws _ _)

  discovery_same :
      (d : Result DiscoveryError (List Workload)) (v : W)
      → after_discovery (there rc wp other) p d v ≡ after_discovery (here rc wp other) p d v
  unfolding after_discovery monitored discovery_failed count_error
  discovery_same (err e) v = refl
  discovery_same (ok ws) v = rw (each_same ws 0 _)

  pub process_workloads_agree :
      (v : W)
      → process_workloads_with_policy_selection (there rc wp other) p v
        ≡ process_workloads_with_policy_selection (here rc wp other) p v
  unfolding process_workloads_with_policy_selection
  process_workloads_agree v = discovery_same (discover_workloads (rc.reads v) p) v
