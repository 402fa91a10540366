-- ===== src/Controller/Processor/Process/DryRun.antt =====
-- The global dry-run flag: nothing is applied.
use optipod.Prelude.{
  ◌≡◌, refl, String, Bool, true, false, Option, none, some, List, [], ◌∷◌, is_empty, Result, ok,
  err, Bool-cases, inl, inr,
}
use optipod.Platform.{Platform}
use optipod.Cluster.{Workload, Object}
use optipod.Api.Types.{OptimizationPolicy, ContainerRecommendation}
use optipod.Recommendation.{Recommendation}
use optipod.Application.Values.{AppWorkload}
use optipod.Application.Decision.{ApplyDecision, DecisionError, can_apply}
use optipod.Application.Decision.Allowed.{can_apply-IsAllowed}
use optipod.Application.Apply.{Effects, ApplyResult}
use optipod.Controller.Processor.{
  MetricsFault, AnnotationError, BackoffError, ProcessError, WorkloadStatus, WorkloadClient,
  WorkloadProcessor,
}
use optipod.Controller.Processor.Statuses.{Processed}
use optipod.Controller.Processor.Pods.{get_containers}
use optipod.Controller.Processor.Collect.{Gathered, nothing_gathered}
use optipod.Controller.Processor.Collect.Recommendations.{gather_all-with_engine}
use optipod.Controller.Processor.Process.{
  after_decision, after_convert, apply_all, after_annotations, annotate_and_apply, after_fault,
  after_gathering, after_containers, process_workload,
}

module _ {P : Platform} {E W : Type 0} (wp : WorkloadProcessor P E W) (fx : Effects W)
    (dry : wp.engine.dry_run ≡ true) where
  abbrev other : WorkloadProcessor P E W
  other = record wp { engine = wp.engine; effects = fx }

  -- What is done after an application.
  abbrev More : Type 0
  More = Option ApplyResult → WorkloadStatus P E → W → Processed P E × W

  refused :
      (app : AppWorkload) (rec : Recommendation P) (p : OptimizationPolicy P) (d : ApplyDecision)
      → can_apply wp.engine app rec p ≡ ok d
      → d.can_apply ≡ false
  refused app rec p d h = elim (Bool-cases d.can_apply) [
    | inl yes_ ↦
        let allowed = can_apply-IsAllowed wp.engine app rec p d h yes_ in
        let never = allowed.no_dry_run in cc
    | inr no_ ↦ no_
  ]

  decision_same :
      (app : AppWorkload) (container : String) (rec : Recommendation P) (p : OptimizationPolicy P)
      (last : Bool) (r : Result DecisionError ApplyDecision) (more more' : More)
      (st : WorkloadStatus P E) (v : W)
      → ((d : ApplyDecision) → r ≡ ok d → d.can_apply ≡ false)
      → after_decision other app container rec p last r more' st v
        ≡ after_decision wp app container rec p last r more st v
  unfolding after_decision
  decision_same app container rec p last (err e) more more' st v h = refl
  decision_same app container rec p last (ok d) more more' st v h = rw (h d refl, after_decision)

  convert_same :
      (a : Result ProcessError AppWorkload) (r : Option (Recommendation P))
      (p : OptimizationPolicy P) (container : String) (last : Bool) (more more' : More)
      (st : WorkloadStatus P E) (v : W)
      → after_convert other a r p container last more' st v
        ≡ after_convert wp a r p container last more st v
  unfolding after_convert
  convert_same (err e) r p container last more more' st v = refl
  convert_same (ok app) none p container last more more' st v = refl
  convert_same (ok app) (some rec) p container last more more' st v =
      decision_same app container rec p last _ more more' st v (refused app rec p)

  apply_all_same :
      (w : Workload) (p : OptimizationPolicy P) (recs : List (ContainerRecommendation P))
      (result : Option ApplyResult) (st : WorkloadStatus P E) (v : W)
      → apply_all other w p recs result st v ≡ apply_all wp w p recs result st v
  unfolding apply_all
  apply_all_same w p [] result st v = refl
  apply_all_same w p (r ∷ rest) result st v =
      convert_same _ _ p r.container (is_empty rest) _ _ st v

  module _ (w : Workload) (p : OptimizationPolicy P) where
    annotations_same :
        (f : Option (BackoffError AnnotationError)) (obj : Object) (st : WorkloadStatus P E) (v : W)
        → after_annotations other w p f obj st v ≡ after_annotations wp w p f obj st v
    unfolding after_annotations
    annotations_same (some f) obj st v = refl
    annotations_same none obj st v =
        rw (apply_all_same (record w { object = obj }) p st.recommendations none st v)

    client_same :
        (c : Option (WorkloadClient W)) (st : WorkloadStatus P E) (v : W)
        → annotate_and_apply other c w p st v ≡ annotate_and_apply wp c w p st v
    unfolding annotate_and_apply
    client_same none st v = annotations_same none w.object st v
    client_same (some c) st v = annotations_same _ _ st _

    fault_same :
        (f : Option (MetricsFault E)) (st : WorkloadStatus P E) (v : W)
        → after_fault other f w p st v ≡ after_fault wp f w p st v
    unfolding after_fault
    fault_same none st v = client_same wp.client st v
    fault_same (some f) st v = refl

    gathering_same :
        (g : Result ProcessError (Gathered P E)) (v : W)
        → after_gathering other g w p v ≡ after_gathering wp g w p v
    unfolding after_gathering
    gathering_same (err e) v = refl
    gathering_same (ok g) v = fault_same g.fault _ v

    containers_same :
        (cs : Result ProcessError (List String)) (v : W)
        → after_containers other cs w p v ≡ after_containers wp cs w p v
    unfolding after_containers
    containers_same (err e) v = refl
    containers_same (ok cs) v =
        rw (gather_all-with_engine wp wp.engine fx w p cs nothing_gathered v) (gathering_same _ _)

    -- In a dry run the requests to the API server that would apply a recommendation do not matter:
    -- with any other way to make them, the result and the state are the same.
    pub process_workload_dry_run :
        (v : W) → process_workload (record wp { effects = fx }) w p v ≡ process_workload wp w p v
    unfolding process_workload
    process_workload_dry_run v = rw (containers_same (get_containers w) v)
