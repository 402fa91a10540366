-- ===== src/Controller/Processor/Process/Modes.antt =====
-- When the application engine is asked: in Auto mode only, and with metrics for every container.
use mathlib.Core.Path.{subst}
use optipod.Prelude.{
  ◌≡◌, ◌≢◌, refl, sym, String, str_eq, eq_iff, true, false, Option, none, some, List, Result, ok,
  err, arith, is_some,
}
use optipod.Platform.{Platform}
use optipod.Cluster.{Workload, Object}
use optipod.Api.Types.{OptimizationPolicy, mode_auto}
use optipod.Application.Decision.{EngineConfig}
use optipod.Application.Apply.{Effects}
use optipod.Controller.Processor.{
  MetricsFault, AnnotationError, BackoffError, ProcessError, WorkloadStatus, WorkloadProcessor,
  WorkloadClient,
}
use optipod.Controller.Processor.Pods.{get_containers}
use optipod.Controller.Processor.Collect.{Gathered, nothing_gathered, gather_all}
use optipod.Controller.Processor.Collect.Recommendations.{gather_all-with_engine}
use optipod.Controller.Processor.Collect.Unmeasured.{IsFaulty, IsUnmeasured, gather_all-IsFaulty}
use optipod.Controller.Processor.Process.{
  after_annotations, annotate_and_apply, after_fault, after_gathering, after_containers,
  process_workload,
}

module _ {P : Platform} {E W : Type 0} (wp : WorkloadProcessor P E W) (e : EngineConfig)
    (fx : Effects W) (w : Workload) (p : OptimizationPolicy P) where
  abbrev other : WorkloadProcessor P E W
  other = record wp { engine = e; effects = fx }

  annotations_same :
      (f : Option (BackoffError AnnotationError)) (obj : Object) (st : WorkloadStatus P E) (v : W)
      → str_eq p.spec.mode mode_auto ≡ false
      → after_annotations other w p f obj st v ≡ after_annotations wp w p f obj st v
  unfolding after_annotations
  annotations_same (some f) obj st v passive = refl
  annotations_same none obj st v passive = rw passive

  client_same :
      (c : Option (WorkloadClient W)) (st : WorkloadStatus P E) (v : W)
      → str_eq p.spec.mode mode_auto ≡ false
      → annotate_and_apply other c w p st v ≡ annotate_and_apply wp c w p st v
  unfolding annotate_and_apply
  client_same none st v passive = annotations_same none w.object st v passive
  client_same (some c) st v passive = annotations_same _ _ st _ passive

  -- Nothing is asked of the engine: the mode is another, or a container has no metrics.
  abbrev IsPassive : Option (MetricsFault E) → Type 0
  IsPassive none = str_eq p.spec.mode mode_auto ≡ false
  IsPassive (some f) = Unit

  fault_same :
      (f : Option (MetricsFault E)) (st : WorkloadStatus P E) (v : W)
      → IsPassive f
      → after_fault other f w p st v ≡ after_fault wp f w p st v
  unfolding after_fault
  fault_same none st v passive = client_same wp.client st v passive
  fault_same (some f) st v passive = refl

  -- What the gathering comes to leaves nothing to apply.
  abbrev IsIdle : Result ProcessError (Gathered P E) → Type 0
  IsIdle (err e) = Unit
  IsIdle (ok g) = IsPassive g.fault

  gathering_same :
      (g : Result ProcessError (Gathered P E)) (v : W)
      → IsIdle g
      → after_gathering other g w p v ≡ after_gathering wp g w p v
  unfolding after_gathering
  gathering_same (err e) v idle = refl
  gathering_same (ok g) v idle = fault_same g.fault _ v idle

  abbrev IsIdleWith : Result ProcessError (List String) → W → Type 0
  IsIdleWith (err e) v = Unit
  IsIdleWith (ok cs) v = IsIdle (gather_all wp w p cs nothing_gathered v).0

  containers_same :
      (cs : Result ProcessError (List String)) (v : W)
      → IsIdleWith cs v
      → after_containers other cs w p v ≡ after_containers wp cs w p v
  unfolding after_containers
  containers_same (err e) v idle = refl
  containers_same (ok cs) v idle =
      rw (gather_all-with_engine wp e fx w p cs nothing_gathered v) (gathering_same _ _ idle)

  -- The application engine is not asked: the mode is not Auto, the containers are not known, or one
  -- of them has no pod or no metrics.
  pub data AsksNothing (v : W) : Type 0 where
    other_mode : p.spec.mode ≢ mode_auto → AsksNothing v
    no_containers : (x : ProcessError) → get_containers w ≡ err x → AsksNothing v
    unmeasured :
        (cs : List String) → get_containers w ≡ ok cs → IsUnmeasured wp w p cs v → AsksNothing v

  fault-IsPassive : (f : Option (MetricsFault E)) → is_some f ≡ true → IsPassive f
  fault-IsPassive none h = cc
  fault-IsPassive (some f) h = tt

  mode-IsPassive :
      (f : Option (MetricsFault E)) → str_eq p.spec.mode mode_auto ≡ false → IsPassive f
  mode-IsPassive none h = h
  mode-IsPassive (some f) h = tt

  faulty-IsIdle : (g : Result ProcessError (Gathered P E)) → IsFaulty g → IsIdle g
  faulty-IsIdle (err e) h = tt
  faulty-IsIdle (ok g) h = fault-IsPassive g.fault h

  mode-IsIdle :
      (g : Result ProcessError (Gathered P E)) → str_eq p.spec.mode mode_auto ≡ false → IsIdle g
  mode-IsIdle (err e) h = tt
  mode-IsIdle (ok g) h = mode-IsPassive g.fault h

  mode-IsIdleWith :
      (cs : Result ProcessError (List String)) (v : W)
      → str_eq p.spec.mode mode_auto ≡ false
      → IsIdleWith cs v
  mode-IsIdleWith (err e) v h = tt
  mode-IsIdleWith (ok cs) v h = mode-IsIdle _ h

  AsksNothing-IsIdleWith : (v : W) → AsksNothing v → IsIdleWith (get_containers w) v
  AsksNothing-IsIdleWith v (other_mode n) =
      mode-IsIdleWith (get_containers w) v (ground (arith, eq_iff p.spec.mode mode_auto))
  AsksNothing-IsIdleWith v (no_containers x h) = subst (λ r. IsIdleWith r v) (sym h) tt
  AsksNothing-IsIdleWith v (unmeasured cs h l) =
      subst (λ r. IsIdleWith r v) (sym h)
        (faulty-IsIdle _ (gather_all-IsFaulty wp w p cs nothing_gathered v l))

  -- With any other application engine, and any other way to make its requests, the result and the
  -- state are the same where the mode is not Auto, the containers of the workload are not known, or
  -- one of them has no pod or is answered with an error by the metrics provider: the engine is not
  -- asked then and nothing is applied.
  pub process_workload-with_engine :
      (v : W)
      → AsksNothing v
      → process_workload (record wp { engine = e; effects = fx }) w p v ≡ process_workload wp w p v
  unfolding process_workload
  process_workload-with_engine v h =
      rw (containers_same (get_containers w) v (AsksNothing-IsIdleWith v h))
