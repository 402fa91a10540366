-- ===== src/Controller/Processor/Process/Outcome.antt =====
-- What the results of `ProcessWorkload` say, whatever the cluster and the backends answer.
use optipod.Prelude.{
  ◌≡◌, ◌≢◌, ◌⊎◌, eq_iff, arith, refl, String, Bool, true, false, Option, none, some, List, [], ◌∷◌,
  All, Result, ok, err, Bool-cases, inl, inr, is_empty, str_eq,
}
use optipod.Platform.{Platform}
use optipod.Cluster.{Workload, Object}
use optipod.Api.Types.{
  PolicyMode, OptimizationPolicy, ContainerRecommendation, mode_auto, mode_recommend, mode_disabled,
}
use optipod.Recommendation.{Recommendation}
use optipod.Application.Values.{AppWorkload}
use optipod.Application.Decision.{ApplyDecision, DecisionError, can_apply}
use optipod.Application.Apply.{ApplyResult, ApplyError}
use optipod.Controller.Processor.{
  status_unset, status_skipped, status_error, status_recommended, status_applied, Status,
  MetricsFault, AnnotationError, BackoffError, ProcessError, unknown_mode, failed, WorkloadStatus,
  WorkloadProcessor, WorkloadClient,
}
use optipod.Controller.Processor.Statuses.{Processed, conclude}
use optipod.Controller.Processor.Collect.{Gathered, nothing_gathered}
use optipod.Controller.Processor.Collect.Recommendations.{
  Computes, AllGathered, gather_all-AllGathered,
}
use optipod.Controller.Processor.Process.{
  after_apply, after_decision, after_convert, apply_all, after_annotations, annotate_and_apply,
  after_fault, after_gathering, after_containers, process_workload,
}

-- A status tells the mode: only in Auto mode is something applied, only in Recommend mode is
-- something recommended, and some status is always set.
abbrev pub IsOfMode : PolicyMode → Status → Type 0
IsOfMode mode status_unset = ⊥
IsOfMode mode status_applied = mode ≡ mode_auto
IsOfMode mode status_recommended = mode ≡ mode_recommend
IsOfMode mode status_skipped = Unit
IsOfMode mode status_error = Unit

module _ {P : Platform} {E : Type 0} (w : Workload) (p : OptimizationPolicy P)
    (B : ContainerRecommendation P → Type 0) where
  -- The status is that of the workload, and each of its recommendations is as it should be.
  abbrev pub Describes : WorkloadStatus P E → Type 0
  Describes st =
      (st.name ≡ w.name)
      × (st.namespace ≡ w.namespace)
      × (st.kind ≡ w.kind)
      × All B st.recommendations

  -- The error and the status agree: with an error the status is the error's, and without one it is
  -- another.
  abbrev pub Agrees : WorkloadStatus P E → Option ProcessError → Type 0
  Agrees st none = st.status ≢ status_error
  Agrees st (some e) = (st.status ≡ status_error) × (st.reason ≡ failed e)

  -- There is a status, except for a mode that is none of the three.
  abbrev pub IsSoundly : Option (WorkloadStatus P E) → Option ProcessError → Type 0
  IsSoundly none e = e ≡ some (unknown_mode p.spec.mode)
  IsSoundly (some st) e = Describes st × Agrees st e × IsOfMode p.spec.mode st.status

  abbrev pub IsSound : Processed P E → Type 0
  IsSound r = IsSoundly r.status r.error

module _ {P : Platform} {E W : Type 0} (wp : WorkloadProcessor P E W) (w : Workload)
    (p : OptimizationPolicy P) (B : ContainerRecommendation P → Type 0) where
  abbrev More : Type 0
  More = Option ApplyResult → WorkloadStatus P E → W → Processed P E × W

  abbrev IsSoundLater : More → Type 0
  IsSoundLater more =
      (result : Option ApplyResult) (st : WorkloadStatus P E) (v : W)
      → Describes w p B st
      → IsSound w p B (more result st v).0

  conclude-IsSound :
      (result : Option ApplyResult) (st : WorkloadStatus P E)
      → p.spec.mode ≡ mode_auto
      → Describes w p B st
      → IsSound w p B (conclude result st)
  conclude-IsSound none st auto_ h = (h, (λ e. cc), auto_)
  conclude-IsSound (some r) st auto_ h = (h, (λ e. cc), auto_)

  -- The mode is one of the two that process workloads.
  abbrev IsActive : Type 0
  IsActive = (str_eq p.spec.mode mode_recommend ≡ true) ⊎ (str_eq p.spec.mode mode_auto ≡ true)

  apply-IsSound :
      (container : String) (last : Bool) (r : Result ApplyError ApplyResult) (more : More)
      (st : WorkloadStatus P E) (v : W)
      → IsSoundLater more
      → Describes w p B st
      → IsSound w p B (after_apply wp container last r more st v).0
  unfolding after_apply
  apply-IsSound container last (err e) more st v later h = (h, (refl, refl), tt)
  apply-IsSound container true (ok r) more st v later h = later _ _ _ h
  apply-IsSound container false (ok r) more st v later h = later _ _ _ h

  decision-IsSound :
      (app : AppWorkload) (container : String) (rec : Recommendation P) (last : Bool)
      (r : Result DecisionError ApplyDecision) (more : More) (st : WorkloadStatus P E) (v : W)
      → IsSoundLater more
      → Describes w p B st
      → IsSound w p B (after_decision wp app container rec p last r more st v).0
  unfolding after_decision
  decision-IsSound app container rec last (err e) more st v later h = (h, (refl, refl), tt)
  decision-IsSound app container rec last (ok d) more st v later h = elim (Bool-cases d.can_apply) [
    | inl yes_ ↦ rw (yes_, after_decision) (apply-IsSound container last _ more st _ later h)
    | inr no_ ↦ rw (no_, after_decision) (h, (λ e. cc), tt)
  ]

  convert-IsSound :
      (a : Result ProcessError AppWorkload) (r : Option (Recommendation P)) (container : String)
      (last : Bool) (more : More) (st : WorkloadStatus P E) (v : W)
      → IsSoundLater more
      → Describes w p B st
      → IsSound w p B (after_convert wp a r p container last more st v).0
  unfolding after_convert
  convert-IsSound (err e) r container last more st v later h = (h, (refl, refl), tt)
  convert-IsSound (ok app) none container last more st v later h = (h, (refl, refl), tt)
  convert-IsSound (ok app) (some rec) container last more st v later h =
      decision-IsSound app container rec last (can_apply wp.engine app rec p) more st v later h

  apply_all-IsSound :
      p.spec.mode ≡ mode_auto
      → (x : Workload) (recs : List (ContainerRecommendation P)) (result : Option ApplyResult)
        (st : WorkloadStatus P E) (v : W)
      → Describes w p B st
      → IsSound w p B (apply_all wp x p recs result st v).0
  unfolding apply_all
  apply_all-IsSound auto_ x [] result st v h = conclude-IsSound result st auto_ h
  apply_all-IsSound auto_ x (r ∷ rest) result st v h =
      convert-IsSound _ _ r.container (is_empty rest) _ st v (apply_all-IsSound auto_ x rest) h

  annotations-IsSound :
      (e : Option (BackoffError AnnotationError)) (obj : Object) (st : WorkloadStatus P E) (v : W)
      → IsActive
      → Describes w p B st
      → IsSound w p B (after_annotations wp w p e obj st v).0
  unfolding after_annotations
  annotations-IsSound (some e) obj st v active h = (h, (refl, refl), tt)
  annotations-IsSound none obj st v active h =
      elim (Bool-cases (str_eq p.spec.mode mode_recommend)) [
        | inl recommend ↦
            rw (recommend, after_annotations)
              (h, (λ e. cc), ground (arith, eq_iff p.spec.mode mode_recommend))
        | inr other ↦ elim (Bool-cases (str_eq p.spec.mode mode_auto)) [
          | inl auto_ ↦
              rw (other, auto_, after_annotations)
                (apply_all-IsSound (ground (arith, eq_iff p.spec.mode mode_auto)) _
                  st.recommendations none st v h)
          | inr neither ↦ absurd (ground (arith, active))
        ]
      ]

  client-IsSound :
      (c : Option (WorkloadClient W)) (st : WorkloadStatus P E) (v : W)
      → IsActive
      → Describes w p B st
      → IsSound w p B (annotate_and_apply wp c w p st v).0
  unfolding annotate_and_apply
  client-IsSound none st v active h = annotations-IsSound none w.object st v active h
  client-IsSound (some c) st v active h = annotations-IsSound _ _ st _ active h

  fault-IsSound :
      (f : Option (MetricsFault E)) (st : WorkloadStatus P E) (v : W)
      → IsActive
      → Describes w p B st
      → IsSound w p B (after_fault wp f w p st v).0
  unfolding after_fault
  fault-IsSound (some f) st v active h = (h, (λ e. cc), tt)
  fault-IsSound none st v active h = client-IsSound wp.client st v active h

  gathering-IsSound :
      (g : Result ProcessError (Gathered P E)) (v : W)
      → IsActive
      → AllGathered p B g
      → IsSound w p B (after_gathering wp g w p v).0
  unfolding after_gathering
  gathering-IsSound (err e) v active h = ((refl, refl, refl, tt), (refl, refl), tt)
  gathering-IsSound (ok g) v active h = fault-IsSound g.fault _ v active (refl, refl, refl, h)

  containers-IsSound :
      IsActive
      → Computes p B
      → (cs : Result ProcessError (List String)) (v : W)
      → IsSound w p B (after_containers wp cs w p v).0
  unfolding after_containers
  containers-IsSound active computes (err e) v = ((refl, refl, refl, tt), (refl, refl), tt)
  containers-IsSound active computes (ok cs) v =
      gathering-IsSound _ _ active
        (gather_all-AllGathered wp w p B computes cs nothing_gathered v tt)

  -- Whatever the cluster and the backends answer, the processing of a workload returns a status of
  -- that workload, or none for a mode that is none of the three. The status is an error's exactly
  -- where an error is returned, and its reason is then that error; it says Applied only in Auto mode
  -- and Recommended only in Recommend mode, and is never empty. Its recommendations have every
  -- property that all recommendations of the engine for the policy have.
  pub process_workload-IsSound :
      Computes p B → (v : W) → IsSound w p B (process_workload wp w p v).0
  unfolding process_workload
  process_workload-IsSound computes v = elim (Bool-cases (str_eq p.spec.mode mode_disabled)) [
    | inl disabled ↦ rw (disabled, process_workload) ((refl, refl, refl, tt), (λ e. cc), tt)
    | inr enabled ↦ elim (Bool-cases (str_eq p.spec.mode mode_recommend)) [
      | inl recommend ↦
          rw (enabled, recommend, process_workload)
            (containers-IsSound (inl recommend) computes _ v)
      | inr other ↦ elim (Bool-cases (str_eq p.spec.mode mode_auto)) [
        | inl auto_ ↦
            rw (enabled, other, auto_, process_workload)
              (containers-IsSound (inr auto_) computes _ v)
        | inr neither ↦ rw (enabled, other, neither, process_workload) refl
      ]
    ]
  ]
