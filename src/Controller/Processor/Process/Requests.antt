-- ===== src/Controller/Processor/Process/Requests.antt =====
-- How many requests the processing of a workload sends.
use optipod.Prelude.{
  ◌≡◌, refl, ℕ, suc, ◌+◌, ◌≤◌, String, str_eq, Bool, Option, none, some, List, [], ◌∷◌, length,
  is_empty, Result, ok, err, arith, Bool-cases, inl, inr,
}
use optipod.Platform.{Platform}
use optipod.Cluster.{Workload, Object}
use optipod.Api.Types.{
  OptimizationPolicy, ContainerRecommendation, mode_auto, mode_recommend, mode_disabled,
}
use optipod.Observability.Collectors.{record_ssa_patch}
use optipod.Recommendation.{Recommendation}
use optipod.Application.Values.{AppWorkload}
use optipod.Application.Decision.{ApplyDecision, DecisionError}
use optipod.Application.Apply.{ApplyResult, ApplyError, record_patch, apply}
use optipod.Application.Apply.Outcome.{
  IsOutcome, unbuilt, unknown, refused, accepted, apply-IsOutcome,
}
use optipod.Controller.Processor.{
  MetricsFault, AnnotationError, BackoffError, ProcessError, WorkloadStatus, WorkloadClient,
  WorkloadProcessor,
}
use optipod.Controller.Processor.Statuses.{Processed}
use optipod.Controller.Processor.Requests.{CountsPatches, count_of}
use optipod.Controller.Processor.Pods.{get_containers}
use optipod.Controller.Processor.Annotations.Attempts.{BackoffLaws}
use optipod.Controller.Processor.Annotations.Requests.{add_recommendation_annotations-keeps}
use optipod.Controller.Processor.Collect.{Gathered, nothing_gathered}
use optipod.Controller.Processor.Collect.Requests.{HasAtMost, gather_all-IsBounded}
use optipod.Controller.Processor.Process.{
  after_apply, after_decision, after_convert, apply_all, after_annotations, annotate_and_apply,
  after_fault, after_gathering, after_containers, process_workload,
}

shifted : (a b c n : ℕ) → a ≡ b → c ≤ a + n → c ≤ b + n
shifted a b c n h k = omega arith

within : (a b c n : ℕ) → c ≤ b + a → a ≤ n → c ≤ b + n
within a b c n h k = omega arith

module _ {P : Platform} {E W : Type 0} (wp : WorkloadProcessor P E W) (sent : W → ℕ)
    (counts : CountsPatches wp sent) where
  -- What is done after an application, with at most so many requests.
  abbrev More : Type 0
  More = Option ApplyResult → WorkloadStatus P E → W → Processed P E × W

  abbrev IsFrugal : ℕ → More → Type 0
  IsFrugal n more =
      (r : Option ApplyResult) (st : WorkloadStatus P E) (v : W) → sent (more r st v).1 ≤ sent v + n

  outcome_once :
      (app : AppWorkload) (container : String) (rec : Recommendation P) (p : OptimizationPolicy P)
      (v : W) (r : Result ApplyError ApplyResult × W)
      → IsOutcome wp.effects wp.engine.accessors app container rec p v r
      → sent (r.1) ≤ suc (sent v)
  unfolding record_patch record_ssa_patch
  outcome_once app container rec p v r (unbuilt e h) = omega arith
  outcome_once app container rec p v r (unknown e h) = omega arith
  outcome_once app container rec p v r (refused request api i h) =
      rw (counts.inc_keeps _ _ _) (counts.patch_once request v)
  outcome_once app container rec p v r (accepted request i h) =
      rw (counts.inc_keeps _ _ _) (counts.patch_once request v)

  apply_frugal :
      (container : String) (last : Bool) (n : ℕ) (r : Result ApplyError ApplyResult) (more : More)
      (st : WorkloadStatus P E) (v : W)
      → IsFrugal n more
      → sent (after_apply wp container last r more st v).1 ≤ sent v + n
  unfolding after_apply
  apply_frugal container last n (err e) more st v h = omega arith
  apply_frugal container last n (ok r) more st v h = h _ _ v

  decision_frugal :
      (app : AppWorkload) (container : String) (rec : Recommendation P) (p : OptimizationPolicy P)
      (last : Bool) (n : ℕ) (r : Result DecisionError ApplyDecision) (more : More)
      (st : WorkloadStatus P E) (v : W)
      → IsFrugal n more
      → sent (after_decision wp app container rec p last r more st v).1 ≤ sent v + suc n
  unfolding after_decision
  decision_frugal app container rec p last n (err e) more st v h = omega arith
  decision_frugal app container rec p last n (ok d) more st v h = elim (Bool-cases d.can_apply) [
    | inl yes_ ↦
        let done = apply wp.effects wp.engine.accessors app container rec p v in
        let once =
          outcome_once app container rec p v done
            (apply-IsOutcome wp.effects wp.engine.accessors app container rec p v) in
        let rest = apply_frugal container last n (done.0) more st (done.1) h in
        rw (yes_, after_decision) (omega arith)
    | inr no_ ↦ rw (no_, after_decision) (omega arith)
  ]

  convert_frugal :
      (a : Result ProcessError AppWorkload) (rec : Option (Recommendation P))
      (p : OptimizationPolicy P) (container : String) (last : Bool) (n : ℕ) (more : More)
      (st : WorkloadStatus P E) (v : W)
      → IsFrugal n more
      → sent (after_convert wp a rec p container last more st v).1 ≤ sent v + suc n
  unfolding after_convert
  convert_frugal (err e) rec p container last n more st v h = omega arith
  convert_frugal (ok app) none p container last n more st v h = omega arith
  convert_frugal (ok app) (some rec) p container last n more st v h =
      decision_frugal app container rec p last n _ more st v h

  apply_all-IsFrugal :
      (w : Workload) (p : OptimizationPolicy P) (recs : List (ContainerRecommendation P))
      → IsFrugal (length recs) (apply_all wp w p recs)
  unfolding apply_all
  apply_all-IsFrugal w p [] result st v = omega arith
  apply_all-IsFrugal w p (r ∷ rest) result st v =
      convert_frugal _ _ p r.container (is_empty rest) (length rest) (apply_all wp w p rest) st v
        (apply_all-IsFrugal w p rest)

  module _ (laws : BackoffLaws wp.backoff) (w : Workload) (p : OptimizationPolicy P) where
    annotations_frugal :
        (f : Option (BackoffError AnnotationError)) (obj : Object) (st : WorkloadStatus P E) (v : W)
        → sent (after_annotations wp w p f obj st v).1 ≤ sent v + length st.recommendations
    unfolding after_annotations
    annotations_frugal (some f) obj st v = omega arith
    annotations_frugal none obj st v =
        let applied =
          apply_all-IsFrugal (record w { object = obj }) p st.recommendations none st v in
        elim (Bool-cases (str_eq p.spec.mode mode_recommend)) [
          | inl yes_ ↦ rw (yes_, after_annotations) (omega arith)
          | inr no_ ↦ elim (Bool-cases (str_eq p.spec.mode mode_auto)) [
            | inl auto_ ↦ rw (no_, auto_, after_annotations) applied
            | inr other ↦ rw (no_, other, after_annotations) (omega arith)
          ]
        ]

    client_frugal :
        (c : Option (WorkloadClient W)) (st : WorkloadStatus P E) (v : W)
        → wp.client ≡ c
        → sent (annotate_and_apply wp c w p st v).1 ≤ sent v + length st.recommendations
    unfolding annotate_and_apply
    client_frugal none st v present = annotations_frugal none w.object st v
    client_frugal (some c) st v present =
        let same =
          add_recommendation_annotations-keeps wp sent counts c present p st.recommendations laws
            (w.object, v) in
        shifted _ _ _ _ same (annotations_frugal _ _ st _)

    fault_frugal :
        (f : Option (MetricsFault E)) (st : WorkloadStatus P E) (v : W)
        → sent (after_fault wp f w p st v).1 ≤ sent v + length st.recommendations
    unfolding after_fault
    fault_frugal (some f) st v = omega arith
    fault_frugal none st v = client_frugal wp.client st v refl

    gathering_frugal :
        (g : Result ProcessError (Gathered P E)) (n : ℕ) (v : W)
        → HasAtMost n g
        → sent (after_gathering wp g w p v).1 ≤ sent v + n
    unfolding after_gathering
    gathering_frugal (err e) n v h = omega arith
    gathering_frugal (ok g) n v h = within _ _ _ _ (fault_frugal g.fault _ v) h

    containers_frugal :
        (cs : Result ProcessError (List String)) (v : W)
        → sent (after_containers wp cs w p v).1 ≤ sent v + count_of cs
    unfolding after_containers
    containers_frugal (err e) v = omega arith
    containers_frugal (ok cs) v =
        let (same, few) =
          gather_all-IsBounded wp sent counts w p cs nothing_gathered 0 v (omega arith) in
        within _ _ _ _ (shifted _ _ _ _ same (gathering_frugal _ _ _ few)) (omega arith)

    -- The processing of a workload sends at most one request that applies a recommendation for each
    -- of its containers. A patch request is assumed to count as one and no other call to count, and
    -- the backoff to behave as documented.
    pub process_workload-sent :
        (v : W) → sent (process_workload wp w p v).1 ≤ sent v + count_of (get_containers w)
    unfolding process_workload
    process_workload-sent v =
        let few = containers_frugal (get_containers w) v in
        elim (Bool-cases (str_eq p.spec.mode mode_disabled)) [
          | inl yes_ ↦ rw (yes_, process_workload) (omega arith)
          | inr no_ ↦ elim (Bool-cases (str_eq p.spec.mode mode_recommend)) [
            | inl recommend ↦ rw (no_, recommend, process_workload) few
            | inr other ↦ elim (Bool-cases (str_eq p.spec.mode mode_auto)) [
              | inl auto_ ↦ rw (no_, other, auto_, process_workload) few
              | inr neither ↦ rw (no_, other, neither, process_workload) (omega arith)
            ]
          ]
        ]
