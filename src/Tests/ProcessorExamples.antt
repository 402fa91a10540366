-- ===== src/Tests/ProcessorExamples.antt =====
-- The processing of one workload, with the number of calls of the clock and the client as the state.
use optipod.Prelude.{
  ◌≡◌, ◌≢◌, refl, ℕ, zero, suc, pos, eq_iff, Bool, true, false, Option, none, some, is_some, [],
  ◌∷◌, Result, ok, err, arith, insert, lookup, ◌*ℤ◌,
}
use optipod.Platform.Demo.{demo, demo_quantity}
use optipod.Cluster.{ApiError, not_found, deployment}
use optipod.Api.Types.{OptimizationPolicy, ContainerRecommendation, mode_auto, mode_recommend}
use optipod.Application.Decision.{EngineConfig, can_apply}
use optipod.Application.Apply.{
  Effects, server_side_apply, apply, apply_with_ssa, get_gvr, record_patch,
}
use optipod.Application.Patch.{build_ssa_patch}
use optipod.Application.Values.{index}
use optipod.Application.Version.{atoi, trim_plus, detect_in_place_resize}
use optipod.Application.Resources.{get_current_resources, is_unsafe_memory_decrease}
use optipod.Observability.Collectors.{Meters, record_ssa_patch}
use optipod.Recommendation.{
  compute_recommendation, select_percentile, clamp_to_bounds, multiply_quantity,
}
use optipod.Controller.Processor.Collect.{gather_all}
use optipod.Controller.Processor.Pods.{
  get_containers, get_first_pod_name, convert_to_application_workload,
}
use optipod.Controller.Processor.{
  WorkloadStatus, status_applied, BackoffError, timed_out, condition_failed, WorkloadClient, Clock,
  Backoff, WorkloadProcessor,
}
use optipod.Controller.Processor.Annotations.{
  annotation_key, annotate, add_recommendation_annotations, get_workload_object,
}
use optipod.Controller.Processor.Annotations.Written.{lookup-annotate}
use optipod.Controller.Processor.Annotations.Attempts.{
  BackoffLaws, add_recommendation_annotations_times_out,
}
use optipod.Controller.Processor.Process.{process_workload, apply_all}
use optipod.Controller.Processor.Process.Outcome.{IsSound, process_workload-IsSound}
use optipod.Controller.Processor.Process.Modes.{
  AsksNothing, unmeasured, process_workload-with_engine,
}
use optipod.Controller.Processor.Collect.Unmeasured.{without_metrics}
use optipod.Controller.Processor.Process.Bounds.{IsBounded, process_workload-IsBounded}
use optipod.Tests.Data.{heavy, web, web_object, usage, millis, bytes}
use optipod.Tests.ApplicationExamples.{engine, deployed, refusing}
use optipod.Tests.RecommendationExamples.{heavy_valid}

after_step :
    {S E : Type 0}
    → Result E Bool
    → S
    → (S → Option (BackoffError E) × S)
    → Option (BackoffError E) × S
after_step (ok true) s more = (none, s)
after_step (ok false) s more = more s
after_step (err e) s more = (some (condition_failed e), s)

-- A backoff of so many steps.
unfoldable pub retry :
    (S E : Type 0) → (S → S) → ℕ → (S → Result E Bool × S) → S → Option (BackoffError E) × S
unfolding after_step
retry S E between zero condition s = (some timed_out, s)
retry S E between (suc zero) condition s =
    let r = condition s in after_step (r.0) (r.1) (λ t. (some timed_out, t))
retry S E between (suc (suc n)) condition s =
    let r = condition s in
    after_step (r.0) (r.1) (λ t. retry S E between (suc n) condition (between t))

abbrev pub steps : Backoff
steps = record { run = retry }

run-done :
    {S E : Type 0} (between : S → S) (n : ℕ) (condition : S → Result E Bool × S) (s : S)
    → (condition s).0 ≡ ok true
    → retry S E between (suc n) condition s ≡ (none, (condition s).1)
unfolding retry
run-done between zero condition s h = rw (h, retry) refl
run-done between (suc n) condition s h = rw (h, retry) refl

run-failed :
    {S E : Type 0} (between : S → S) (n : ℕ) (condition : S → Result E Bool × S) (s : S) (e : E)
    → (condition s).0 ≡ err e
    → retry S E between (suc n) condition s ≡ (some (condition_failed e), (condition s).1)
unfolding retry
run-failed between zero condition s e h = rw (h, retry) refl
run-failed between (suc n) condition s e h = rw (h, retry) refl

pub steps_laws : BackoffLaws steps
unfolding retry
steps_laws = record {
  run-done = run-done;
  run-failed = run-failed;
  run-last = λ between condition s h. rw (h, retry) refl;
  run-again = λ between n condition s h. rw (h, retry) refl;
}

abbrev pub ticks : Clock ℕ
ticks = record { now = λ w. pos w; parse = λ text. none; format = λ t. "now"; sleep = λ w. suc w }

-- The workload is gone from the cluster.
abbrev pub gone_client : WorkloadClient ℕ
gone_client = record {
  list_pods = λ namespace selects w. (ok ("web-1" ∷ []), w);
  get = λ o w. (err not_found, suc w);
  update = λ o w. (err not_found, suc w);
}

abbrev advised : ContainerRecommendation demo
advised = record {
  container = "main";
  cpu = some (millis (pos 500));
  memory = some (bytes (pos 4000));
  explanation = none;
}

add_recommendation_annotations_times_out_example :
    (add_recommendation_annotations ticks steps
      (some gone_client)
      heavy
      (advised ∷ [])
      (deployment web_object, 0)).0
    ≡ some timed_out
unfolding get_workload_object
add_recommendation_annotations_times_out_example =
    add_recommendation_annotations_times_out gone_client ticks heavy (advised ∷ []) steps_laws
      (λ o w. tt) (deployment web_object) 0 refl

lookup-annotate_example :
    (lookup (annotation_key "main" "cpu-request") (annotate heavy (advised ∷ []) "now" [])
      ≡ some "1")
    × (lookup (annotation_key "main" "memory-request") (annotate heavy (advised ∷ []) "now" [])
        ≡ some "1")
unfolding ◌*ℤ◌
lookup-annotate_example =
    lookup-annotate heavy [] [] advised (millis (pos 500)) (bytes (pos 4000)) "now" []
      (((λ e. cc), ((λ e. cc), ((λ e. cc), ((λ e. cc), tt)))), tt) tt refl refl

-- Nothing is counted.
abbrev pub unread : Meters ℕ
unread = record {
  set = λ c values n w. w;
  inc = λ c values w. w;
  observe_seconds = λ c values d w. w;
}

abbrev pub processor : EngineConfig → WorkloadProcessor demo ApiError ℕ
processor e = record {
  get_container_metrics = λ namespace pod container window w. (ok usage, w);
  engine = e;
  effects = refusing;
  meters = unread;
  metrics_provider_type = "metrics-server";
  client = none;
  clock = ticks;
  backoff = steps;
  to_unstructured = λ o. some deployed.object;
}

abbrev WithCpu : ContainerRecommendation demo → Type 0
WithCpu r = is_some r.cpu ≡ true

process_workload-IsSound_example :
    IsSound web heavy WithCpu (process_workload (processor engine) web heavy 0).0
process_workload-IsSound_example =
    process_workload-IsSound (processor engine) web heavy WithCpu (λ container m r e. refl) 0

process_workload-IsBounded_example :
    IsSound web heavy
      (IsBounded demo_quantity heavy)
      (process_workload (processor engine) web heavy 0).0
process_workload-IsBounded_example =
    process_workload-IsBounded demo_quantity (processor engine) web heavy 0 heavy_valid

abbrev pub recommending : OptimizationPolicy demo
recommending = record heavy { spec = record heavy.spec { mode = mode_recommend } }

abbrev pub silent : Effects ℕ
silent = record { patch = λ request w. (none, w); meters = unread }

pub recommend-ne-auto : mode_recommend ≢ mode_auto
recommend-ne-auto e = ground (arith, eq_iff mode_recommend mode_auto)

-- No metrics are found for any container.
abbrev blind : WorkloadProcessor demo ApiError ℕ
blind = record (processor engine) {
  get_container_metrics = λ namespace pod container window w. (err not_found, w);
}

blind-AsksNothing : AsksNothing blind engine silent web heavy 0
unfolding get_containers get_first_pod_name
blind-AsksNothing = unmeasured ("main" ∷ []) refl (without_metrics _ not_found refl refl)

process_workload-with_engine_example :
    process_workload (record blind { engine = engine; effects = silent }) web heavy 0
    ≡ process_workload blind web heavy 0
process_workload-with_engine_example =
    process_workload-with_engine blind engine silent web heavy 0 blind-AsksNothing

abbrev accepting : WorkloadProcessor demo ApiError ℕ
accepting = record (processor engine) { effects = silent }

-- In Auto mode the recommendation is applied, and the time of the application is set.
applied_run :
    (s : WorkloadStatus demo ApiError) × ((process_workload accepting web heavy 7).0.status
      ≡ some s)
    × (s.status ≡ status_applied)
    × (s.last_applied ≡ some (pos 7))
    × (s.last_apply_method ≡ some server_side_apply)
unfolding process_workload gather_all apply_all get_containers get_first_pod_name
    convert_to_application_workload compute_recommendation select_percentile clamp_to_bounds
    multiply_quantity can_apply get_current_resources is_unsafe_memory_decrease
    detect_in_place_resize index insert atoi trim_plus apply apply_with_ssa build_ssa_patch get_gvr
    record_patch record_ssa_patch ◌*ℤ◌
applied_run = (_, refl, refl, refl, refl)
