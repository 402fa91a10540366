-- ===== src/Tests/ReconcileExamples.antt =====
-- Reconciliations of one policy, with a number as the state of the cluster.
use mathlib.Core.Path.{subst}
use mathlib.Core.List.{mem-cons, not-mem-nil}
use mathlib.Core.Logic.Or
use mathlib.Core.HLevel.{⊥_prop}
use optipod.Prelude.{
  Mem, sym, ap, ◌∙◌, ◌≡◌, refl, ℕ, suc, pos, str_eq, ◌&&◌, true, Option, none, some, [], ◌∷◌, ok,
  err, arith, if◌then◌else◌,
}
use optipod.Platform.Demo.{demo, demo_sort}
use optipod.Cluster.{ApiError, not_found}
use optipod.Api.Types.{OptimizationPolicy, Condition}
use optipod.Application.Decision.{EngineConfig}
use optipod.Platform.Demo.Floats.{demo_order, demo_fractions, demo_half}
use optipod.Controller.Requeue.{five_minutes}
use optipod.Controller.Retry.{PolicyStore, retry_update}
use optipod.Controller.Retry.Attempts.{IsWithin, counted, retry_update-IsWithin}
use optipod.Controller.Conditions.{merge_condition}
use optipod.Controller.StatusUpdates.{update_policy_status}
use optipod.Controller.StatusUpdates.Confirmed.{IsConfirmed, update_policy_status-IsConfirmed}
use optipod.Controller.Processor.{WorkloadProcessor}
use optipod.Controller.Selection.{Reconciler, process_workloads_with_policy_selection}
use optipod.Controller.Selection.Runs.{IsSelectionOutcome, process_workloads-IsSelectionOutcome}
use optipod.Controller.Reconcile.{reconcile}
use optipod.Controller.Reconcile.Outcome.{IsInTime, reconcile-IsInTime}
use optipod.Controller.Reconcile.Answers.{IsAnswer, reconcile-IsAnswer}
use optipod.Controller.Reconcile.Engines.{IsNeverAuto, reconcile-with_engine}
use optipod.Controller.Reconcile.DryRun.{reconcile_dry_run}
use optipod.Tests.Data.{heavy, listing}
use optipod.Tests.ApplicationExamples.{engine}
use optipod.Tests.ControllerExamples.{busy, ready}
use optipod.Tests.ProcessorExamples.{processor, silent, unread, recommending, recommend-ne-auto}
use optipod.Tests.RecommendationExamples.{heavy_valid}
use optipod.Tests.SelectionExamples.{listing_honest}

abbrev pub reconciler :
    PolicyStore demo ℕ → Option (WorkloadProcessor demo ApiError ℕ) → Reconciler demo ApiError ℕ
reconciler store o = record {
  reads = λ w. listing (heavy ∷ []);
  store = store;
  processor = o;
  recorder = λ p e w. suc w;
  event_recorder = none;
  meters = unread;
  now = λ w. pos w;
  random = λ w. pos 500;
  validation_text = λ e. "invalid";
  discovery_text = λ e. "undiscovered";
  process_text = λ e. "unprocessed";
}

abbrev running : Reconciler demo ApiError ℕ
running = reconciler busy (some (processor engine))

process_workloads-IsSelectionOutcome_example :
    IsSelectionOutcome demo_sort running heavy 2
      (process_workloads_with_policy_selection running heavy 2).0
      (process_workloads_with_policy_selection running heavy 2).1
process_workloads-IsSelectionOutcome_example =
    process_workloads-IsSelectionOutcome demo_sort running heavy 2 (listing_honest (heavy ∷ []))

reconcile-IsInTime_example : IsInTime 300000000000 (reconcile running "ops" "heavy" 2).0
reconcile-IsInTime_example =
    reconcile-IsInTime running demo_order demo_fractions heavy 300000000000 (five_minutes refl)
      (omega arith) (λ v. demo_half) "ops" "heavy" 2 refl heavy_valid

abbrev dry : EngineConfig
dry = record engine { dry_run = true }

reconcile_dry_run_example :
    reconcile (reconciler busy (some (record (processor dry) { effects = silent }))) "ops" "heavy" 0
    ≡ reconcile (reconciler busy (some (processor dry))) "ops" "heavy" 0
reconcile_dry_run_example =
    reconcile_dry_run (reconciler busy none) (processor dry) silent refl "ops" "heavy" 0

-- The one policy is in Recommend mode.
abbrev advising : Reconciler demo ApiError ℕ
advising = record (reconciler busy none) {
  reads = λ w. listing (recommending ∷ []);
  store = record {
    get = λ namespace name w. (ok recommending, w);
    update_status = λ p w. (none, suc w);
  };
}

advising-IsNeverAuto : IsNeverAuto demo_sort advising "heavy"
advising-IsNeverAuto v ps q listed m named auto =
    let same : ps ≡ recommending ∷ [] = cc in
    let m' : Mem q (recommending ∷ []) = subst (Mem q) same m in
    Or.elim ⊥_prop (mem-cons.0 m')
      (λ only. recommend-ne-auto (sym (ap (λ p. p.spec.mode) only) ∙ auto)) (λ n. not-mem-nil n)

reconcile-with_engine_example :
    reconcile
      (record advising {
        processor = some (record (processor engine) { engine = dry; effects = silent });
      })
      "ops"
      "heavy"
      0
    ≡ reconcile (record advising { processor = some (processor engine) }) "ops" "heavy" 0
reconcile-with_engine_example =
    reconcile-with_engine demo_sort advising (processor engine) dry silent "ops" "heavy" 0
      advising-IsNeverAuto (λ p h. cc)

-- The stored policy is the state.
abbrev keeping : PolicyStore demo (OptimizationPolicy demo)
keeping = record {
  get = λ namespace name w.
      (if str_eq w.namespace namespace && str_eq w.name name then ok w else err not_found, w);
  update_status = λ p w.
      if str_eq w.namespace p.namespace && str_eq w.name p.name
      then (none, p)
      else (some not_found, w);
}

written : (update_policy_status keeping heavy (ready "True") heavy).0 ≡ none
unfolding update_policy_status retry_update merge_condition
written = refl

update_policy_status-IsConfirmed_example :
    IsConfirmed keeping heavy
      (ready "True")
      heavy
      (update_policy_status keeping heavy (ready "True") heavy).1
update_policy_status-IsConfirmed_example =
    update_policy_status-IsConfirmed keeping heavy (ready "True") heavy written

-- The same, a moment later.
abbrev ready_later : Condition
ready_later = record (ready "True") { last_transition_time = pos 999 }

retry_update-IsWithin_example :
    IsWithin keeping 3
      (record { state = heavy; fetches = 0; writes = 0 })
      (retry_update
        (counted keeping)
        (λ d p. some p)
        heavy
        3
        (record { state = heavy; fetches = 0; writes = 0 }))
      (retry_update keeping (λ w p. some p) heavy 3 heavy)
retry_update-IsWithin_example =
    retry_update-IsWithin keeping (λ w p. some p) heavy 3
      (record { state = heavy; fetches = 0; writes = 0 })

-- The whole cluster is the one policy.
abbrev keeper : Reconciler demo ApiError (OptimizationPolicy demo)
keeper = record {
  reads = λ w. listing (w ∷ []);
  store = keeping;
  processor = none;
  recorder = λ p e w. w;
  event_recorder = none;
  meters = record {
    set = λ c values n w. w;
    inc = λ c values w. w;
    observe_seconds = λ c values d w. w;
  };
  now = λ w. pos 7;
  random = λ w. pos 500;
  validation_text = λ e. "invalid";
  discovery_text = λ e. "undiscovered";
  process_text = λ e. "unprocessed";
}

reconcile-IsAnswer_example :
    (u : OptimizationPolicy demo) × IsAnswer demo_sort keeper "ops" "heavy" heavy
      (reconcile keeper "ops" "heavy" heavy).0
      u
    × ((reconcile keeper "ops" "heavy" heavy).1 ≡ u)
reconcile-IsAnswer_example =
    reconcile-IsAnswer demo_sort keeper (λ w. listing_honest (w ∷ [])) "ops" "heavy" heavy
