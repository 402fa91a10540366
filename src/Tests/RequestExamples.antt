-- ===== src/Tests/RequestExamples.antt =====
-- How many requests a run sends, with the number of patches as the state.
use mathlib.Core.Path.{subst}
use mathlib.Core.Option.{some-injective}
use optipod.Prelude.{◌≡◌, refl, ℕ, suc, pos, none, some, ok, arith}
use optipod.Platform.Demo.{demo, demo_sort}
use optipod.Cluster.{ApiError}
use optipod.Controller.Processor.{WorkloadProcessor}
use optipod.Controller.Selection.{Reconciler}
use optipod.Controller.Processor.Requests.{CountsPatches}
use optipod.Controller.Processor.Annotations.Attempts.{BackoffLaws}
use optipod.Controller.Selection.Requests.{CountsRequests}
use optipod.Controller.Reconcile.{reconcile}
use optipod.Controller.Reconcile.Requests.{CountsAll, IsFrugal, reconcile-IsFrugal}
use optipod.Application.Apply.{Effects}
use optipod.Tests.Data.{heavy}
use optipod.Tests.ApplicationExamples.{engine}
use optipod.Tests.ControllerExamples.{busy}
use optipod.Tests.ProcessorExamples.{steps_laws, processor, unread}
use optipod.Tests.ReconcileExamples.{reconciler}

-- The state counts the patches.
abbrev patching : Effects ℕ
patching = record { patch = λ request w. (none, suc w); meters = unread }

abbrev patcher : WorkloadProcessor demo ApiError ℕ
patcher = record (processor engine) {
  effects = patching;
  clock = record { now = λ w. pos w; parse = λ text. none; format = λ t. "now"; sleep = λ w. w };
}

abbrev stamping : Reconciler demo ApiError ℕ
stamping = record (reconciler busy (some patcher)) {
  store = record { get = λ namespace name w. (ok heavy, w); update_status = λ p w. (none, w) };
  recorder = λ p e w. w;
}

patcher_counts : CountsPatches patcher (λ w. w)
patcher_counts = record {
  patch_once = λ r v. omega arith;
  inc_keeps = λ c values v. refl;
  observe_keeps = λ c values d v. refl;
  metrics_keeps = λ namespace pod container window v. refl;
  list_pods_keeps = λ c h. cc;
  get_keeps = λ c h. cc;
  update_keeps = λ c h. cc;
  sleep_keeps = λ v. refl;
}

stamping_counts : CountsRequests stamping (λ w. w)
stamping_counts = record {
  recorder_keeps = λ p e v. refl;
  inc_keeps = λ c values v. refl;
  set_keeps = λ c values n v. refl;
  store_keeps = record { get_keeps = λ namespace name v. refl; update_keeps = λ p v. refl };
  counts = λ wp h.
      let q : patcher ≡ wp = some-injective _ _ h in
      subst
        (λ (x : WorkloadProcessor demo ApiError ℕ).
          CountsPatches x (λ w. w) × BackoffLaws x.backoff)
        q (patcher_counts, steps_laws);
}

stamping_counts_all : CountsAll stamping (λ w. w)
stamping_counts_all = record {
  requests = stamping_counts;
  observe_keeps = λ c values d v. refl;
  event_keeps = λ er h. cc;
}

reconcile-IsFrugal_example :
    IsFrugal demo_sort stamping
      (λ w. w)
      stamping_counts_all
      "ops"
      "heavy"
      7
      (reconcile stamping "ops" "heavy" 7).1
reconcile-IsFrugal_example =
    reconcile-IsFrugal demo_sort stamping (λ w. w) stamping_counts_all "ops" "heavy" 7
