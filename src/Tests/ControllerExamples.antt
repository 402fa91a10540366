-- ===== src/Tests/ControllerExamples.antt =====
-- The status updates, on an API server that answers a number of conflicts first.
use optipod.Prelude.{
  ◌≡◌, refl, String, ℕ, zero, suc, pos, none, some, [], ◌∷◌, Option, ok, StrMap, ℤ,
}
use optipod.Platform.Demo.{demo}
use optipod.Cluster.{conflict}
use optipod.Api.Types.{Condition, OptimizationPolicy}
use optipod.Controller.Retry.{PolicyStore, retry_update}
use optipod.Controller.Retry.Outcome.{IsOutcome, retry_update-IsOutcome}
use optipod.Controller.StatusUpdates.{type_counts_change}
use optipod.Controller.StatusUpdates.Counts.{IsCounted, written_or, type_counts_change-IsCounted}
use optipod.Tests.Data.{heavy, fresh_status}

-- The state is the number of conflicts that are still to come.
abbrev pub busy : PolicyStore demo ℕ
busy = record {
  get = λ namespace name w. (ok heavy, w);
  update_status = λ p w. elim w [ zero ↦ (none, zero) | suc n ↦ (some conflict, n) ];
}

abbrev same : ℕ → OptimizationPolicy demo → Option (OptimizationPolicy demo)
same w p = some p

retry_update-IsOutcome_example :
    IsOutcome busy same heavy 3 2
      (retry_update busy same heavy 3 2).1
      (retry_update busy same heavy 3 2).0
retry_update-IsOutcome_example = retry_update-IsOutcome busy same heavy 3 2

two_conflicts : (retry_update busy same heavy 3 2).0 ≡ none
unfolding retry_update
two_conflicts = refl

abbrev pub ready : String → Condition
ready status = record {
  type = "Ready";
  status = status;
  reason = "PolicyValid";
  message = "ok";
  last_transition_time = pos 0;
}

abbrev two_deployments : StrMap ℤ
two_deployments = ("Deployment", pos 2) ∷ []

type_counts_change-IsCounted_example :
    IsCounted two_deployments
      (written_or fresh_status (type_counts_change two_deployments fresh_status))
type_counts_change-IsCounted_example = type_counts_change-IsCounted two_deployments fresh_status
