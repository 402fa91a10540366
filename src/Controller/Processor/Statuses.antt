-- ===== src/Controller/Processor/Statuses.antt =====
-- The results of `ProcessWorkload`: the statuses that its steps leave.
use optipod.Prelude.{false, Option, none, some, []}
use optipod.Platform.{Platform}
use optipod.Cluster.{Workload}
use optipod.Api.Types.{ContainerRecommendation}
use optipod.Recommendation.{Recommendation}
use optipod.Application.Apply.{ApplyResult}
use optipod.Controller.Processor.{
  Status, status_unset, status_error, status_applied, ProcessError, Reason, no_reason,
  applied_successfully, failed, WorkloadStatus,
}

-- The two results: the status, nil for an unknown mode, and the error.
pub record Processed (P : Platform) (E : Type 0) : Type 0 where
  pub status : Option (WorkloadStatus P E)
  pub error : Option ProcessError

module _ {P : Platform} {E : Type 0} where
  abbrev pub fresh_status : Workload → WorkloadStatus P E
  fresh_status w = record {
    name = w.name;
    namespace = w.namespace;
    kind = w.kind;
    last_recommendation = none;
    last_applied = none;
    recommendations = [];
    status = status_unset;
    reason = no_reason;
    last_apply_method = none;
    field_ownership = false;
  }

  abbrev pub finished : Status → Reason E → WorkloadStatus P E → Processed P E
  finished s r st = record { status = some (record st { status = s; reason = r }); error = none }

  abbrev pub stopped : ProcessError → WorkloadStatus P E → Processed P E
  stopped e st = record {
    status = some (record st { status = status_error; reason = failed e });
    error = some e;
  }

  -- The status after the last container.
  abbrev pub conclude : Option ApplyResult → WorkloadStatus P E → Processed P E
  conclude none st = finished status_applied applied_successfully st
  conclude (some r) st =
      finished status_applied applied_successfully
        (record st { last_apply_method = some r.method; field_ownership = r.field_ownership })

module _ {P : Platform} where
  -- The pointers of a recommendation are followed; its explanation is left empty.
  abbrev pub app_recommendation : ContainerRecommendation P → Option (Recommendation P)
  app_recommendation r = elim r.cpu [
    | none ↦ none
    | some cpu ↦ elim r.memory [
      | none ↦ none
      | some memory ↦ some (record { cpu = cpu; memory = memory; explanation = none })
    ]
  ]
