-- ===== src/Tests/ObservabilityExamples.antt =====
-- Runs of the registration and of the events.
use optipod.Prelude.{◌≡◌, refl, String, contains_str, none, some, List, [], ◌∷◌, if◌then◌else◌}
use optipod.Observability.Events.{
  EventRecorder, Event, event, event_normal, record_ssa_ownership_taken,
}
use optipod.Observability.Collectors.{Registry, register_metrics}

-- A registry as the names that are taken.
abbrev names : Registry String (List String)
names = record {
  register = λ c w. if contains_str w c.name then (some "taken", w) else (none, c.name ∷ w);
}

-- Every collector is registered, once, and a second registration changes nothing.
registered_names :
    register_metrics names (register_metrics names [])
    ≡ "optipod_ssa_patch_total" ∷ "optipod_applications_total" ∷ "optipod_recommendations_total"
      ∷ "optipod_reconciliation_errors_total" ∷ "optipod_metrics_collection_duration_seconds"
      ∷ "optipod_reconciliation_duration_seconds" ∷ "optipod_workloads_skipped"
      ∷ "optipod_workloads_updated" ∷ "optipod_workloads_monitored" ∷ []
unfolding register_metrics
registered_names = refl

abbrev log : EventRecorder String (List Event)
log = record { recorder = λ o e w. e ∷ w }

-- The message names the previous owner where there is one.
ownership_run :
    record_ssa_ownership_taken log "p" "web" "shop" "helm" []
    ≡ event event_normal "SSAOwnershipTaken"
        "Took ownership of resource fields for workload shop/web via Server-Side Apply (previous owner: helm)"
      ∷ []
unfolding record_ssa_ownership_taken
ownership_run = refl
