-- ===== src/Tests/ApiExamples.antt =====
-- The policy resource.
use optipod.Prelude.{◌≡◌, ◌↔◌, some, ok}
use optipod.Api.WorkloadTypes.{contains, get_active_workload_types}
use optipod.Api.WorkloadTypes.Laws.{contains-get_active_workload_types, lets_through}
use optipod.Api.Validation.{validate_create}
use optipod.Api.Validation.Laws.{IsValidPolicy, validate_create_iff}
use optipod.Tests.Data.{heavy, no_daemons}

contains-get_active_workload_types_example :
    contains (get_active_workload_types (some no_daemons)) "StatefulSet"
    ≡ lets_through (some no_daemons) "StatefulSet"
contains-get_active_workload_types_example =
    contains-get_active_workload_types (some no_daemons) "StatefulSet"

validate_create_iff_example : (validate_create heavy ≡ ok tt) ↔ IsValidPolicy heavy
validate_create_iff_example = validate_create_iff heavy
