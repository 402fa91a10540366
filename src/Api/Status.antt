-- ===== src/Api/Status.antt =====
-- The workload counts in the status of a policy.
use optipod.Prelude.{
  ◌≡◌, ℤ, pos, ◌+ℤ◌, int64, str_eq, eq_iff, none, some, arith, if◌then◌else◌, contains_str,
}
use optipod.Api.WorkloadTypes.{
  WorkloadType, deployment_type, stateful_set_type, daemon_set_type, known_types,
}
use optipod.Api.Types.{OptimizationPolicyStatus, WorkloadTypeStatus}

abbrev zero_counts : WorkloadTypeStatus
zero_counts = record { deployments = pos 0; stateful_sets = pos 0; daemon_sets = pos 0 }

-- The methods below stand on the policy in the source and touch only its status.
unfoldable pub initialize_workload_type_status : OptimizationPolicyStatus → OptimizationPolicyStatus
initialize_workload_type_status s = elim s.workloads_by_type [
  | none ↦ record s { workloads_by_type = some zero_counts }
  | some c ↦ s
]

abbrev set_count : WorkloadType → ℤ → WorkloadTypeStatus → WorkloadTypeStatus
set_count t n c =
    if str_eq t deployment_type
    then record c { deployments = n }
    else if str_eq t stateful_set_type
    then record c { stateful_sets = n }
    else if str_eq t daemon_set_type
    then record c { daemon_sets = n }
    else c

abbrev count_of : WorkloadType → WorkloadTypeStatus → ℤ
count_of t c =
    if str_eq t deployment_type
    then c.deployments
    else if str_eq t stateful_set_type
    then c.stateful_sets
    else if str_eq t daemon_set_type
    then c.daemon_sets
    else pos 0

-- The counts after `InitializeWorkloadTypeStatus`, which are there.
abbrev counts : OptimizationPolicyStatus → WorkloadTypeStatus
counts s = elim s.workloads_by_type [ none ↦ zero_counts | some c ↦ c ]

unfoldable pub update_workload_type_count :
    WorkloadType → ℤ → OptimizationPolicyStatus → OptimizationPolicyStatus
unfolding initialize_workload_type_status
update_workload_type_count t n s =
    let s' = initialize_workload_type_status s in
    record s' { workloads_by_type = some (set_count t n (counts s')) }

unfoldable pub increment_workload_type_count :
    WorkloadType → OptimizationPolicyStatus → OptimizationPolicyStatus
unfolding initialize_workload_type_status
increment_workload_type_count t s =
    let s' = initialize_workload_type_status s in
    record s' {
      workloads_by_type = some (set_count t (int64 (count_of t (counts s') +ℤ pos 1)) (counts s'));
    }

unfoldable pub get_workload_type_count : WorkloadType → OptimizationPolicyStatus → ℤ
get_workload_type_count t s = elim s.workloads_by_type [ none ↦ pos 0 | some c ↦ count_of t c ]

unfoldable pub get_total_workloads_by_type : OptimizationPolicyStatus → ℤ
get_total_workloads_by_type s = elim s.workloads_by_type [
  | none ↦ pos 0
  | some c ↦ int64 (int64 (c.deployments +ℤ c.stateful_sets) +ℤ c.daemon_sets)
]

-- After a count is set for one of the three types, reading any type gives the new count for that
-- type and the old count for the others; a type that is none of the three changes nothing.
pub get_count-update_count :
    (t u : WorkloadType) (n : ℤ) (s : OptimizationPolicyStatus)
    → get_workload_type_count u (update_workload_type_count t n s) ≡ (
        if str_eq u t
        then (if contains_str known_types t then n else pos 0)
        else get_workload_type_count u s)
unfolding get_workload_type_count update_workload_type_count
get_count-update_count t u n s = ground (
  arith,
  eq_iff u t,
  eq_iff t deployment_type,
  eq_iff t stateful_set_type,
  eq_iff t daemon_set_type,
  eq_iff u deployment_type,
  eq_iff u stateful_set_type,
  eq_iff u daemon_set_type,
)
