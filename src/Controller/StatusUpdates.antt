-- ===== src/Controller/StatusUpdates.antt =====
-- The three updates of a policy's status, each a change under the retry loop, and the counting of
-- workloads by type.
pub mod Counts
pub mod Confirmed
pub mod Settles
use optipod.Prelude.{
  ◌≡◌, refl, ℕ, suc, ◌+◌, ◌*◌, ◌^◌, ◌<◌, ℤ, pos, ◌+ℤ◌, ◌-ℤ◌, int64, int64_id, ltb_ℤ, eqb_ℤ,
  eq_of_eqb_ℤ, String, str_eq, eq_iff, Bool, true, false, not, ◌||◌, Option, none, some, value_or,
  List, [], ◌∷◌, length, select, All, StrMap, lookup, insert, lookup-insert, arith, if◌then◌else◌,
  Bool-cases, inl, inr,
}
use optipod.Platform.{Platform}
use optipod.Cluster.{Workload}
use optipod.Api.WorkloadTypes.{
  WorkloadType, deployment_type, stateful_set_type, daemon_set_type, known_types,
}
use optipod.Api.Types.{OptimizationPolicy, OptimizationPolicyStatus, Condition, Time}
use optipod.Api.Status.{
  initialize_workload_type_status, update_workload_type_count, get_workload_type_count,
  get_count-update_count,
}
use optipod.Controller.Retry.{PolicyStore, StatusError, retry_update, max_retries}
use optipod.Controller.Conditions.{merge_condition}

-- A type that is not in the map counts 0.
abbrev pub expected : StrMap ℤ → WorkloadType → ℤ
expected type_counts t = value_or (pos 0) (lookup t type_counts)

-- `workloadTypeCounts[workloadType]++`, for each workload.
unfoldable pub count_types : List Workload → StrMap ℤ → StrMap ℤ
count_types [] m = m
count_types (w ∷ ws) m = count_types ws (insert w.kind (int64 (expected m w.kind +ℤ pos 1)) m)

-- Some type of the list has another count.
unfoldable pub any_differs :
    OptimizationPolicyStatus → (WorkloadType → ℤ) → List WorkloadType → Bool
any_differs s count [] = false
any_differs s count (t ∷ ts) =
    let rest = any_differs s count ts in
    if not (eqb_ℤ (get_workload_type_count t s) (count t)) then true else rest

pub any_entry_differs : OptimizationPolicyStatus → StrMap ℤ → Bool
any_entry_differs s [] = false
any_entry_differs s ((t, n) ∷ rest) =
    let later = any_entry_differs s rest in
    if not (eqb_ℤ (get_workload_type_count t s) n) then true else later

abbrev pub set_counts : StrMap ℤ → OptimizationPolicyStatus → OptimizationPolicyStatus
set_counts m s = update_workload_type_count daemon_set_type (expected m daemon_set_type) (
    update_workload_type_count stateful_set_type (expected m stateful_set_type)
      (update_workload_type_count deployment_type (expected m deployment_type) s))

-- The status that is written, or `none` where no update is needed.
unfoldable pub type_counts_change :
    StrMap ℤ → OptimizationPolicyStatus → Option OptimizationPolicyStatus
unfolding any_entry_differs
type_counts_change m status =
    let s = initialize_workload_type_status status in
    if any_entry_differs s m || any_differs s (expected m) known_types
    then some (set_counts m s)
    else none

-- One minute, in nanoseconds.
abbrev minute : ℤ
minute = pos (60 * 10 ^ 9)

unfoldable pub summary_change :
    ℤ → ℤ → Time → OptimizationPolicyStatus → Option OptimizationPolicyStatus
summary_change discovered processed now s =
    let stale : Bool = elim s.last_reconciliation [
      | none ↦ true
      | some t ↦ ltb_ℤ minute (now -ℤ t)
    ] in
    if not (eqb_ℤ s.workloads_discovered discovered)
      || not (eqb_ℤ s.workloads_processed processed)
      || stale
    then some (record s {
      workloads_discovered = discovered;
      workloads_processed = processed;
      last_reconciliation = some now;
    })
    else none

abbrev condition_change : Condition → OptimizationPolicyStatus → Option OptimizationPolicyStatus
condition_change c s = elim (merge_condition c s.conditions) [
  | none ↦ none
  | some l ↦ some (record s { conditions = l })
]

module _ {P : Platform} {W : Type 0} (store : PolicyStore P W) where
  -- A change of the status, as a change of the policy.
  abbrev with_status :
      OptimizationPolicy P → Option OptimizationPolicyStatus → Option (OptimizationPolicy P)
  with_status p none = none
  with_status p (some s) = some (record p { status = s })

  unfoldable pub update_policy_status :
      OptimizationPolicy P → Condition → W → Option StatusError × W
  update_policy_status pol c =
      retry_update store (λ w p. with_status p (condition_change c p.status)) pol max_retries

  -- The clock is read at each attempt.
  unfoldable pub update_policy_summary :
      (W → Time) → OptimizationPolicy P → ℤ → ℤ → W → Option StatusError × W
  update_policy_summary clock pol discovered processed =
      retry_update store
        (λ w p. with_status p (summary_change discovered processed (clock w) p.status)) pol
        max_retries

  unfoldable pub update_workload_type_counts :
      OptimizationPolicy P → StrMap ℤ → W → Option StatusError × W
  update_workload_type_counts pol m =
      retry_update store (λ w p. with_status p (type_counts_change m p.status)) pol max_retries

-- The workloads of a kind.
abbrev pub of_kind : String → List Workload → List Workload
of_kind k ws = select (λ w. str_eq w.kind k) ws
