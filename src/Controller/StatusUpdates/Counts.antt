-- ===== src/Controller/StatusUpdates/Counts.antt =====
-- The counts by type: what the discovery counts, and what the status says after the update.
use optipod.Prelude.{
  ◌≡◌, refl, ℕ, ◌+◌, ◌^◌, ◌<◌, ℤ, pos, ◌+ℤ◌, int64, eq_of_eqb_ℤ, String, str_eq, eq_iff, false,
  ◌||◌, Option, none, some, List, [], ◌∷◌, length, All, StrMap, lookup, insert, lookup-insert,
  arith, if◌then◌else◌, Bool-cases, inl, inr,
}
use optipod.Cluster.{Workload}
use optipod.Api.WorkloadTypes.{
  WorkloadType, deployment_type, stateful_set_type, daemon_set_type, known_types,
}
use optipod.Api.Types.{OptimizationPolicyStatus}
use optipod.Api.Status.{
  initialize_workload_type_status, get_workload_type_count, get_count-update_count,
}
use optipod.Controller.StatusUpdates.{
  expected, count_types, set_counts, any_differs, any_entry_differs, type_counts_change, of_kind,
}

one_more : (n : ℕ) → n < 2 ^ 62 → int64 (pos n +ℤ pos 1) ≡ pos (n + 1)
unfolding ◌+ℤ◌ int64
one_more n h = ground (arith)

counted :
    (k j : String) (v : ℤ) (m : StrMap ℤ)
    → expected (insert k v m) j ≡ (if str_eq k j then v else expected m j)
counted k j v m = rw (lookup-insert k j v m) (ground (arith))

count_types_from :
    (ws : List Workload) (k : String) (m : StrMap ℤ) (n : ℕ)
    → expected m k ≡ pos n
    → n + length ws < 2 ^ 62
    → expected (count_types ws m) k ≡ pos (n + length (of_kind k ws))
unfolding count_types
count_types_from [] k m n h l = rw h (ground (arith))
count_types_from (w ∷ ws) k m n h l = elim (Bool-cases (str_eq w.kind k)) [
  | inl same ↦
      let e = (eq_iff w.kind k).0 same in
      ground (
        arith,
        e,
        counted w.kind k (int64 (expected m w.kind +ℤ pos 1)) m,
        one_more n,
        count_types_from ws k (insert w.kind (int64 (expected m w.kind +ℤ pos 1)) m) (n + 1),
      )
  | inr other ↦ ground (
    arith,
    counted w.kind k (int64 (expected m w.kind +ℤ pos 1)) m,
    count_types_from ws k (insert w.kind (int64 (expected m w.kind +ℤ pos 1)) m) n,
  )
]

-- The map that the discovery builds has, for every kind, the number of its workloads.
pub count_types_lem :
    (ws : List Workload) (k : String)
    → length ws < 2 ^ 62
    → expected (count_types ws []) k ≡ pos (length (of_kind k ws))
unfolding lookup
count_types_lem ws k l = ground (arith, count_types_from ws k [] 0 refl)

-- The status says of each of the three types what the map says.
abbrev pub IsCounted : StrMap ℤ → OptimizationPolicyStatus → Type 0
IsCounted m s = All (λ t. get_workload_type_count t s ≡ expected m t) known_types

abbrev pub written_or :
    OptimizationPolicyStatus → Option OptimizationPolicyStatus → OptimizationPolicyStatus
written_or s none = s
written_or s (some s') = s'

settled :
    (m : StrMap ℤ) (s : OptimizationPolicyStatus) (ts : List WorkloadType)
    → any_differs s (expected m) ts ≡ false
    → All (λ t. get_workload_type_count t s ≡ expected m t) ts
unfolding any_differs
settled m s [] h = tt
settled m s (t ∷ ts) h = (
  ground (arith, eq_of_eqb_ℤ (get_workload_type_count t s) (expected m t)),
  settled m s ts (ground (arith)),
)

initialized :
    (t : WorkloadType) (s : OptimizationPolicyStatus)
    → get_workload_type_count t (initialize_workload_type_status s) ≡ get_workload_type_count t s
unfolding initialize_workload_type_status get_workload_type_count
initialized t s = ground (arith)

set_counts-IsCounted : (m : StrMap ℤ) (s : OptimizationPolicyStatus) → IsCounted m (set_counts m s)
set_counts-IsCounted m s = (
  rw (
    get_count-update_count daemon_set_type,
    get_count-update_count stateful_set_type,
    get_count-update_count deployment_type,
  ),
  (
    rw (get_count-update_count daemon_set_type, get_count-update_count stateful_set_type),
    (rw (get_count-update_count daemon_set_type), tt),
  ),
)

-- With an update or, where none is needed, without one, the status counts what the map counts.
pub type_counts_change-IsCounted :
    (m : StrMap ℤ) (s : OptimizationPolicyStatus)
    → IsCounted m (written_or s (type_counts_change m s))
unfolding type_counts_change
type_counts_change-IsCounted m s =
    elim (Bool-cases (
      any_entry_differs (initialize_workload_type_status s) m
      || any_differs (initialize_workload_type_status s) (expected m) known_types)) [
        | inl some_differ ↦
            rw (some_differ, type_counts_change)
              (set_counts-IsCounted m (initialize_workload_type_status s))
        | inr none_differs ↦
            rw (none_differs, type_counts_change)
              (unchanged
                (settled m (initialize_workload_type_status s) known_types (ground (arith))))
      ]
  where
    unchanged : IsCounted m (initialize_workload_type_status s) → IsCounted m s
    unchanged h = (
      rw (← initialized deployment_type s) h.0,
      (
        rw (← initialized stateful_set_type s) h.1.0,
        (rw (← initialized daemon_set_type s) h.1.1.0, tt),
      ),
    )
