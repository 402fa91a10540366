-- ===== src/Application/Resources.antt =====
-- The resources that a workload has now, and the check that its memory is not cut too far.
use Prim.Native.Nat.{Ordering}
use optipod.Prelude.{
  ◌≤ℤ◌, String, str_eq, Bool, true, false, Option, none, some, List, [], ◌∷◌, StrMap, insert,
  Result, ok, err, ◌>>=◌, All, if◌then◌else◌,
}
use optipod.Platform.{Platform}
use optipod.Platform.Laws.{QuantityLaws}
use optipod.Recommendation.{Recommendation}
use optipod.Application.Values.{
  Value, obj, Fields, index, as_map, as_string, Accessors, AppWorkload, kind_deployment,
  kind_stateful_set, kind_daemon_set, containers_path,
}

pub data ResourcesError : Type 0 where
  unsupported_kind : String → ResourcesError
  extraction_failed : ResourcesError
  invalid_cpu_request invalid_memory_request : String → String → ResourcesError
  invalid_cpu_limit invalid_memory_limit : String → String → ResourcesError

-- A `corev1.ResourceList`: the entries that the source reads and writes.
pub record ResourceList (P : Platform) : Type 0 where
  pub cpu : Option P.Quantity
  pub memory : Option P.Quantity

-- `corev1.ResourceRequirements`; a map that is not there is nil.
pub record ResourceRequirements (P : Platform) : Type 0 where
  pub requests : Option (ResourceList P)
  pub limits : Option (ResourceList P)

-- The switch on the kind: all three read the same path.
unfoldable pub workload_containers : Accessors → AppWorkload → Result ResourcesError (List Value)
workload_containers a w =
    let read : Result ResourcesError (List Value) = elim (a.nested_slice w.object containers_path) [
      | none ↦ err extraction_failed
      | some l ↦ ok l
    ] in
    if str_eq w.kind kind_deployment
    then read
    else if str_eq w.kind kind_stateful_set
    then read
    else if str_eq w.kind kind_daemon_set
    then read
    else err (unsupported_kind w.kind)

module _ (P : Platform) where
  open P use {Quantity, parse_quantity}

  -- An entry that is no string is left out; one that does not parse is the error.
  parse_entry : (String → ResourcesError) → Option String → Result ResourcesError (Option Quantity)
  parse_entry e none = ok none
  parse_entry e (some s) = elim (parse_quantity s) [ none ↦ err (e s) | some q ↦ ok (some q) ]

  parse_list :
      (String → ResourcesError)
      → (String → ResourcesError)
      → Option Fields
      → Result ResourcesError (Option (ResourceList P))
  unfolding parse_entry
  parse_list bad_cpu bad_memory none = ok none
  parse_list bad_cpu bad_memory (some m) = do
    cpu ← parse_entry bad_cpu (as_string (index "cpu" m))
    memory ← parse_entry bad_memory (as_string (index "memory" m))
    ok (some (record { cpu = cpu; memory = memory }))

module _ {P : Platform} (a : Accessors) where
  -- One round of the loop: a container that is no map is passed over.
  container_resources :
      Value
      → StrMap (ResourceRequirements P)
      → Result ResourcesError (StrMap (ResourceRequirements P))
  unfolding parse_list
  container_resources (obj container) found = do
    let name = a.nested_string container "name"
    let resources = a.nested_map container "resources"
    requests ←
        parse_list P (invalid_cpu_request name) (invalid_memory_request name)
          (as_map (index "requests" resources))
    limits ←
        parse_list P (invalid_cpu_limit name) (invalid_memory_limit name)
          (as_map (index "limits" resources))
    ok (insert name (record { requests = requests; limits = limits }) found)
  container_resources _ found = ok found

  collect_resources :
      List Value
      → StrMap (ResourceRequirements P)
      → Result ResourcesError (StrMap (ResourceRequirements P))
  collect_resources [] found = ok found
  collect_resources (c ∷ cs) found =
      container_resources c found >>= λ more. collect_resources cs more

  unfoldable pub get_current_resources :
      AppWorkload → Result ResourcesError (StrMap (ResourceRequirements P))
  unfolding workload_containers collect_resources container_resources
  get_current_resources w = do containers ← workload_containers a w; collect_resources containers []

module _ {P : Platform} where
  open P use {cmp, Quantity}

  abbrev memory_limit : ResourceRequirements P → Option Quantity
  memory_limit r = elim r.limits [ none ↦ none | some l ↦ l.memory ]

  -- The recommended memory is below the limit of one container.
  abbrev cuts : Quantity → ResourceRequirements P → Bool
  cuts memory r = elim (memory_limit r) [
    | none ↦ false
    | some limit ↦ elim (cmp memory limit) [ Ordering.lt ↦ true | _ ↦ false ]
  ]

  unfoldable pub is_unsafe_memory_decrease :
      StrMap (ResourceRequirements P) → Recommendation P → Bool
  is_unsafe_memory_decrease [] rec = false
  is_unsafe_memory_decrease ((name, r) ∷ rest) rec =
      if cuts rec.memory r then true else is_unsafe_memory_decrease rest rec

module _ {P : Platform} (amounts : QuantityLaws P) where
  open amounts use {nanos, cmp-nanos}

  -- The memory is at least the limit, if there is one.
  abbrev pub CoversLimit : P.Quantity → Option P.Quantity → Type 0
  CoversLimit memory none = Unit
  CoversLimit memory (some limit) = nanos limit ≤ℤ nanos memory

  abbrev pub Covers : P.Quantity → Option (ResourceList P) → Type 0
  Covers memory none = Unit
  Covers memory (some limits) = CoversLimit memory limits.memory

  -- The recommended memory is at least every memory limit.
  abbrev pub RespectsLimits : Recommendation P → StrMap (ResourceRequirements P) → Type 0
  RespectsLimits rec m = All (λ entry. Covers rec.memory (entry.1).limits) m
