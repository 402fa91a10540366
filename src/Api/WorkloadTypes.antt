-- ===== src/Api/WorkloadTypes.antt =====
-- Workload types, sets of them, and the include/exclude filter of a policy.
pub mod Laws
use optipod.Prelude.{
  String, ℕ, Bool, true, false, Option, none, some, List, [], ◌∷◌, str_eq, contains_str, select,
  not, is_empty, length, if◌then◌else◌,
}

-- A string in the source; a value that is none of the three constants is possible.
abbrev pub WorkloadType : Type 0
WorkloadType = String

abbrev pub deployment_type : WorkloadType
deployment_type = "Deployment"

abbrev pub stateful_set_type : WorkloadType
stateful_set_type = "StatefulSet"

abbrev pub daemon_set_type : WorkloadType
daemon_set_type = "DaemonSet"

pub record WorkloadTypeFilter : Type 0 where
  pub include : List WorkloadType
  pub exclude : List WorkloadType

-- A map to `struct{}`: its keys, in some order and each once.
pub record WorkloadTypeSet : Type 0 where
  pub keys : List WorkloadType

unfoldable pub contains : WorkloadTypeSet → WorkloadType → Bool
contains s t = contains_str s.keys t

unfoldable pub add : WorkloadTypeSet → WorkloadType → WorkloadTypeSet
add s t = if contains_str s.keys t then s else record { keys = t ∷ s.keys }

unfoldable pub remove : WorkloadTypeSet → WorkloadType → WorkloadTypeSet
remove s t = record { keys = select (λ k. not (str_eq k t)) s.keys }

add_all : WorkloadTypeSet → List WorkloadType → WorkloadTypeSet
unfolding add
add_all s [] = s
add_all s (t ∷ ts) = add_all (add s t) ts

unfoldable pub new_workload_type_set : List WorkloadType → WorkloadTypeSet
unfolding add_all
new_workload_type_set ts = add_all (record { keys = [] }) ts

unfoldable pub to_slice : WorkloadTypeSet → List WorkloadType
to_slice s = s.keys

unfoldable pub set_is_empty : WorkloadTypeSet → Bool
set_is_empty s = is_empty s.keys

unfoldable pub size : WorkloadTypeSet → ℕ
size s = length s.keys

remove_all : WorkloadTypeSet → List WorkloadType → WorkloadTypeSet
unfolding remove
remove_all s [] = s
remove_all s (t ∷ ts) = remove_all (remove s t) ts

abbrev pub known_types : List WorkloadType
known_types = deployment_type ∷ stateful_set_type ∷ daemon_set_type ∷ []

-- The switch on a filter that may be nil.
unfoldable pub get_active_workload_types : Option WorkloadTypeFilter → WorkloadTypeSet
unfolding new_workload_type_set remove_all
get_active_workload_types none = new_workload_type_set known_types
get_active_workload_types (some f) =
    remove_all
      (if is_empty f.include
        then new_workload_type_set known_types
        else new_workload_type_set f.include)
      f.exclude
