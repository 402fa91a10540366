-- ===== src/Api/WorkloadTypes/Laws.antt =====
-- Membership in the sets, and which types a filter leaves active.
use optipod.Prelude.{
  ◌≡◌, refl, String, Bool, false, Option, none, some, List, [], ◌∷◌, ◌&&◌, ◌||◌, not, str_eq,
  contains_str, select, is_empty, arith, eq_iff, if◌then◌else◌, Bool-cases, inl, inr,
}
use optipod.Api.WorkloadTypes.{
  WorkloadType, WorkloadTypeFilter, WorkloadTypeSet, contains, add, remove, add_all, remove_all,
  new_workload_type_set, known_types, get_active_workload_types, to_slice,
}

contains_str-select :
    (t u : String) (l : List String)
    → contains_str (select (λ k. not (str_eq k t)) l) u ≡ (contains_str l u && not (str_eq u t))
contains_str-select t u [] = refl
contains_str-select t u (k ∷ l) =
    ground (arith, contains_str-select t u l, eq_iff k t, eq_iff u k, eq_iff u t)

pub contains-remove :
    (s : WorkloadTypeSet) (t u : WorkloadType)
    → contains (remove s t) u ≡ (contains s u && not (str_eq u t))
unfolding contains remove
contains-remove s t u = contains_str-select t u s.keys

pub contains-add :
    (s : WorkloadTypeSet) (t u : WorkloadType) → contains (add s t) u ≡ (str_eq u t || contains s u)
unfolding contains add
contains-add s t u = ground (arith, eq_iff u t)

contains-add_all :
    (s : WorkloadTypeSet) (ts : List WorkloadType) (u : WorkloadType)
    → contains (add_all s ts) u ≡ (contains_str ts u || contains s u)
unfolding add_all
contains-add_all s [] u = refl
contains-add_all s (t ∷ ts) u = ground (arith, contains-add_all (add s t) ts u, contains-add s t u)

contains-remove_all :
    (s : WorkloadTypeSet) (ts : List WorkloadType) (u : WorkloadType)
    → contains (remove_all s ts) u ≡ (contains s u && not (contains_str ts u))
unfolding remove_all
contains-remove_all s [] u = ground arith
contains-remove_all s (t ∷ ts) u =
    ground (arith, contains-remove_all (remove s t) ts u, contains-remove s t u)

-- Which types a filter is to let through, read off its two lists.
abbrev pub lets_through : Option WorkloadTypeFilter → WorkloadType → Bool
lets_through none u = contains_str known_types u
lets_through (some f) u =
    (if is_empty f.include then contains_str known_types u else contains_str f.include u)
    && not (contains_str f.exclude u)

contains-new_workload_type_set :
    (ts : List WorkloadType) (u : WorkloadType)
    → contains (new_workload_type_set ts) u ≡ contains_str ts u
unfolding new_workload_type_set
contains-new_workload_type_set ts u =
    ground (arith, contains-add_all (record { keys = [] }) ts u, contains-empty u)
  where
    contains-empty : (u : WorkloadType) → contains (record { keys = [] }) u ≡ false
    contains-empty u = unfold contains in refl

-- A type is active exactly if no filter excludes it and it is included; with no filter, or with an
-- empty include list, the included types are the three known ones.
pub contains-get_active_workload_types :
    (f : Option WorkloadTypeFilter) (u : WorkloadType)
    → contains (get_active_workload_types f) u ≡ lets_through f u
unfolding get_active_workload_types
contains-get_active_workload_types none u = contains-new_workload_type_set known_types u
contains-get_active_workload_types (some f) u = ground (
  arith,
  contains-remove_all (new_workload_type_set known_types) f.exclude u,
  contains-remove_all (new_workload_type_set f.include) f.exclude u,
  contains-new_workload_type_set known_types u,
  contains-new_workload_type_set f.include u,
)

-- No text occurs twice.
abbrev pub IsDistinct : List String → Type 0
IsDistinct [] = Unit
IsDistinct (k ∷ l) = (contains_str l k ≡ false) × IsDistinct l

select-IsDistinct :
    (t : String) (l : List String) → IsDistinct l → IsDistinct (select (λ k. not (str_eq k t)) l)
select-IsDistinct t [] h = tt
select-IsDistinct t (k ∷ l) h = ground (arith, select-IsDistinct t l h.1, contains_str-select t k l)

add_all-IsDistinct :
    (s : WorkloadTypeSet) (ts : List WorkloadType)
    → IsDistinct s.keys
    → IsDistinct (add_all s ts).keys
unfolding add_all
add_all-IsDistinct s [] h = h
add_all-IsDistinct s (t ∷ ts) h = add_all-IsDistinct (add s t) ts (add-IsDistinct s t h)
  where
    add-IsDistinct :
        (s : WorkloadTypeSet) (t : WorkloadType) → IsDistinct s.keys → IsDistinct (add s t).keys
    add-IsDistinct s t h = ground arith

remove_all-IsDistinct :
    (s : WorkloadTypeSet) (ts : List WorkloadType)
    → IsDistinct s.keys
    → IsDistinct (remove_all s ts).keys
unfolding remove_all
remove_all-IsDistinct s [] h = h
remove_all-IsDistinct s (t ∷ ts) h =
    remove_all-IsDistinct (remove s t) ts (select-IsDistinct t s.keys h)

-- The slice of the active types lists each type once, also when the filter repeats one.
pub get_active-IsDistinct :
    (f : Option WorkloadTypeFilter) → IsDistinct (to_slice (get_active_workload_types f))
unfolding get_active_workload_types to_slice
get_active-IsDistinct none = add_all-IsDistinct (record { keys = [] }) known_types tt
get_active-IsDistinct (some f) = elim (Bool-cases (is_empty f.include)) [
  | inl e ↦ rw e (
      remove_all-IsDistinct (new_workload_type_set known_types) f.exclude
        (add_all-IsDistinct (record { keys = [] }) known_types tt))
  | inr e ↦ rw e (
      remove_all-IsDistinct (new_workload_type_set f.include) f.exclude
        (add_all-IsDistinct (record { keys = [] }) f.include tt))
]
