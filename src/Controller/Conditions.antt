-- ===== src/Controller/Conditions.antt =====
-- The change of `updatePolicyStatus`: a condition is updated or added.
use optipod.Prelude.{
  ◌≡◌, ◌≢◌, String, str_eq, eq_iff, Bool, true, false, not, ◌||◌, Option, none, some, List, [], ◌∷◌,
  ◌++◌, is_empty, arith, if◌then◌else◌, Bool-cases, inl, inr,
}
use optipod.Api.Types.{Condition}

-- The transition time is not compared.
abbrev differs : Condition → Condition → Bool
differs a b =
    not (str_eq a.status b.status)
    || not (str_eq a.reason b.reason)
    || not (str_eq a.message b.message)

-- The first loop, with its flag: the first condition of the type is replaced if it differs.
replace_condition : Condition → List Condition → List Condition × Bool
replace_condition c [] = ([], false)
replace_condition c (d ∷ ds) =
    let rest = replace_condition c ds in
    if str_eq d.type c.type
    then (if differs d c then (c ∷ ds, true) else (d ∷ ds, false))
    else (d ∷ rest.0, rest.1)

-- The second loop.
has_type : String → List Condition → Bool
has_type t [] = false
has_type t (d ∷ ds) = let rest = has_type t ds in if str_eq d.type t then true else rest

-- `none` where no update is needed.
unfoldable pub merge_condition : Condition → List Condition → Option (List Condition)
unfolding replace_condition has_type
merge_condition c conditions =
    let replaced = replace_condition c conditions in
    if replaced.1
    then some (replaced.0)
    else if is_empty (replaced.0)
    then some (replaced.0 ++ (c ∷ []))
    else if has_type c.type (replaced.0)
    then none
    else some (replaced.0 ++ (c ∷ []))

-- The first condition of a type.
unfoldable pub find_condition : String → List Condition → Option Condition
find_condition t [] = none
find_condition t (d ∷ ds) =
    let rest = find_condition t ds in if str_eq d.type t then some d else rest

cons_to : Condition → Option (List Condition) → Option (List Condition)
cons_to d none = none
cons_to d (some ds) = some (d ∷ ds)

merge-cons :
    (c d : Condition) (ds : List Condition)
    → str_eq d.type c.type ≡ false
    → merge_condition c (d ∷ ds) ≡ cons_to d (merge_condition c ds)
unfolding merge_condition replace_condition has_type cons_to
merge-cons c d ds h = ground (arith)

-- Without a change, the first condition of the type already says the same; with one, the condition
-- is the first of its type, it was not there before in the same words, and the first condition of
-- every other type is what it was.
abbrev pub IsMerged : Condition → List Condition → Option (List Condition) → Type 0
IsMerged c l none =
    (d : Condition) × (find_condition c.type l ≡ some d)
    × (d.status ≡ c.status)
    × (d.reason ≡ c.reason)
    × (d.message ≡ c.message)
IsMerged c l (some l') =
    (find_condition c.type l' ≡ some c)
    × ((u : String) → u ≢ c.type → find_condition u l' ≡ find_condition u l)
    × ((d : Condition) → find_condition c.type l ≡ some d → differs d c ≡ true)

IsMerged-cons :
    (c d : Condition) (ds : List Condition) (o : Option (List Condition))
    → str_eq d.type c.type ≡ false
    → IsMerged c ds o
    → IsMerged c (d ∷ ds) (cons_to d o)
unfolding cons_to find_condition
IsMerged-cons c d ds none h m = (m.0, ground (arith, m.1), m.2, m.3, m.4)
IsMerged-cons c d ds (some l') h m =
    (ground (arith, m.0), λ u other. ground (arith, m.1 u other), λ e q. ground (arith, m.2 e))

merge_new :
    (c d : Condition) (ds : List Condition)
    → str_eq d.type c.type ≡ true
    → differs d c ≡ true
    → merge_condition c (d ∷ ds) ≡ some (c ∷ ds)
unfolding merge_condition replace_condition
merge_new c d ds h k = ground (arith)

merge_old :
    (c d : Condition) (ds : List Condition)
    → str_eq d.type c.type ≡ true
    → differs d c ≡ false
    → merge_condition c (d ∷ ds) ≡ none
unfolding merge_condition replace_condition has_type
merge_old c d ds h k = ground (arith)

IsMerged-new :
    (c d : Condition) (ds : List Condition)
    → str_eq d.type c.type ≡ true
    → differs d c ≡ true
    → IsMerged c (d ∷ ds) (some (c ∷ ds))
unfolding find_condition
IsMerged-new c d ds h k = (
  ground (arith, eq_iff c.type c.type),
  λ u other. ground (arith, eq_iff d.type c.type, eq_iff d.type u, eq_iff c.type u),
  λ e q. ground (arith),
)

IsMerged-old :
    (c d : Condition) (ds : List Condition)
    → str_eq d.type c.type ≡ true
    → differs d c ≡ false
    → IsMerged c (d ∷ ds) none
unfolding find_condition
IsMerged-old c d ds h k = (
  d,
  ground (arith),
  ground (arith, eq_iff d.status c.status),
  ground (arith, eq_iff d.reason c.reason),
  ground (arith, eq_iff d.message c.message),
)

IsMerged-empty : (c : Condition) → IsMerged c [] (merge_condition c [])
unfolding merge_condition replace_condition find_condition
IsMerged-empty c =
    (ground (arith, eq_iff c.type c.type), λ u other. ground (arith, eq_iff c.type u), λ e q. cc)

-- A status update merges its condition into the list.
pub merge_condition-IsMerged :
    (c : Condition) (l : List Condition) → IsMerged c l (merge_condition c l)
merge_condition-IsMerged c [] = IsMerged-empty c
merge_condition-IsMerged c (d ∷ ds) = elim (Bool-cases (str_eq d.type c.type)) [
  | inl same ↦ elim (Bool-cases (differs d c)) [
    | inl new ↦ rw (merge_new c d ds same new) (IsMerged-new c d ds same new)
    | inr old ↦ rw (merge_old c d ds same old) (IsMerged-old c d ds same old)
  ]
  | inr other ↦
      rw (merge-cons c d ds other) (IsMerged-cons c d ds _ other (merge_condition-IsMerged c ds))
]
