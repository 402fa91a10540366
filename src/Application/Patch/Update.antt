-- ===== src/Application/Patch/Update.antt =====
-- What a patch changes.
use optipod.Prelude.{
  ◌≡◌, ◌↔◌, refl, ap, Bool-cases, String, str_eq, eq_iff, false, Option, none, some, List, [], ◌∷◌,
  ◌++◌, ok, All, arith, inl, inr, bind_ok, map_err_ok,
}
use optipod.Platform.{Platform}
use optipod.Api.Types.{OptimizationPolicy}
use optipod.Recommendation.{Recommendation}
use optipod.Application.Values.{Value, str, scalar, slice, obj, Fields, put, Accessors, AppWorkload}
use optipod.Application.Resources.{workload_containers}
use optipod.Application.Patch.{
  PatchError, build_resource_patch, containers_failed, containers_patch, or_patch_error,
  resources_map, update_container,
}

-- The container is a map and has the name.
abbrev pub IsNamed : Accessors → String → Value → Type 0
IsNamed a target (obj m) = a.nested_string m "name" ≡ target
IsNamed a target _ = ⊥

-- One container is changed, the first of the name, in nothing but its resources.
pub record IsUpdate (a : Accessors) (target : String) (resources : Value) (old new : List Value)
    : Type 0 where
  pub before : List Value
  pub container : Fields
  pub after : List Value
  pub old_parts : old ≡ before ++ (obj container ∷ after)
  pub new_parts : new ≡ before ++ (obj (put "resources" resources container) ∷ after)
  pub has_name : a.nested_string container "name" ≡ target
  pub first : All (λ v. ¬ IsNamed a target v) before

IsUpdate-later :
    (a : Accessors) (target : String) (resources v : Value) (old new : List Value)
    → (¬ IsNamed a target v)
    → IsUpdate a target resources old new
    → IsUpdate a target resources (v ∷ old) (v ∷ new)
IsUpdate-later a target resources v old new other u = record {
  before = v ∷ u.before;
  container = u.container;
  after = u.after;
  old_parts = ap (λ l. v ∷ l) u.old_parts;
  new_parts = ap (λ l. v ∷ l) u.new_parts;
  has_name = u.has_name;
  first = (other, u.first);
}

found_later :
    (v : Value) (r : Option (List Value)) {new : List Value}
    → elim r [ none ↦ none | some cs ↦ some (v ∷ cs) ] ≡ some new
    → (cs : List Value) × (r ≡ some cs) × (v ∷ cs ≡ new)
found_later v none h = cc
found_later v (some cs) h = (cs, refl, ground (arith))

skipped :
    (a : Accessors) (target : String) (resources : Value) (m : Fields) (rest : List Value)
    {new : List Value}
    → str_eq (a.nested_string m "name") target ≡ false
    → update_container a target resources (obj m ∷ rest) ≡ some new
    → elim (update_container a target resources rest) [ none ↦ none | some cs ↦ some (obj m ∷ cs) ]
      ≡ some new
unfolding update_container
skipped a target resources m rest different h = ground (arith)

-- The loop changes the resources of the first container of the name and nothing else.
pub update_container-IsUpdate :
    (a : Accessors) (target : String) (resources : Value) (old : List Value) {new : List Value}
    → update_container a target resources old ≡ some new
    → IsUpdate a target resources old new
unfolding update_container
update_container-IsUpdate a target resources [] h = cc
update_container-IsUpdate a target resources (v ∷ rest) {new} h =
    step v h (λ cs. update_container-IsUpdate a target resources rest {new = cs})
  where
    onwards :
        (v : Value)
        → (¬ IsNamed a target v)
        → elim (update_container a target resources rest) [ none ↦ none | some cs ↦ some (v ∷ cs) ]
          ≡ some new
        → ((cs : List Value)
            → update_container a target resources rest ≡ some cs
            → IsUpdate a target resources rest cs)
        → IsUpdate a target resources (v ∷ rest) new
    onwards v other h later =
        let found = found_later v (update_container a target resources rest) h in
        rw (← found.2)
          (IsUpdate-later a target resources v rest found.0 other (later found.0 found.1))

    step :
        (v : Value)
        → update_container a target resources (v ∷ rest) ≡ some new
        → ((cs : List Value)
            → update_container a target resources rest ≡ some cs
            → IsUpdate a target resources rest cs)
        → IsUpdate a target resources (v ∷ rest) new
    step (str s) h later = onwards (str s) (λ n. n) h later
    step scalar h later = onwards scalar (λ n. n) h later
    step (slice l) h later = onwards (slice l) (λ n. n) h later
    step (obj m) h later = elim (Bool-cases (str_eq (a.nested_string m "name") target)) [
      | inl same ↦ record {
        before = [];
        container = m;
        after = rest;
        old_parts = refl;
        new_parts = ground (arith);
        has_name = (eq_iff (a.nested_string m "name") target).0 same;
        first = tt;
      }
      | inr different ↦
          onwards (obj m) (ground (arith, eq_iff (a.nested_string m "name") target))
            (skipped a target resources m rest different h) later
    ]

-- Without a container of the name, and only then, the loop finds none.
pub update_container-none :
    (a : Accessors) (target : String) (resources : Value) (old : List Value)
    → (update_container a target resources old ≡ none) ↔ All (λ v. ¬ IsNamed a target v) old
unfolding update_container
update_container-none a target resources [] = (λ _. tt, λ _. refl)
update_container-none a target resources (str s ∷ rest) =
    ground (arith, update_container-none a target resources rest)
update_container-none a target resources (scalar ∷ rest) =
    ground (arith, update_container-none a target resources rest)
update_container-none a target resources (slice l ∷ rest) =
    ground (arith, update_container-none a target resources rest)
update_container-none a target resources (obj m ∷ rest) =
    ground (
      arith,
      update_container-none a target resources rest,
      eq_iff (a.nested_string m "name") target,
    )

or_patch_error_ok :
    {A : Type 0} (e : PatchError) (o : Option A) {a : A} → or_patch_error e o ≡ ok a → o ≡ some a
or_patch_error_ok e none h = cc
or_patch_error_ok e (some b) h = cc

module _ {P : Platform} where
  -- A strategic merge patch that is built is the encoding of the workload's own containers, with the
  -- resources of the first container of the name replaced and nothing else changed.
  pub build_resource_patch_lem :
      (a : Accessors) (w : AppWorkload) (container_name : String) (rec : Recommendation P)
      (p : OptimizationPolicy P) (patch : String)
      → build_resource_patch a w container_name rec p ≡ ok patch
      → (old new : List Value) × (workload_containers a w ≡ ok old)
        × IsUpdate a container_name (resources_map rec p) old new
        × (a.marshal_json (containers_patch new) ≡ some patch)
  unfolding build_resource_patch
  build_resource_patch_lem a w container_name rec p patch h =
      let read = bind_ok _ _ h in
      let found = bind_ok _ _ read.2 in
      (
        read.0,
        found.0,
        map_err_ok containers_failed _ read.1,
        update_container-IsUpdate a container_name (resources_map rec p) read.0
            (or_patch_error_ok _ _ found.1),
        or_patch_error_ok _ _ found.2,
      )
