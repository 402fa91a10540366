-- ===== src/Application/Values.antt =====
-- Unstructured objects: trees of Go maps, slices and strings.
use optipod.Prelude.{String, str_eq, Option, none, some, List, [], ◌∷◌, if◌then◌else◌}

mutual
  pub data Value : Type 0 where
    str : String → Value
    -- a number, a Boolean or nil
    scalar : Value
    slice : Values → Value
    obj : Fields → Value

  pub data Values : Type 0 where
    nil : Values
    cons : Value → Values → Values

  pub data Fields : Type 0 where
    end : Fields
    field : String → Value → Fields → Fields

-- `m[key]`
unfoldable pub index : String → Fields → Option Value
index k end = none
index k (field j v m) = if str_eq j k then some v else index k m

-- `m[key] = v`
unfoldable pub put : String → Value → Fields → Fields
put k v end = field k v end
put k v (field j w m) = if str_eq j k then field k v m else field j w (put k v m)

-- `v.(map[string]interface{})` of a map entry that may be missing.
abbrev pub as_map : Option Value → Option Fields
as_map (some (obj m)) = some m
as_map _ = none

-- `v.(string)`
abbrev pub as_string : Option Value → Option String
as_string (some (str s)) = some s
as_string _ = none

abbrev pub value_list : Values → List Value
value_list nil = []
value_list (cons v vs) = v ∷ value_list vs

abbrev pub slice_of : List Value → Values
slice_of [] = nil
slice_of (v ∷ vs) = cons v (slice_of vs)

abbrev pub object_of : List (String × Value) → Value
object_of [] = obj end
object_of ((k, v) ∷ rest) = elim (object_of rest) [ obj m ↦ obj (field k v m) | other ↦ other ]

-- The accessors of apimachinery's `unstructured` package, and its JSON encoder. `none` is an error;
-- the missing string is empty and the missing map is empty, as the source ignores those errors.
pub record Accessors : Type 0 where
  pub nested_slice : Fields → List String → Option (List Value)
  pub nested_string : Fields → String → String
  pub nested_map : Fields → String → Fields
  pub marshal_json : Value → Option String

-- `application.Workload`
pub record AppWorkload : Type 0 where
  pub kind : String
  pub namespace : String
  pub name : String
  pub object : Fields

abbrev pub kind_deployment : String
kind_deployment = "Deployment"

abbrev pub kind_stateful_set : String
kind_stateful_set = "StatefulSet"

abbrev pub kind_daemon_set : String
kind_daemon_set = "DaemonSet"

abbrev pub containers_path : List String
containers_path = "spec" ∷ "template" ∷ "spec" ∷ "containers" ∷ []
