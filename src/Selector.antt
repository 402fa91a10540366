-- ===== src/Selector.antt =====
-- internal/policy/selector.go: which policy is in charge of a workload.
pub mod Order
pub mod Best
pub mod Total
use optipod.Prelude.{
  ℤ, eqb_ℤ, ltb_ℤ, String, str_eq, str_lt, Bool, true, false, not, ◌&&◌, Option, none, some, List,
  [], ◌∷◌, Result, ok, err, ◌>>=◌, map_err, contains_str, is_empty, if◌then◌else◌,
}
use optipod.Platform.{Platform, Labels, LabelSelector}
use optipod.Api.WorkloadTypes.{WorkloadTypeFilter, contains, get_active_workload_types}
use optipod.Api.Types.{OptimizationPolicy, NamespaceFilter, mode_disabled, get_weight}
use optipod.Cluster.{
  ApiError, Namespace, AppsObject, Object, deployment, stateful_set, daemon_set, unsupported,
  Workload, Client,
}

pub data SelectionError : Type 0 where
  list_failed : ApiError → SelectionError
  no_matching_policy : String → String → SelectionError

unfoldable pub workload_type_matches : Option WorkloadTypeFilter → String → Bool
workload_type_matches none kind = true
workload_type_matches (some f) kind = contains (get_active_workload_types (some f)) kind

unfoldable pub get_workload_labels : Workload → Labels
get_workload_labels w = elim w.object [
  | deployment o ↦ o.labels
  | stateful_set o ↦ o.labels
  | daemon_set o ↦ o.labels
  | unsupported o ↦ []
]

unfoldable pub namespace_allowed : Option NamespaceFilter → String → Bool
namespace_allowed none name = true
namespace_allowed (some f) name =
    if contains_str f.deny name
    then false
    else if is_empty f.allow
    then true
    else contains_str f.allow name

-- A selector that does not convert matches nothing.
abbrev converts_and_matches : Platform → LabelSelector → Labels → Bool
converts_and_matches P s labels = elim (P.selector s) [
  | none ↦ false
  | some matches ↦ matches labels
]

-- One of `policy.Spec.Selector`'s label selectors against the labels of the workload.
unfoldable pub workload_selected : Platform → Option LabelSelector → Workload → Bool
unfolding get_workload_labels
workload_selected P none w = true
workload_selected P (some s) w = converts_and_matches P s (get_workload_labels w)

-- The condition of a selector on the namespace, which is fetched for its labels.
unfoldable pub namespace_selected : {P : Platform} → Client P → Option LabelSelector → String → Bool
namespace_selected c none name = true
namespace_selected {P} c (some s) name = elim (c.get_namespace name) [
  | err e ↦ false
  | ok ns ↦ converts_and_matches P s ns.labels
]

pub record PolicyMatch (P : Platform) : Type 0 where
  pub policy : OptimizationPolicy P
  pub weight : ℤ

module _ {P : Platform} where
  open P use {sort}

  unfoldable pub policy_matches_workload : Client P → OptimizationPolicy P → Workload → Bool
  unfolding workload_type_matches namespace_selected namespace_allowed workload_selected
  policy_matches_workload c p w =
      if not (workload_type_matches p.spec.selector.workload_types w.kind)
      then false
      else if not (namespace_selected c p.spec.selector.namespace_selector w.namespace)
      then false
      else if not (namespace_allowed p.spec.selector.namespaces w.namespace)
      then false
      else workload_selected P p.spec.selector.workload_selector w

  -- A disabled policy is skipped.
  abbrev pub applies : Client P → Workload → OptimizationPolicy P → Bool
  applies c w p = not (str_eq p.spec.mode mode_disabled) && policy_matches_workload c p w

  abbrev pub match_of : OptimizationPolicy P → PolicyMatch P
  match_of p = record { policy = p; weight = get_weight p }

  -- The loop over the policies.
  unfoldable pub collect_matches :
      Client P → Workload → List (OptimizationPolicy P) → List (PolicyMatch P)
  collect_matches c w [] = []
  collect_matches c w (p ∷ ps) =
      let rest = collect_matches c w ps in
      if str_eq p.spec.mode mode_disabled
      then rest
      else if policy_matches_workload c p w
      then match_of p ∷ rest
      else rest

  -- The `less` of both sorts: the higher weight first, then the name.
  unfoldable pub precedes : PolicyMatch P → PolicyMatch P → Bool
  precedes a b =
      if not (eqb_ℤ a.weight b.weight)
      then ltb_ℤ b.weight a.weight
      else str_lt a.policy.name b.policy.name

  abbrev pub first : Workload → List (PolicyMatch P) → Result SelectionError (OptimizationPolicy P)
  first w [] = err (no_matching_policy w.namespace w.name)
  first w (m ∷ ms) = ok m.policy

  -- An empty list of matches is the error; it is empty before the sort exactly if it is after.
  unfoldable pub select_best_policy :
      Client P → Workload → Result SelectionError (OptimizationPolicy P)
  select_best_policy c w = do
    policies ← map_err list_failed c.list_policies
    let matches = collect_matches c w policies
    if is_empty matches
        then err (no_matching_policy w.namespace w.name)
        else first w (sort (PolicyMatch P) precedes matches)

  unfoldable pub get_matching_policies :
      Client P → Workload → Result SelectionError (List (PolicyMatch P))
  get_matching_policies c w = do
    policies ← map_err list_failed c.list_policies
    ok (sort (PolicyMatch P) precedes (collect_matches c w policies))
