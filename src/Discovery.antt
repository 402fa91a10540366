-- ===== src/Discovery.antt =====
-- internal/discovery/discovery.go: the workloads that a policy selects.
pub mod Sound
pub mod Complete
use optipod.Prelude.{
  String, Bool, true, false, not, ◌&&◌, ◌||◌, Option, none, some, List, [], ◌∷◌, ◌++◌, map, Result,
  ok, err, ◌>>=◌, map_err, contains_str, is_empty, if◌then◌else◌,
}
use optipod.Platform.{Platform, Labels, LabelSelector}
use optipod.Api.WorkloadTypes.{
  WorkloadTypeSet, contains, deployment_type, stateful_set_type, daemon_set_type,
  get_active_workload_types,
}
use optipod.Api.Types.{OptimizationPolicy, NamespaceFilter}
use optipod.Cluster.{
  ApiError, Namespace, AppsObject, Object, deployment, stateful_set, daemon_set, Workload, Client,
  ListSelector,
}

pub data DiscoveryError : Type 0 where
  list_failed : ApiError → DiscoveryError
  invalid_selector : DiscoveryError

-- The deny list first, then the allow list if there is one.
unfoldable pub filter_allows : Option NamespaceFilter → String → Bool
filter_allows none name = true
filter_allows (some f) name =
    if contains_str f.deny name
    then false
    else if is_empty f.allow
    then true
    else contains_str f.allow name

-- A nil selector matches; one that does not convert matches nothing.
abbrev pub selector_matches : Platform → Option LabelSelector → Labels → Bool
selector_matches P none labels = true
selector_matches P (some s) labels = elim (P.selector s) [
  | none ↦ false
  | some matches ↦ matches labels
]

abbrev pub workload_of : String → (AppsObject → Object) → AppsObject → Workload
workload_of kind wrap o = record {
  kind = kind;
  namespace = o.namespace;
  name = o.name;
  labels = o.labels;
  object = wrap o;
}

module _ {P : Platform} where
  unfoldable pub namespace_matches : Namespace → OptimizationPolicy P → Bool
  unfolding filter_allows
  namespace_matches ns p =
      if filter_allows p.spec.selector.namespaces ns.name
      then selector_matches P p.spec.selector.namespace_selector ns.labels
      else false

  matching_names : OptimizationPolicy P → List Namespace → List String
  matching_names p [] = []
  matching_names p (ns ∷ rest) =
      let names = matching_names p rest in if namespace_matches ns p then ns.name ∷ names else names

  unfoldable pub get_matching_namespaces :
      Client P → OptimizationPolicy P → Result DiscoveryError (List String)
  unfolding matching_names
  get_matching_namespaces c p = do
    namespaces ← map_err list_failed c.list_namespaces
    ok (matching_names p namespaces)

  -- The list options: the converted workload selector, or its error.
  list_selector : OptimizationPolicy P → Result DiscoveryError ListSelector
  list_selector p = elim p.spec.selector.workload_selector [
    | none ↦ ok none
    | some s ↦ elim (P.selector s) [ none ↦ err invalid_selector | some m ↦ ok (some m) ]
  ]

  unfoldable pub discover_deployments :
      Client P → String → OptimizationPolicy P → Result DiscoveryError (List Workload)
  unfolding list_selector
  discover_deployments c ns p = do
    selector ← list_selector p
    items ← map_err list_failed (c.list_deployments ns selector)
    ok (map (workload_of deployment_type deployment) items)

  unfoldable pub discover_stateful_sets :
      Client P → String → OptimizationPolicy P → Result DiscoveryError (List Workload)
  unfolding list_selector
  discover_stateful_sets c ns p = do
    selector ← list_selector p
    items ← map_err list_failed (c.list_stateful_sets ns selector)
    ok (map (workload_of stateful_set_type stateful_set) items)

  unfoldable pub discover_daemon_sets :
      Client P → String → OptimizationPolicy P → Result DiscoveryError (List Workload)
  unfolding list_selector
  discover_daemon_sets c ns p = do
    selector ← list_selector p
    items ← map_err list_failed (c.list_daemon_sets ns selector)
    ok (map (workload_of daemon_set_type daemon_set) items)

  -- One round of the loop over the namespaces.
  discover_namespace :
      Client P
      → OptimizationPolicy P
      → WorkloadTypeSet
      → String
      → Result DiscoveryError (List Workload)
  discover_namespace c p active ns = do
    deployments ← if contains active deployment_type then discover_deployments c ns p else ok []
    stateful_sets ←
        if contains active stateful_set_type then discover_stateful_sets c ns p else ok []
    daemon_sets ← if contains active daemon_set_type then discover_daemon_sets c ns p else ok []
    ok (deployments ++ (stateful_sets ++ daemon_sets))

  discover_all :
      Client P
      → OptimizationPolicy P
      → WorkloadTypeSet
      → List String
      → List Workload
      → Result DiscoveryError (List Workload)
  discover_all c p active [] found = ok found
  discover_all c p active (ns ∷ rest) found =
      discover_namespace c p active ns >>= λ more. discover_all c p active rest (found ++ more)

  unfoldable pub discover_workloads :
      Client P → OptimizationPolicy P → Result DiscoveryError (List Workload)
  unfolding discover_all discover_namespace
  discover_workloads c p = do
    let active = get_active_workload_types p.spec.selector.workload_types
    namespaces ← get_matching_namespaces c p
    discover_all c p active namespaces []
