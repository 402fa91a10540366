-- ===== src/Discovery/Sound.antt =====
-- Discovery and policy selection agree: what a policy discovers is what it matches.
use mathlib.Core.Path.{subst}
use optipod.Prelude.{
  ◌≡◌, refl, String, Bool, true, false, Option, none, some, List, [], ◌∷◌, ◌++◌, map, All,
  All-append, Result, ok, ◌>>=◌, map_err, map_err_ok, bind_ok, arith, Bool-cases, if◌then◌else◌,
  inl, inr,
}
use optipod.Platform.{Platform, Labels, LabelSelector}
use optipod.Api.WorkloadTypes.{
  contains, deployment_type, stateful_set_type, daemon_set_type, get_active_workload_types,
}
use optipod.Api.Types.{OptimizationPolicy, NamespaceFilter}
use optipod.Cluster.{
  ApiError, Namespace, AppsObject, Object, deployment, stateful_set, daemon_set, Workload, Client,
  ListSelector,
}
use optipod.Discovery.{
  DiscoveryError, list_failed, filter_allows, selector_matches, workload_of, namespace_matches,
  matching_names, list_selector, discover_deployments, discover_stateful_sets, discover_daemon_sets,
  discover_namespace, discover_all, discover_workloads, get_matching_namespaces,
}
use optipod.Selector.{
  workload_type_matches, namespace_selected, namespace_allowed, workload_selected,
  get_workload_labels, policy_matches_workload,
}

abbrev pub selects : ListSelector → Labels → Bool
selects none labels = true
selects (some matches) labels = matches labels

-- A list call returns objects of the namespace that the selector selects.
abbrev pub IsHonest : (String → ListSelector → Result ApiError (List AppsObject)) → Type 0
IsHonest list =
    (ns : String) (s : ListSelector) (os : List AppsObject)
    → list ns s ≡ ok os
    → All (λ o. (o.namespace ≡ ns) × (selects s o.labels ≡ true)) os

-- What the Kubernetes API promises of the reads.
pub record ReadLaws {P : Platform} (c : Client P) : Type 0 where
  pub deployments_honest : IsHonest c.list_deployments
  pub stateful_sets_honest : IsHonest c.list_stateful_sets
  pub daemon_sets_honest : IsHonest c.list_daemon_sets
  pub namespaces_found :
      (nss : List Namespace)
      → c.list_namespaces ≡ ok nss
      → All (λ ns. c.get_namespace ns.name ≡ ok ns) nss

filters_agree :
    (f : Option NamespaceFilter) (name : String) → namespace_allowed f name ≡ filter_allows f name
unfolding namespace_allowed filter_allows
filters_agree none name = refl
filters_agree (some f) name = refl

module _ {P : Platform} (c : Client P) (p : OptimizationPolicy P) where
  -- A namespace that the policy matches, as both components see it.
  pub record IsMatching (name : String) : Type 0 where
    pub selected : namespace_selected c p.spec.selector.namespace_selector name ≡ true
    pub allowed : namespace_allowed p.spec.selector.namespaces name ≡ true

  selected_agree :
      (s : Option LabelSelector) (ns : Namespace)
      → c.get_namespace ns.name ≡ ok ns
      → namespace_selected c s ns.name ≡ selector_matches P s ns.labels
  unfolding namespace_selected
  selected_agree none ns e = refl
  selected_agree (some s) ns e = rw (e, namespace_selected)

  IsMatching-of_namespace_matches :
      (ns : Namespace)
      → c.get_namespace ns.name ≡ ok ns
      → namespace_matches ns p ≡ true
      → IsMatching ns.name
  unfolding namespace_matches
  IsMatching-of_namespace_matches ns e h = ground (
    arith,
    selected_agree p.spec.selector.namespace_selector ns e,
    filters_agree p.spec.selector.namespaces ns.name,
  )

  matching_names-IsMatching :
      (nss : List Namespace)
      → All (λ ns. c.get_namespace ns.name ≡ ok ns) nss
      → All IsMatching (matching_names p nss)
  unfolding matching_names
  matching_names-IsMatching [] h = tt
  matching_names-IsMatching (ns ∷ nss) h = elim (Bool-cases (namespace_matches ns p)) [
    | inl e ↦ rw e (IsMatching-of_namespace_matches ns h.0 e, matching_names-IsMatching nss h.1)
    | inr e ↦ rw e (matching_names-IsMatching nss h.1)
  ]

  abbrev pub IsMatched : Workload → Type 0
  IsMatched w = policy_matches_workload c p w ≡ true

  labels_selected :
      (sel : ListSelector) (w : Workload)
      → list_selector p ≡ ok sel
      → selects sel (get_workload_labels w) ≡ true
      → workload_selected P p.spec.selector.workload_selector w ≡ true
  unfolding list_selector workload_selected
  labels_selected sel w e h = ground arith

  type_active :
      (kind : String)
      → contains (get_active_workload_types p.spec.selector.workload_types) kind ≡ true
      → workload_type_matches p.spec.selector.workload_types kind ≡ true
  unfolding workload_type_matches
  type_active kind h = ground arith

  built_IsMatched :
      (sel : ListSelector) (kind : String) (wrap : AppsObject → Object) (ns : String)
      → list_selector p ≡ ok sel
      → contains (get_active_workload_types p.spec.selector.workload_types) kind ≡ true
      → IsMatching ns
      → ((o : AppsObject) → get_workload_labels (workload_of kind wrap o) ≡ o.labels)
      → (os : List AppsObject) → All (λ o. (o.namespace ≡ ns) × (selects sel o.labels ≡ true)) os
      → All IsMatched (map (workload_of kind wrap) os)
  unfolding policy_matches_workload
  built_IsMatched sel kind wrap ns e a m l [] h = tt
  built_IsMatched sel kind wrap ns e a m l (o ∷ os) h = (
    ground (arith, l o, type_active kind a, labels_selected sel (workload_of kind wrap o) e),
    built_IsMatched sel kind wrap ns e a m l os h.1,
  )

  module _ (laws : ReadLaws c) where
    kind_IsMatched :
        (list : String → ListSelector → Result ApiError (List AppsObject))
        → IsHonest list
        → (kind : String) (wrap : AppsObject → Object) (ns : String) (ws : List Workload)
        → contains (get_active_workload_types p.spec.selector.workload_types) kind ≡ true
        → IsMatching ns
        → ((o : AppsObject) → get_workload_labels (workload_of kind wrap o) ≡ o.labels)
        → (list_selector p >>= λ sel.
            map_err list_failed (list ns sel) >>= λ os. ok (map (workload_of kind wrap) os))
          ≡ ok ws
        → All IsMatched ws
    kind_IsMatched list honest kind wrap ns ws a m l h =
        let (sel, converted, h₁) = bind_ok (list_selector p) _ h in
        let (os, listed, h₂) = bind_ok (map_err list_failed (list ns sel)) _ h₁ in
        let found : map (workload_of kind wrap) os ≡ ws = cc in
        subst (All IsMatched) found (
          built_IsMatched sel kind wrap ns converted a m l os
            (honest ns sel os (map_err_ok list_failed (list ns sel) listed)))

    optional_IsMatched :
        (b : Bool) (m : Result DiscoveryError (List Workload)) {ws : List Workload}
        → (b ≡ true → m ≡ ok ws → All IsMatched ws)
        → (if b then m else ok []) ≡ ok ws
        → All IsMatched ws
    optional_IsMatched true m k h = k refl h
    optional_IsMatched false m {ws} k h = let found : [] ≡ ws = cc in subst (All IsMatched) found tt

    namespace_IsMatched :
        (ns : String) (ws : List Workload)
        → IsMatching ns
        → discover_namespace c p (get_active_workload_types p.spec.selector.workload_types) ns
          ≡ ok ws
        → All IsMatched ws
    unfolding discover_namespace discover_deployments discover_stateful_sets discover_daemon_sets
        get_workload_labels
    namespace_IsMatched ns ws m h =
        let active = get_active_workload_types p.spec.selector.workload_types in
        let (ds, deployed, h₁) =
          bind_ok (if contains active deployment_type then discover_deployments c ns p else ok []) _
            h in
        let (ss, stateful, h₂) =
          bind_ok
            (if contains active stateful_set_type then discover_stateful_sets c ns p else ok []) _
            h₁ in
        let (gs, daemons, h₃) =
          bind_ok (if contains active daemon_set_type then discover_daemon_sets c ns p else ok []) _
            h₂ in
        let found : ds ++ (ss ++ gs) ≡ ws = cc in
        let kind = kind_IsMatched in
        subst (All IsMatched) found (
          All-append IsMatched ds (ss ++ gs)
            (optional_IsMatched (contains active deployment_type) _
              (λ a.
                kind_IsMatched c.list_deployments laws.deployments_honest deployment_type deployment
                  ns ds a m (λ o. refl))
              deployed)
            (All-append IsMatched ss gs
              (optional_IsMatched (contains active stateful_set_type) _
                (λ a.
                  kind_IsMatched c.list_stateful_sets laws.stateful_sets_honest stateful_set_type
                    stateful_set ns ss a m (λ o. refl))
                stateful)
              (optional_IsMatched (contains active daemon_set_type) _
                (λ a.
                  kind_IsMatched c.list_daemon_sets laws.daemon_sets_honest daemon_set_type
                    daemon_set ns gs a m (λ o. refl))
                daemons)))

    all_IsMatched :
        (names : List String) (found ws : List Workload)
        → All IsMatching names
        → All IsMatched found
        → discover_all c p (get_active_workload_types p.spec.selector.workload_types) names found
          ≡ ok ws
        → All IsMatched ws
    unfolding discover_all
    all_IsMatched [] found ws m f h = let e : found ≡ ws = cc in subst (All IsMatched) e f
    all_IsMatched (ns ∷ names) found ws m f h =
        let (more, e, rest) =
          bind_ok
            (discover_namespace c p (get_active_workload_types p.spec.selector.workload_types) ns) _
            h in
        all_IsMatched names (found ++ more) ws m.1
          (All-append IsMatched found more f (namespace_IsMatched ns more m.0 e)) rest

    -- Every workload that discovery returns for a policy is one that policy selection finds the
    -- policy to match, if list calls return what was asked for and a listed namespace can be
    -- fetched.
    pub discover_workloads-IsMatched :
        (ws : List Workload) → discover_workloads c p ≡ ok ws → All IsMatched ws
    unfolding discover_workloads get_matching_namespaces
    discover_workloads-IsMatched ws h =
        let (names, e, rest) = bind_ok (get_matching_namespaces c p) _ h in
        let (nss, listed, named) = bind_ok (map_err list_failed c.list_namespaces) _ e in
        let same : matching_names p nss ≡ names = cc in
        all_IsMatched names [] ws
          (subst (All IsMatching) same (
            matching_names-IsMatching nss
              (laws.namespaces_found nss (map_err_ok list_failed c.list_namespaces listed))))
          tt rest
