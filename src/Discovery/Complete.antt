-- ===== src/Discovery/Complete.antt =====
-- The discovery leaves out nothing that a policy selects.
use mathlib.Core.List.{Mem, mem-cons, mem-append_left, mem-append_right}
use mathlib.Core.List.{mem-map_of_mem, Mem-prop, not-mem-nil, mem-cons_of_mem}
use mathlib.Core.Logic.Or
use mathlib.Core.Path.{subst}
use optipod.Prelude.{
  ◌≡◌, ◌∙◌, ◌⊎◌, refl, String, Bool, true, false, Option, none, some, List, [], ◌∷◌, ◌++◌, map,
  contains_str, Result, ok, ◌>>=◌, map_err, bind_ok, arith, Bool-cases, if◌then◌else◌, inl, inr,
}
use optipod.Platform.{Platform, Labels, LabelSelector}
use optipod.Api.WorkloadTypes.{
  contains, deployment_type, stateful_set_type, daemon_set_type, get_active_workload_types,
}
use optipod.Api.WorkloadTypes.Laws.{lets_through, contains-get_active_workload_types}
use optipod.Api.Types.{OptimizationPolicy, NamespaceFilter}
use optipod.Cluster.{
  ApiError, Namespace, AppsObject, Object, deployment, stateful_set, daemon_set, Workload, Client,
  ListSelector,
}
use optipod.Discovery.{
  list_failed, filter_allows, selector_matches, workload_of, namespace_matches, matching_names,
  list_selector, discover_deployments, discover_stateful_sets, discover_daemon_sets,
  discover_namespace, discover_all, discover_workloads, get_matching_namespaces,
}

module _ {P : Platform} (c : Client P) (p : OptimizationPolicy P) where
  -- The selector of the list options for that of the policy, which converts.
  abbrev pub IsConverted : Option LabelSelector → ListSelector → Type 0
  IsConverted none selector = selector ≡ none
  IsConverted (some s) selector =
      (matches : Labels → Bool) × (P.selector s ≡ some matches) × (selector ≡ some matches)

  -- The API lists, for the selector of the policy, an object of an active kind in the namespace, and
  -- the workload is this object.
  pub record IsIn (kind : String) (wrap : AppsObject → Object)
      (list : String → ListSelector → Result ApiError (List AppsObject)) (name : String)
      (w : Workload) : Type 0 where
    pub active : lets_through p.spec.selector.workload_types kind ≡ true
    pub selector : ListSelector
    pub converted : IsConverted p.spec.selector.workload_selector selector
    pub items : List AppsObject
    pub answer : list name selector ≡ ok items
    pub item : AppsObject
    pub held : Mem item items
    pub shape : w ≡ record {
      kind = kind;
      namespace = item.namespace;
      name = item.name;
      labels = item.labels;
      object = wrap item;
    }

  -- The API lists the workload in the namespace.
  pub data IsListed (name : String) (w : Workload) : Type 0 where
    as_deployment : IsIn "Deployment" deployment c.list_deployments name w → IsListed name w
    as_stateful_set : IsIn "StatefulSet" stateful_set c.list_stateful_sets name w → IsListed name w
    as_daemon_set : IsIn "DaemonSet" daemon_set c.list_daemon_sets name w → IsListed name w

  -- The name is not denied, and it is allowed where there is an allow list.
  abbrev pub IsAllowedName : Option NamespaceFilter → String → Type 0
  IsAllowedName none name = Unit
  IsAllowedName (some f) name =
      (contains_str f.deny name ≡ false) × ((f.allow ≡ []) ⊎ (contains_str f.allow name ≡ true))

  -- There is no selector, or it converts and selects the labels.
  abbrev pub IsSelected : Option LabelSelector → Labels → Type 0
  IsSelected none labels = Unit
  IsSelected (some s) labels =
      (matches : Labels → Bool) × (P.selector s ≡ some matches) × (matches labels ≡ true)

  filter_allows_name :
      (f : Option NamespaceFilter) (name : String)
      → IsAllowedName f name
      → filter_allows f name ≡ true
  unfolding filter_allows
  filter_allows_name none name h = refl
  filter_allows_name (some f) name (denied, inl none_allowed) =
      rw (denied, none_allowed, filter_allows) refl
  filter_allows_name (some f) name (denied, inr allowed) = ground (arith, denied, allowed)

  selector_selects :
      (s : Option LabelSelector) (labels : Labels)
      → IsSelected s labels
      → selector_matches P s labels ≡ true
  selector_selects none labels h = refl
  selector_selects (some s) labels (matches, e, h) = rw (e, selector_matches) h

  policy_matches :
      (ns : Namespace)
      → IsAllowedName p.spec.selector.namespaces ns.name
      → IsSelected p.spec.selector.namespace_selector ns.labels
      → namespace_matches ns p ≡ true
  unfolding namespace_matches
  policy_matches ns h k =
      rw (filter_allows_name p.spec.selector.namespaces ns.name h)
        (selector_selects p.spec.selector.namespace_selector ns.labels k)

  list_selector_converts :
      (o : Option LabelSelector) (selector : ListSelector)
      → p.spec.selector.workload_selector ≡ o
      → IsConverted o selector
      → list_selector p ≡ ok selector
  unfolding list_selector
  list_selector_converts none selector q h = rw (q, h, list_selector) refl
  list_selector_converts (some s) selector q (matches, e, h) = rw (q, list_selector, e, h) refl

  matched_name :
      (nss : List Namespace) (ns : Namespace)
      → Mem ns nss
      → namespace_matches ns p ≡ true
      → Mem ns.name (matching_names p nss)
  unfolding matching_names
  matched_name [] ns m h = absurd (not-mem-nil m)
  matched_name (n ∷ nss) ns m h = elim (Bool-cases (namespace_matches n p)) [
    | inl e ↦ rw e (
        Or.elim Mem-prop (mem-cons.0 m) (λ q. mem-cons.1 (Or.inl (rw q)))
          (λ l. mem-cons_of_mem n.name (matched_name nss ns l h)))
    | inr e ↦
        rw e
          (Or.elim Mem-prop (mem-cons.0 m) (λ q. absurd (clash q e)) (λ l. matched_name nss ns l h))
  ]
    where
      clash : ns ≡ n → namespace_matches n p ≡ false → ⊥
      clash q e = cc

  -- What one kind adds, where it is active.
  added :
      {w : Workload} {kind : String} {wrap : AppsObject → Object}
      {list : String → ListSelector → Result ApiError (List AppsObject)} {name : String}
      {ws : List Workload}
      → IsIn kind wrap list name w
      → (if contains (get_active_workload_types p.spec.selector.workload_types) kind
          then (list_selector p >>= λ sel.
              map_err list_failed (list name sel) >>= λ os. ok (map (workload_of kind wrap) os))
          else ok [])
        ≡ ok ws
      → Mem w ws
  added {w} {kind} {wrap} {list} {name} {ws} i h =
      let active =
        contains-get_active_workload_types p.spec.selector.workload_types kind ∙ i.active in
      let converts = list_selector_converts _ i.selector refl i.converted in
      let answer = i.answer in
      let listed : ok (map (workload_of kind wrap) i.items) ≡ ok ws =
        rw (active, converts, answer) at h in
      let same : map (workload_of kind wrap) i.items ≡ ws = cc in
      subst (Mem w) same (rw i.shape (mem-map_of_mem (workload_of kind wrap) i.held))

  namespace_complete :
      (name : String) (w : Workload) {ws : List Workload}
      → IsListed name w
      → discover_namespace c p (get_active_workload_types p.spec.selector.workload_types) name
        ≡ ok ws
      → Mem w ws
  unfolding discover_namespace discover_deployments discover_stateful_sets discover_daemon_sets
  namespace_complete name w {ws} i h =
      let active = get_active_workload_types p.spec.selector.workload_types in
      let (ds, deployed, h₁) =
        bind_ok (if contains active deployment_type then discover_deployments c name p else ok []) _
          h in
      let (ss, stateful, h₂) =
        bind_ok
          (if contains active stateful_set_type then discover_stateful_sets c name p else ok []) _
          h₁ in
      let (gs, daemons, h₃) =
        bind_ok (if contains active daemon_set_type then discover_daemon_sets c name p else ok []) _
          h₂ in
      let same : ds ++ (ss ++ gs) ≡ ws = cc in
      subst (Mem w) same (elim i [
        | as_deployment d ↦ mem-append_left (ss ++ gs) (added d deployed)
        | as_stateful_set s ↦ mem-append_right ds (mem-append_left gs (added s stateful))
        | as_daemon_set g ↦ mem-append_right ds (mem-append_right ss (added g daemons))
      ])

  kept :
      (names : List String) (found : List Workload) {ws : List Workload} (w : Workload)
      → discover_all c p (get_active_workload_types p.spec.selector.workload_types) names found
        ≡ ok ws
      → Mem w found
      → Mem w ws
  unfolding discover_all
  kept [] found {ws} w h m = let same : found ≡ ws = cc in subst (Mem w) same m
  kept (n ∷ names) found w h m =
      let (more, e, rest) =
        bind_ok
          (discover_namespace c p (get_active_workload_types p.spec.selector.workload_types) n) _
          h in
      kept names (found ++ more) w rest (mem-append_left more m)

  all_complete :
      (names : List String) (found : List Workload) {ws : List Workload} (name : String)
      (w : Workload)
      → discover_all c p (get_active_workload_types p.spec.selector.workload_types) names found
        ≡ ok ws
      → Mem name names
      → IsListed name w
      → Mem w ws
  unfolding discover_all
  all_complete [] found name w h m i = absurd (not-mem-nil m)
  all_complete (n ∷ names) found name w h m i =
      let (more, e, rest) =
        bind_ok
          (discover_namespace c p (get_active_workload_types p.spec.selector.workload_types) n) _
          h in
      Or.elim Mem-prop (mem-cons.0 m)
        (λ q.
          kept names (found ++ more) w rest
            (mem-append_right found (namespace_complete n w (rw (← q) i) e)))
        (λ l. all_complete names (found ++ more) name w rest l i)

  -- Where the discovery succeeds, it returns every workload that the API lists, for the selector of
  -- the policy, as a Deployment, StatefulSet or DaemonSet in a listed namespace, if the policy's
  -- type filter lets the kind through, its namespace filter allows the name of the namespace, and
  -- its namespace selector selects the labels of the namespace.
  pub discover_workloads_complete :
      (nss : List Namespace) (ns : Namespace) (w : Workload) (ws : List Workload)
      → c.list_namespaces ≡ ok nss
      → Mem ns nss
      → IsAllowedName p.spec.selector.namespaces ns.name
      → IsSelected p.spec.selector.namespace_selector ns.labels
      → IsListed ns.name w
      → discover_workloads c p ≡ ok ws
      → Mem w ws
  unfolding discover_workloads get_matching_namespaces
  discover_workloads_complete nss ns w ws l m allowed selected i d =
      let (names, e, rest) = bind_ok (get_matching_namespaces c p) _ d in
      let named : matching_names p nss ≡ names = names_of l e in
      let matched = matched_name nss ns m (policy_matches ns allowed selected) in
      all_complete names [] ns.name w rest (subst (Mem ns.name) named matched) i
    where
      names_of :
          {names : List String}
          → c.list_namespaces ≡ ok nss
          → get_matching_namespaces c p ≡ ok names
          → matching_names p nss ≡ names
      names_of l e = ground arith
