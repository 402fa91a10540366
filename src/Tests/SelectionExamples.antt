-- ===== src/Tests/SelectionExamples.antt =====
-- Selection and discovery.
use mathlib.Core.List.{mem-cons_self, not-mem-nil, mem-cons}
use mathlib.Core.List.Perm
use mathlib.Core.Logic.{◌∨₁◌, ∨₁_prop}
use mathlib.Core.Logic.Or
use mathlib.Core.Path.{subst}
use mathlib.Core.HLevel.{prop→set}
use text.Mathlib.TextEquality.{IsScalar-prop}
use optipod.Prelude.{
  ℕ, ◌≡◌, refl, String, str_eq, true, [], ◌∷◌, List, Mem, ok, All, arith, eq_iff, ◌&&◌, Bool-cases,
  inl, inr, Result,
}
use optipod.Platform.Demo.{demo, demo_sort}
use optipod.Platform.Sorting.{insertion_sort}
use optipod.Api.Types.{OptimizationPolicy, get_weight}
use optipod.Api.WorkloadTypes.{contains, get_active_workload_types}
use optipod.Cluster.{ListSelector, ApiError}
use optipod.Selector.{
  precedes, applies, collect_matches, policy_matches_workload, select_best_policy,
}
use optipod.Selector.Best.{IsBest, candidates, select_best_policy-IsBest}
use optipod.Selector.Total.{select_best_policy_total, select_best_policy_order}
use optipod.Discovery.{
  discover_workloads, discover_deployments, discover_stateful_sets, get_matching_namespaces,
  namespace_matches,
}
use optipod.Discovery.Complete.{IsListed, as_deployment, discover_workloads_complete}
use optipod.Discovery.Sound.{selects, ReadLaws, IsMatched, discover_workloads-IsMatched}
use optipod.Tests.Data.{shop, heavy, light, web, listing, shop_objects, web_object}

heavy_selected : select_best_policy (listing (light ∷ heavy ∷ [])) web ≡ ok heavy
unfolding select_best_policy collect_matches policy_matches_workload get_active_workload_types
    contains precedes insertion_sort get_weight
heavy_selected = refl

heavy_selected_again : select_best_policy (listing (heavy ∷ light ∷ [])) web ≡ ok heavy
unfolding select_best_policy collect_matches policy_matches_workload get_active_workload_types
    contains precedes insertion_sort get_weight
heavy_selected_again = refl

light-applies : applies (listing (light ∷ [])) web light ≡ true
unfolding policy_matches_workload get_active_workload_types contains
light-applies = refl

select_best_policy-IsBest_example :
    IsBest heavy (candidates demo_sort (listing (light ∷ heavy ∷ [])) web (light ∷ heavy ∷ []))
select_best_policy-IsBest_example =
    select_best_policy-IsBest demo_sort (listing (light ∷ heavy ∷ [])) web (light ∷ heavy ∷ [])
      heavy refl heavy_selected

select_best_policy_total_example :
    (p : OptimizationPolicy demo) × (select_best_policy (listing (light ∷ [])) web ≡ ok p)
select_best_policy_total_example =
    select_best_policy_total demo_sort (listing (light ∷ [])) web (light ∷ []) light refl
      mem-cons_self light-applies

names_differ : (light.name ≡ heavy.name → ⊥) × (heavy.name ≡ light.name → ⊥)
names_differ = (ground (arith, eq_iff "light" "heavy"), ground (arith, eq_iff "heavy" "light"))

policy-set : IsSet (OptimizationPolicy demo)
policy-set = hlevel (λ (x : ℕ). prop→set (IsScalar-prop x))

names_unique :
    (a b : OptimizationPolicy demo)
    → Mem a (light ∷ heavy ∷ [])
    → Mem b (light ∷ heavy ∷ [])
    → a.name ≡ b.name
    → a ≡ b
names_unique a b m n e =
    Or.elim (policy-set a b) (one_of a m)
      (λ p. Or.elim (policy-set a b) (one_of b n) (λ q. cc) (λ q. absurd (names_differ.0 cc)))
      (λ p. Or.elim (policy-set a b) (one_of b n) (λ q. absurd (names_differ.1 cc)) (λ q. cc))
  where
    one_of : (a : OptimizationPolicy demo) → Mem a (light ∷ heavy ∷ []) → (a ≡ light) ∨₁ (a ≡ heavy)
    one_of a m =
        Or.elim ∨₁_prop (mem-cons.0 m) Or.inl
          (λ k. Or.elim ∨₁_prop (mem-cons.0 k) Or.inr (λ j. absurd (not-mem-nil j)))

select_best_policy_order_example : heavy ≡ heavy
select_best_policy_order_example =
    select_best_policy_order demo_sort (listing (light ∷ heavy ∷ [])) (listing (heavy ∷ light ∷ []))
      web (light ∷ heavy ∷ []) (heavy ∷ light ∷ []) heavy heavy refl refl refl
      (Perm.swap heavy light []) names_unique heavy_selected heavy_selected_again

shop_objects_honest :
    (n : String) (s : ListSelector)
    → All (λ o. (o.namespace ≡ n) × (selects s o.labels ≡ true)) (shop_objects n s)
shop_objects_honest n s = elim (Bool-cases (str_eq n "shop" && selects s web.labels)) [
  | inl e ↦ rw e (((ground (arith, eq_iff n "shop"), ground arith)), tt)
  | inr e ↦ rw e tt
]

returned : {A : Type 0} {a b : A} → ◌≡◌ {A = Result ApiError A} (ok a) (ok b) → a ≡ b
returned e = cc

pub listing_honest : (ps : List (OptimizationPolicy demo)) → ReadLaws (listing ps)
listing_honest ps = record {
  deployments_honest = λ n s os e.
      subst (All (λ o. (o.namespace ≡ n) × (selects s o.labels ≡ true))) (returned e)
        (shop_objects_honest n s);
  stateful_sets_honest = λ n s os e.
      subst (All (λ o. (o.namespace ≡ n) × (selects s o.labels ≡ true))) (returned e) tt;
  daemon_sets_honest = λ n s os e.
      subst (All (λ o. (o.namespace ≡ n) × (selects s o.labels ≡ true))) (returned e) tt;
  namespaces_found = λ nss e.
      subst (All (λ ns. (listing ps).get_namespace ns.name ≡ ok ns)) (returned e) (refl, tt);
}

web_discovered : discover_workloads (listing (heavy ∷ [])) heavy ≡ ok (web ∷ [])
unfolding discover_workloads discover_deployments discover_stateful_sets get_matching_namespaces
    namespace_matches get_active_workload_types contains
web_discovered = refl

discover_workloads-IsMatched_example : All (IsMatched (listing (heavy ∷ [])) heavy) (web ∷ [])
discover_workloads-IsMatched_example =
    discover_workloads-IsMatched (listing (heavy ∷ [])) heavy (listing_honest (heavy ∷ []))
      (web ∷ []) web_discovered

web-IsListed : IsListed (listing (heavy ∷ [])) heavy "shop" web
web-IsListed = as_deployment (record {
  active = refl;
  selector = _;
  converted = (_, refl, refl);
  items = web_object ∷ [];
  answer = refl;
  item = web_object;
  held = mem-cons_self;
  shape = refl;
})

discover_workloads_complete_example : Mem web (web ∷ [])
discover_workloads_complete_example =
    discover_workloads_complete (listing (heavy ∷ [])) heavy (shop ∷ []) shop web (web ∷ []) refl
      mem-cons_self tt (_, refl, refl) web-IsListed web_discovered
