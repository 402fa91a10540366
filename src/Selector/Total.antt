-- ===== src/Selector/Total.antt =====
-- When a policy is selected, and that the order in which policies are listed does not matter.
use mathlib.Core.List.{not-mem-nil, mem-map_of_mem, mem-cons_self, mem-cons_of_mem}
use mathlib.Core.List.Perm
use optipod.Prelude.{
  ◌≡◌, ◌∙◌, refl, sym, ap, String, Bool, Option, none, some, true, false, List, [], ◌∷◌, Mem, Perm,
  select, is_empty, mem-select, mem_of_mem-select, ok, err, arith,
}
use optipod.Platform.{Platform, LabelSelector}
use optipod.Platform.Laws.{SortLaws}
use optipod.Api.Types.{OptimizationPolicy}
use optipod.Cluster.{Client, Workload}
use optipod.Selector.{
  no_matching_policy, PolicyMatch, match_of, precedes, applies, collect_matches, first,
  policy_matches_workload, namespace_selected, select_best_policy,
}
use optipod.Selector.Best.{
  IsBest, IsBest-tie, candidates, collect_matches-eq-map, select_best_policy-IsBest,
}

not-mem_of_is_empty {ℓ} : {A : Type ℓ} {a : A} (l : List A) → Mem a l → is_empty l ≡ false
not-mem_of_is_empty [] m = absurd (not-mem-nil m)
not-mem_of_is_empty (x ∷ l) m = refl

select_none {ℓ} :
    {A : Type ℓ} (p : A → Bool) (l : List A) → ((a : A) → Mem a l → p a ≡ false) → select p l ≡ []
select_none p [] h = refl
select_none p (x ∷ l) h =
    ground (arith, h x mem-cons_self, select_none p l (λ a m. h a (mem-cons_of_mem x m)))

module _ {P : Platform} (sorts : SortLaws P) (c : Client P) (w : Workload) where
  open P use {sort}

  first_total :
      (ps : List (OptimizationPolicy P)) (l : List (PolicyMatch P)) {q : OptimizationPolicy P}
      → Mem (match_of q) (collect_matches c w ps)
      → sort (PolicyMatch P) precedes (collect_matches c w ps) ≡ l
      → (p : OptimizationPolicy P) × (first w l ≡ ok p)
  first_total ps [] m e =
      let perm : Perm [] (collect_matches c w ps) =
        rw e at (sorts.sort_perm (PolicyMatch P) precedes (collect_matches c w ps)) in
      absurd (not-mem-nil ((Perm.mem_iff perm).1 m))
  first_total ps (n ∷ ns) m e = (n.policy, refl)

  -- If the policies can be listed and some enabled one matches the workload, then a policy is
  -- selected.
  pub select_best_policy_total :
      (ps : List (OptimizationPolicy P)) (q : OptimizationPolicy P)
      → c.list_policies ≡ ok ps
      → Mem q ps
      → applies c w q ≡ true
      → (p : OptimizationPolicy P) × (select_best_policy c w ≡ ok p)
  unfolding select_best_policy
  select_best_policy_total ps q e m h =
      let matched : Mem (match_of q) (collect_matches c w ps) =
        rw collect_matches-eq-map (mem-map_of_mem match_of (mem-select (applies c w) ps m h)) in
      let (p, chosen) =
        first_total ps (sort (PolicyMatch P) precedes (collect_matches c w ps)) matched refl in
      (p, ground (arith, not-mem_of_is_empty (collect_matches c w ps) matched))

  -- If no listed policy is enabled and matches, the error names the workload.
  pub select_best_policy_none :
      (ps : List (OptimizationPolicy P))
      → c.list_policies ≡ ok ps
      → ((q : OptimizationPolicy P) → Mem q ps → applies c w q ≡ false)
      → select_best_policy c w ≡ err (no_matching_policy w.namespace w.name)
  unfolding select_best_policy
  select_best_policy_none ps e h =
      ground (arith, collect_matches-eq-map c w ps, select_none (applies c w) ps h)

namespace_selected_agree :
    {P : Platform} (c d : Client P) (s : Option LabelSelector) (name : String)
    → c.get_namespace name ≡ d.get_namespace name
    → namespace_selected c s name ≡ namespace_selected d s name
unfolding namespace_selected
namespace_selected_agree c d none name e = refl
namespace_selected_agree c d (some s) name e = ground (arith, e)

module _ {P : Platform} (sorts : SortLaws P) (c d : Client P) (w : Workload) where
  applies_agree :
      c.get_namespace ≡ d.get_namespace → (q : OptimizationPolicy P) → applies c w q ≡ applies d w q
  unfolding policy_matches_workload
  applies_agree e q = rw (
      namespace_selected_agree c d q.spec.selector.namespace_selector w.namespace
        (ap (λ g. g w.namespace) e))

  -- Two clients that see the same namespaces, and list the same policies in any two orders, get
  -- the same policy selected, if no two listed policies share a name.
  pub select_best_policy_order :
      (ps qs : List (OptimizationPolicy P)) (p q : OptimizationPolicy P)
      → c.get_namespace ≡ d.get_namespace
      → c.list_policies ≡ ok ps
      → d.list_policies ≡ ok qs
      → Perm ps qs
      → ((a b : OptimizationPolicy P) → Mem a ps → Mem b ps → a.name ≡ b.name → a ≡ b)
      → select_best_policy c w ≡ ok p
      → select_best_policy d w ≡ ok q
      → p ≡ q
  select_best_policy_order ps qs p q same lp lq perm unique sp sq =
      let bp : IsBest p (candidates sorts c w ps) =
        select_best_policy-IsBest sorts c w ps p lp sp in
      let bq : IsBest q (candidates sorts d w qs) =
        select_best_policy-IsBest sorts d w qs q lq sq in
      let (p_listed, p_applies) = mem_of_mem-select (applies c w) ps bp.listed in
      let (q_listed, q_applies) = mem_of_mem-select (applies d w) qs bq.listed in
      let q_in_ps = (Perm.mem_iff perm).1 q_listed in
      let p_in_qs = (Perm.mem_iff perm).0 p_listed in
      let q_there = mem-select (applies c w) ps q_in_ps (applies_agree same q ∙ q_applies) in
      let p_there = mem-select (applies d w) qs p_in_qs (sym (applies_agree same p) ∙ p_applies) in
      unique p q p_listed q_in_ps (
        IsBest-tie p q (bp.heaviest q q_there) (bq.heaviest p p_there) (bp.first_name q q_there)
          (bq.first_name p p_there))
