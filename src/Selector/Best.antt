-- ===== src/Selector/Best.antt =====
-- Which policy is selected.
use mathlib.Core.List.{mem-map_of_mem, mem-cons, mem-cons_self, exists_of_mem-map, Mem-prop}
use mathlib.Core.List.Perm
use mathlib.Core.Logic.Or
use mathlib.Core.Bool.{Bool-set}
use mathlib.Core.Logic.{∥∥₁_elim}
use mathlib.Core.HLevel.{×_prop}
use mathlib.Core.Path.{subst}
use optipod.Prelude.{
  ◌≡◌, refl, sym, ℤ-set, eq_of_not-str_lt, ◌≤ℤ◌, str_lt, false, List, [], ◌∷◌, map, Mem, Perm,
  Pairwise, select, ok, arith,
}
use optipod.Platform.{Platform}
use optipod.Platform.Laws.{SortLaws, IsSortedBy}
use optipod.Api.Types.{OptimizationPolicy, get_weight}
use optipod.Cluster.{Client, Workload}
use optipod.Selector.{
  PolicyMatch, match_of, precedes, applies, collect_matches, first, select_best_policy,
}
use optipod.Selector.Order.{precedes-IsOrdering}

module _ {P : Platform} where
  pub collect_matches-eq-map :
      (c : Client P) (w : Workload) (ps : List (OptimizationPolicy P))
      → collect_matches c w ps ≡ map match_of (select (applies c w) ps)
  unfolding collect_matches
  collect_matches-eq-map c w [] = refl
  collect_matches-eq-map c w (p ∷ ps) = ground (arith, collect_matches-eq-map c w ps)

  -- `p` has the highest weight, and among those of its weight no name is before its own.
  pub record IsBest (p : OptimizationPolicy P) (ps : List (OptimizationPolicy P)) : Type 0 where
    pub listed : Mem p ps
    pub heaviest : (q : OptimizationPolicy P) → Mem q ps → get_weight q ≤ℤ get_weight p
    pub first_name :
        (q : OptimizationPolicy P)
        → Mem q ps
        → get_weight q ≡ get_weight p
        → str_lt q.name p.name ≡ false

  not_preceded :
      (m : PolicyMatch P) (q : OptimizationPolicy P)
      → m.weight ≡ get_weight m.policy
      → precedes (match_of q) m ≡ false
      → (get_weight q ≤ℤ get_weight m.policy)
        × (get_weight q ≡ get_weight m.policy → str_lt q.name m.policy.name ≡ false)
  unfolding precedes
  not_preceded m q e h = ground arith

  -- Neither of two best policies is before the other.
  pub IsBest-tie :
      (p q : OptimizationPolicy P)
      → get_weight q ≤ℤ get_weight p
      → get_weight p ≤ℤ get_weight q
      → (get_weight q ≡ get_weight p → str_lt q.name p.name ≡ false)
      → (get_weight p ≡ get_weight q → str_lt p.name q.name ≡ false)
      → p.name ≡ q.name
  IsBest-tie p q h k f g =
      let e : get_weight p ≡ get_weight q = ground arith in
      eq_of_not-str_lt p.name q.name (g e) (f (sym e))

  mem-match_of :
      {m : PolicyMatch P} (ps : List (OptimizationPolicy P))
      → Mem m (map match_of ps)
      → Mem m.policy ps × (m.weight ≡ get_weight m.policy)
  mem-match_of {m} ps h = ∥∥₁_elim (exists_of_mem-map h) (×_prop Mem-prop (ℤ-set _ _)) (λ (p, k, e).
      (
        subst (λ (n : PolicyMatch P). Mem n.policy ps) e k,
        subst (λ (n : PolicyMatch P). n.weight ≡ get_weight n.policy) e refl,
      ))

module _ {P : Platform} (sorts : SortLaws P) (c : Client P) (w : Workload) where
  open P use {sort}

  -- What stands first after the sort is preceded by no match.
  head_first :
      (l : List (PolicyMatch P)) {m : PolicyMatch P} {ms : List (PolicyMatch P)}
      → sort (PolicyMatch P) precedes l ≡ m ∷ ms
      → Mem m l × ((n : PolicyMatch P) → Mem n l → precedes n m ≡ false)
  head_first l {m} {ms} e =
      let perm : Perm (m ∷ ms) l = rw e at (sorts.sort_perm (PolicyMatch P) precedes l) in
      let sorted : IsSortedBy precedes (m ∷ ms) =
        rw e at (sorts.sort_IsSortedBy (PolicyMatch P) precedes l precedes-IsOrdering) in
      (
        (Perm.mem_iff perm).0 mem-cons_self,
        λ n h.
            Or.elim (Bool-set _ _) (mem-cons.0 ((Perm.mem_iff perm).1 h))
              (λ q. rw q (precedes-IsOrdering.irrefl m)) (below sorted n),
      )
    where
      below : IsSortedBy precedes (m ∷ ms) → (n : PolicyMatch P) → Mem n ms → precedes n m ≡ false
      below (Pairwise.cons h _) n k = h n k

  abbrev pub candidates : List (OptimizationPolicy P) → List (OptimizationPolicy P)
  candidates = select (applies c w)

  sorted-IsBest :
      (ps : List (OptimizationPolicy P)) {m : PolicyMatch P} {ms : List (PolicyMatch P)}
      → sort (PolicyMatch P) precedes (collect_matches c w ps) ≡ m ∷ ms
      → IsBest m.policy (candidates ps)
  sorted-IsBest ps {m} {ms} e =
      let (listed, least) = head_first (collect_matches c w ps) e in
      let in_map : Mem m (map match_of (candidates ps)) = rw collect_matches-eq-map at listed in
      let (in_candidates, weight) = mem-match_of (candidates ps) in_map in
      let before : (q : OptimizationPolicy P)
          → Mem q (candidates ps)
          → precedes (match_of q) m ≡ false =
        λ q h. least (match_of q) (rw collect_matches-eq-map (mem-map_of_mem match_of h)) in
      record {
        listed = in_candidates;
        heaviest = λ q h. (not_preceded m q weight (before q h)).0;
        first_name = λ q h. (not_preceded m q weight (before q h)).1;
      }

  first-IsBest :
      (ps : List (OptimizationPolicy P)) (l : List (PolicyMatch P)) {p : OptimizationPolicy P}
      → sort (PolicyMatch P) precedes (collect_matches c w ps) ≡ l
      → first w l ≡ ok p
      → IsBest p (candidates ps)
  first-IsBest ps [] e h = cc
  first-IsBest ps (m ∷ ms) {p} e h =
      let q : m.policy ≡ p = cc in
      subst (λ (r : OptimizationPolicy P). IsBest r (candidates ps)) q (sorted-IsBest ps e)

  -- What is selected is an enabled policy that matches the workload, no such policy has a higher
  -- weight, and none of the same weight has a name before its own.
  pub select_best_policy-IsBest :
      (ps : List (OptimizationPolicy P)) (p : OptimizationPolicy P)
      → c.list_policies ≡ ok ps
      → select_best_policy c w ≡ ok p
      → IsBest p (candidates ps)
  unfolding select_best_policy
  select_best_policy-IsBest ps p e h =
      first-IsBest ps (sort (PolicyMatch P) precedes (collect_matches c w ps)) refl (ground arith)
