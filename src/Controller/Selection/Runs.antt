-- ===== src/Controller/Selection/Runs.antt =====
-- Which workloads a reconciliation processes, and with which policy.
use optipod.Prelude.{
  ◌≡◌, ◌≢◌, refl, inl, inr, ℕ, suc, ◌+◌, ◌≤◌, str_eq, eq_iff, Bool, true, false, Bool-cases, Option,
  none, some, List, [], ◌∷◌, length, All, Result, ok, err, bind_ok, map_err, map_err_ok, arith,
  if◌then◌else◌,
}
use optipod.Platform.{Platform}
use optipod.Platform.Laws.{SortLaws}
use optipod.Cluster.{Workload, Client}
use optipod.Api.Types.{OptimizationPolicy}
use optipod.Discovery.{DiscoveryError, discover_workloads}
use optipod.Discovery.Sound.{ReadLaws, IsMatched, discover_workloads-IsMatched}
use optipod.Selector.{SelectionError, list_failed, select_best_policy}
use optipod.Selector.Best.{IsBest, candidates, select_best_policy-IsBest}
use optipod.Controller.StatusUpdates.{count_types, update_workload_type_counts}
use optipod.Controller.Processor.{ProcessError, WorkloadProcessor}
use optipod.Controller.Processor.Process.{process_workload}
use optipod.Controller.Selection.{
  Reconciler, count_error, processing_failed, discovery_failed, monitored, after_process_workload,
  process_with, after_select_best_policy, process_one, process_each, after_discovery,
  process_workloads_with_policy_selection,
}

-- The policies are listed, and the selection is the best of those that apply.
pub select_best_policy_listed :
    {P : Platform} (sorts : SortLaws P) (c : Client P) (w : Workload) (best : OptimizationPolicy P)
    → select_best_policy c w ≡ ok best
    → (ps : List (OptimizationPolicy P)) × (c.list_policies ≡ ok ps)
      × IsBest best (candidates sorts c w ps)
unfolding select_best_policy
select_best_policy_listed sorts c w best h =
    let (ps, e, rest) = bind_ok (map_err list_failed c.list_policies) _ h in
    let listed = map_err_ok list_failed c.list_policies e in
    (ps, listed, select_best_policy-IsBest sorts c w ps best listed h)

module _ {P : Platform} (sorts : SortLaws P) {E W : Type 0} (rc : Reconciler P E W)
    (triggering : OptimizationPolicy P) where
  -- The processor takes on the workload with a policy of the name under reconciliation, which is the
  -- best of the policies that apply to it.
  pub record IsChosen (wp : WorkloadProcessor P E W) (w : Workload) (best : OptimizationPolicy P)
      (v : W) : Type 1 where
    pub present : rc.processor ≡ some wp
    pub policies : List (OptimizationPolicy P)
    pub listed : (rc.reads v).list_policies ≡ ok policies
    pub is_best : IsBest best (candidates sorts (rc.reads v) w policies)
    pub named : best.name ≡ triggering.name

  -- Why a workload is left alone: it has no policy, or it belongs to one of another name, or there is
  -- no processor.
  pub data IsLeft (w : Workload) (v : W) : Type 1 where
    no_policy : (e : SelectionError) → select_best_policy (rc.reads v) w ≡ err e → IsLeft w v
    other_policy :
        (best : OptimizationPolicy P)
        → select_best_policy (rc.reads v) w ≡ ok best
        → best.name ≢ triggering.name
        → IsLeft w v
    no_processor : rc.processor ≡ none → IsLeft w v

  -- The runs of the loop from one state to another, with the number of workloads processed without
  -- an error.
  pub data Run : List Workload → ℕ → W → W → Type 1 where
    done : (v : W) → Run [] 0 v v
    left :
        {w : Workload} {ws : List Workload} {n : ℕ} {v u : W}
        → IsLeft w v
        → Run ws n v u
        → Run (w ∷ ws) n v u
    processed :
        {w : Workload} {ws : List Workload} {n : ℕ} {v u : W} (wp : WorkloadProcessor P E W)
        (best : OptimizationPolicy P)
        → IsChosen wp w best v
        → (process_workload wp w best v).0.error ≡ none
        → Run ws n (process_workload wp w best v).1 u
        → Run (w ∷ ws) (suc n) v u
    failed :
        {w : Workload} {ws : List Workload} {n : ℕ} {v u : W} (wp : WorkloadProcessor P E W)
        (best : OptimizationPolicy P) (e : ProcessError)
        → IsChosen wp w best v
        → (process_workload wp w best v).0.error ≡ some e
        → Run ws n
            (count_error rc triggering.name "processing_error"
              (processing_failed rc triggering w e (process_workload wp w best v).1))
            u
        → Run (w ∷ ws) n v u

  Run-length : {ws : List Workload} {n : ℕ} {v u : W} → Run ws n v u → n ≤ length ws
  Run-length (done v) = omega arith
  Run-length (left l r) = let h = Run-length r in omega arith
  Run-length (processed wp best c e r) = let h = Run-length r in omega arith
  Run-length (failed wp best e c q r) = let h = Run-length r in omega arith

  -- What one round answers, with all that comes after it.
  abbrev Round : Workload → W → Bool × W → Type 1
  Round w v r =
      (ws : List Workload) (n : ℕ) (u : W)
      → Run ws n (r.1) u
      → Run (w ∷ ws) (if r.0 then suc n else n) v u

  process_workload-Round :
      (wp : WorkloadProcessor P E W) (w : Workload) (best : OptimizationPolicy P) (v : W)
      (e : Option ProcessError)
      → IsChosen wp w best v
      → (process_workload wp w best v).0.error ≡ e
      → Round w v (after_process_workload rc triggering w e (process_workload wp w best v).1)
  unfolding after_process_workload
  process_workload-Round wp w best v none c q ws n u r = processed wp best c q r
  process_workload-Round wp w best v (some e) c q ws n u r = failed wp best e c q r

  processor-Round :
      (o : Option (WorkloadProcessor P E W)) (w : Workload) (best : OptimizationPolicy P) (v : W)
      → rc.processor ≡ o
      → select_best_policy (rc.reads v) w ≡ ok best
      → best.name ≡ triggering.name
      → Round w v (process_with rc triggering o w best v)
  unfolding process_with
  processor-Round none w best v q s name = λ ws n u r. left (no_processor q) r
  processor-Round (some wp) w best v q s name =
      let (ps, listed, is_best) = select_best_policy_listed sorts (rc.reads v) w best s in
      process_workload-Round wp w best v _
        (record { present = q; policies = ps; listed = listed; is_best = is_best; named = name })
        refl

  selection-Round :
      (s : Result SelectionError (OptimizationPolicy P)) (w : Workload) (v : W)
      → select_best_policy (rc.reads v) w ≡ s
      → Round w v (after_select_best_policy rc triggering w s v)
  unfolding after_select_best_policy
  selection-Round (err e) w v q = λ ws n u r. left (no_policy e q) r
  selection-Round (ok best) w v q = elim (Bool-cases (str_eq best.name triggering.name)) [
    | inl same ↦
        rw (same, after_select_best_policy)
          (processor-Round rc.processor w best v refl q
            (ground (arith, eq_iff best.name triggering.name)))
    | inr other ↦
        rw (other, after_select_best_policy)
          (λ ws n u r.
            left (other_policy best q (ground (arith, eq_iff best.name triggering.name))) r)
  ]

  one-Round : (w : Workload) (v : W) → Round w v (process_one rc triggering w v)
  unfolding process_one
  one-Round w v = selection-Round (select_best_policy (rc.reads v) w) w v refl

  counted :
      (b : Bool) (k n x : ℕ) → x ≡ k + (if b then suc n else n) → x ≡ (if b then suc k else k) + n
  counted true k n x h = omega arith
  counted false k n x h = h

  -- The loop adds to the count that it starts with.
  pub process_each-Run :
      (ws : List Workload) (n : ℕ) (v : W)
      → (k : ℕ) × ((process_each rc triggering ws n v).0 ≡ k + n)
        × Run ws k v (process_each rc triggering ws n v).1
  unfolding process_each
  process_each-Run [] n v = (0, omega arith, done v)
  process_each-Run (w ∷ ws) n v =
      let one = process_one rc triggering w v in
      let (k, e, r) = process_each-Run ws (if one.0 then suc n else n) (one.1) in
      (if one.0 then suc k else k, counted (one.0) k n _ e, one-Round w v ws k _ r)

  -- Discovery fails and an event says so, or the discovered workloads, all of which the policy
  -- matches, are run through after their counts are written.
  pub data IsSelectionOutcome (v : W) : Result DiscoveryError (ℕ × ℕ) → W → Type 1 where
    undiscovered :
        (e : DiscoveryError)
        → discover_workloads (rc.reads v) triggering ≡ err e
        → IsSelectionOutcome v
            (err e)
            (count_error rc triggering.name "discovery_error" (discovery_failed rc triggering e v))
    discovered :
        (ws : List Workload) (n : ℕ) (u : W)
        → discover_workloads (rc.reads v) triggering ≡ ok ws
        → All (IsMatched (rc.reads v) triggering) ws
        → Run ws n
            (monitored rc triggering
              (length ws)
              (update_workload_type_counts rc.store triggering (count_types ws []) v).1)
            u
        → n ≤ length ws
        → IsSelectionOutcome v (ok (n, length ws)) u

  discovery_outcome :
      (v : W) (d : Result DiscoveryError (List Workload))
      → ReadLaws (rc.reads v)
      → discover_workloads (rc.reads v) triggering ≡ d
      → let r = after_discovery rc triggering d v in IsSelectionOutcome v (r.0) (r.1)
  unfolding after_discovery
  discovery_outcome v (err e) laws h = undiscovered e h
  discovery_outcome v (ok ws) laws h =
      let u =
        monitored rc triggering (length ws)
          (update_workload_type_counts rc.store triggering (count_types ws []) v).1 in
      let (k, e, r) = process_each-Run ws 0 u in
      let same : (process_each rc triggering ws 0 u).0 ≡ k = omega arith in
      rw same (
        discovered ws k _ h (discover_workloads-IsMatched (rc.reads v) triggering laws ws h) r
          (Run-length r))

  -- If the reads of the client return what was asked for, the reconciliation of a policy processes
  -- workloads that discovery returns for it and that policy selection finds it to match, at most as
  -- many as there are. Each is processed with the best of the policies that apply to it, which has
  -- the name of this policy, or is left alone in an unchanged state because it has no policy, has
  -- one of another name, or there is no processor; an error of one workload is told as an event,
  -- counted, and does not stop the others.
  pub process_workloads-IsSelectionOutcome :
      (v : W)
      → ReadLaws (rc.reads v)
      → let r = process_workloads_with_policy_selection rc triggering v in
        IsSelectionOutcome v (r.0) (r.1)
  unfolding process_workloads_with_policy_selection
  process_workloads-IsSelectionOutcome v laws = discovery_outcome v _ laws refl
