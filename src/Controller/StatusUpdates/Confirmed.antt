-- ===== src/Controller/StatusUpdates/Confirmed.antt =====
-- What a status update without an error has confirmed.
use mathlib.Core.Option.{some-injective}
use optipod.Prelude.{
  ◌≡◌, ◌≢◌, refl, sym, ap, ◌∙◌, ℕ, ◌<◌, String, Option, none, some, List, Result, ok, err, arith,
}
use optipod.Platform.{Platform}
use optipod.Cluster.{ApiError, not_found}
use optipod.Api.Types.{OptimizationPolicy, OptimizationPolicyStatus, Condition}
use optipod.Controller.Retry.{PolicyStore, StatusError, max_retries}
use optipod.Controller.Retry.Outcome.{
  Conflicts, Settled, gone, unchanged, updated, IsOutcome, succeeds, fails, gives_up,
  retry_update-IsOutcome,
}
use optipod.Controller.Conditions.{
  merge_condition, find_condition, IsMerged, merge_condition-IsMerged,
}
use optipod.Controller.StatusUpdates.{condition_change, with_status, update_policy_status}

-- The first condition of the type has the status, the reason and the message.
abbrev pub Shows : Condition → OptimizationPolicyStatus → Type 0
Shows c s =
    (d : Condition) × (find_condition c.type s.conditions ≡ some d)
    × (d.status ≡ c.status)
    × (d.reason ≡ c.reason)
    × (d.message ≡ c.message)

-- The policy is gone, or shows the condition.
abbrev pub IsShown : {P : Platform} → Condition → Result ApiError (OptimizationPolicy P) → Type 0
IsShown c (err e) = e ≡ not_found
IsShown c (ok p) = Shows c p.status

-- The condition is the first of its type, and the first ones of the other types are as before.
pub record IsAdded (c : Condition) (before after : List Condition) : Type 0 where
  pub there : find_condition c.type after ≡ some c
  pub others : (t : String) → t ≢ c.type → find_condition t after ≡ find_condition t before

unchanged_Shows :
    (c : Condition) (s : OptimizationPolicyStatus) → condition_change c s ≡ none → Shows c s
unchanged_Shows c s h =
    same (merge_condition c s.conditions) refl (merge_condition-IsMerged c s.conditions)
  where
    same :
        (o : Option (List Condition))
        → merge_condition c s.conditions ≡ o
        → IsMerged c s.conditions o
        → Shows c s
    same none e m = m
    same (some l) e m = ground (arith, h, e)

-- A change of the status is one of its conditions only, to which the condition is added.
changed_IsAdded :
    (c : Condition) (s t : OptimizationPolicyStatus)
    → condition_change c s ≡ some t
    → (l : List Condition) × (t ≡ record s { conditions = l }) × IsAdded c s.conditions l
changed_IsAdded c s t h =
    new (merge_condition c s.conditions) refl (merge_condition-IsMerged c s.conditions)
  where
    new :
        (o : Option (List Condition))
        → merge_condition c s.conditions ≡ o
        → IsMerged c s.conditions o
        → (l : List Condition) × (t ≡ record s { conditions = l }) × IsAdded c s.conditions l
    new none e m = ground (arith, h, e)
    new (some l) e m =
        let q : some (record s { conditions = l }) ≡ some t = rw (e, condition_change) at h in
        (l, sym (some-injective _ _ q), record { there = m.0; others = m.1 })

module _ {P : Platform} {W : Type 0} (store : PolicyStore P W) (pol : OptimizationPolicy P)
    (c : Condition) where
  abbrev change : W → OptimizationPolicy P → Option (OptimizationPolicy P)
  change w p = with_status store p (condition_change c p.status)

  abbrev fetched : W → Result ApiError (OptimizationPolicy P) × W
  fetched u = store.get pol.namespace pol.name u

  -- The attempt from `u` ends in `v`: the policy is gone, or the fetched policy shows the condition,
  -- or the API server accepts the fetched policy with the condition added and nothing else changed.
  pub data IsEnding (u v : W) : Type 0 where
    is_gone : (fetched u).0 ≡ err not_found → (fetched u).1 ≡ v → IsEnding u v
    is_seen :
        (latest : OptimizationPolicy P)
        → (fetched u).0 ≡ ok latest
        → Shows c latest.status
        → (fetched u).1 ≡ v
        → IsEnding u v
    is_accepted :
        (latest : OptimizationPolicy P) (l : List Condition)
        → (fetched u).0 ≡ ok latest
        → IsAdded c latest.status.conditions l
        → store.update_status
            (record latest { status = record latest.status { conditions = l } })
            (fetched u).1
          ≡ (none, v)
        → IsEnding u v

  -- The last of at most three attempts, all those before it having ended with a conflict.
  pub record IsConfirmed (w v : W) : Type 0 where
    pub conflicts : ℕ
    pub few : conflicts < 3
    pub last : W
    pub conflicted : Conflicts store change pol conflicts w last
    pub ending : IsEnding last v

  changed_lem :
      (latest changed : OptimizationPolicy P) (o : Option OptimizationPolicyStatus)
      → condition_change c latest.status ≡ o
      → with_status store latest o ≡ some changed
      → (l : List Condition) × (record latest { status = record latest.status { conditions = l } }
          ≡ changed)
        × IsAdded c latest.status.conditions l
  changed_lem latest changed none e h = cc
  changed_lem latest changed (some s) e h =
      let (l, q, added) = changed_IsAdded c latest.status s e in
      (
        l,
        ap (λ (t : OptimizationPolicyStatus). record latest { status = t }) (sym q)
            ∙ some-injective _ _ h,
        added,
      )

  unchanged_lem :
      (latest : OptimizationPolicy P) (o : Option OptimizationPolicyStatus)
      → condition_change c latest.status ≡ o
      → with_status store latest o ≡ none
      → Shows c latest.status
  unchanged_lem latest none e h = unchanged_Shows c latest.status e
  unchanged_lem latest (some s) e h = cc

  Settled-IsEnding : (u v : W) → Settled store change pol u v → IsEnding u v
  Settled-IsEnding u v (gone h e) = is_gone h e
  Settled-IsEnding u v (unchanged latest h k e) = is_seen latest h (unchanged_lem latest _ refl k) e
  Settled-IsEnding u v (updated w) =
      let (l, q, added) = changed_lem w.latest w.changed _ refl w.needed in
      is_accepted w.latest l w.fetched added
        (rw q (let a = w.answered in let b = w.after in pair_of _ a b))
    where
      pair_of : (r : Option ApiError × W) → r.0 ≡ none → r.1 ≡ v → r ≡ (none, v)
      pair_of (o, x) a b = cc

  outcome-IsConfirmed :
      {w v : W} (o : Option StatusError)
      → IsOutcome store change pol 3 w v o
      → o ≡ none
      → IsConfirmed w v
  outcome-IsConfirmed o (succeeds k u l s e) h = record {
    conflicts = k;
    few = l;
    last = u;
    conflicted = s;
    ending = Settled-IsEnding u _ e;
  }
  outcome-IsConfirmed o (fails k u e l s f) h = cc
  outcome-IsConfirmed o (gives_up s) h = cc

  -- A status update that ends without an error has had at most two conflicts, each followed by
  -- another attempt, and in the last attempt the policy is gone, or the fetched policy shows the
  -- condition with its status, reason and message already, or the API server accepts the fetched
  -- policy with this condition added, the conditions of the other types and all else as fetched.
  pub update_policy_status-IsConfirmed :
      (w : W)
      → (update_policy_status store pol c w).0 ≡ none
      → IsConfirmed w (update_policy_status store pol c w).1
  unfolding update_policy_status
  update_policy_status-IsConfirmed w h =
      outcome-IsConfirmed _ (retry_update-IsOutcome store change pol max_retries w) h
