-- ===== src/Controller/Retry/Outcome.antt =====
-- How the retry loop ends.
use optipod.Prelude.{◌≡◌, ◌≢◌, refl, ℕ, zero, suc, ◌<◌, Option, none, some, Result, ok, err, arith}
use optipod.Platform.{Platform}
use optipod.Cluster.{ApiError, not_found, conflict, forbidden, invalid, other_error}
use optipod.Api.Types.{OptimizationPolicy}
use optipod.Controller.Retry.{
  PolicyStore, StatusError, get_failed, update_failed, retries_exhausted, after_write, after_fetch,
  retry_update,
}

module _ {P : Platform} {W : Type 0} (store : PolicyStore P W) where
  -- A fetch that finds the policy, and a write of the changed policy with its answer.
  pub record Written (change : W → OptimizationPolicy P → Option (OptimizationPolicy P))
      (pol : OptimizationPolicy P) (answer : Option ApiError) (w v : W) : Type 0 where
    pub latest : OptimizationPolicy P
    pub changed : OptimizationPolicy P
    pub fetched : (store.get pol.namespace pol.name w).0 ≡ ok latest
    pub needed : change (store.get pol.namespace pol.name w).1 latest ≡ some changed
    pub answered : (store.update_status changed (store.get pol.namespace pol.name w).1).0 ≡ answer
    pub after : (store.update_status changed (store.get pol.namespace pol.name w).1).1 ≡ v

  -- So many attempts in a row, all with a conflict.
  pub data Conflicts (change : W → OptimizationPolicy P → Option (OptimizationPolicy P))
      (pol : OptimizationPolicy P) : ℕ → W → W → Type 0 where
    start : (w : W) → Conflicts change pol 0 w w
    again :
        {n : ℕ} {w v u : W}
        → Written change pol (some conflict) w v
        → Conflicts change pol n v u
        → Conflicts change pol (suc n) w u

  -- How the last attempt ends without an error: the policy is gone, or it needs no change, or the
  -- change of the fetched policy is accepted.
  pub data Settled (change : W → OptimizationPolicy P → Option (OptimizationPolicy P))
      (pol : OptimizationPolicy P) (w v : W) : Type 0 where
    gone :
        (store.get pol.namespace pol.name w).0 ≡ err not_found
        → (store.get pol.namespace pol.name w).1 ≡ v
        → Settled change pol w v
    unchanged :
        (latest : OptimizationPolicy P)
        → (store.get pol.namespace pol.name w).0 ≡ ok latest
        → change (store.get pol.namespace pol.name w).1 latest ≡ none
        → (store.get pol.namespace pol.name w).1 ≡ v
        → Settled change pol w v
    updated : Written change pol none w v → Settled change pol w v

  -- How it ends with one: an error of the fetch that is not a missing policy, or of the write that
  -- is no conflict.
  pub data Failed (change : W → OptimizationPolicy P → Option (OptimizationPolicy P))
      (pol : OptimizationPolicy P) (w v : W) : StatusError → Type 0 where
    at_fetch :
        (e : ApiError)
        → (e ≢ not_found)
        → (store.get pol.namespace pol.name w).0 ≡ err e
        → (store.get pol.namespace pol.name w).1 ≡ v
        → Failed change pol w v (get_failed e)
    at_write :
        (e : ApiError)
        → (e ≢ conflict)
        → Written change pol (some e) w v
        → Failed change pol w v (update_failed e)

  pub data IsOutcome (change : W → OptimizationPolicy P → Option (OptimizationPolicy P))
      (pol : OptimizationPolicy P) (attempts : ℕ) (w v : W) : Option StatusError → Type 0 where
    succeeds :
        (n : ℕ) (u : W)
        → n < attempts
        → Conflicts change pol n w u
        → Settled change pol u v
        → IsOutcome change pol attempts w v none
    fails :
        (n : ℕ) (u : W) (e : StatusError)
        → n < attempts
        → Conflicts change pol n w u
        → Failed change pol u v e
        → IsOutcome change pol attempts w v (some e)
    gives_up :
        Conflicts change pol attempts w v
        → IsOutcome change pol attempts w v (some retries_exhausted)

  later :
      (change : W → OptimizationPolicy P → Option (OptimizationPolicy P))
      (pol : OptimizationPolicy P) (attempts : ℕ) {w u v : W} {r : Option StatusError}
      → Written change pol (some conflict) w u
      → IsOutcome change pol attempts u v r
      → IsOutcome change pol (suc attempts) w v r
  later change pol k h (succeeds n x l c s) = succeeds (suc n) x (omega arith) (again h c) s
  later change pol k h (fails n x e l c f) = fails (suc n) x e (omega arith) (again h c) f
  later change pol k h (gives_up c) = gives_up (again h c)

  module _ (change : W → OptimizationPolicy P → Option (OptimizationPolicy P))
      (pol : OptimizationPolicy P) (n : ℕ) (w : W) (again : W → Option StatusError × W)
      (ih : (v : W) → IsOutcome change pol n v (again v).1 (again v).0) where
    written :
        (answer : Option ApiError) (v : W)
        → Written change pol answer w v
        → let r = after_write store answer v (again v) in IsOutcome change pol (suc n) w (r.1) (r.0)
    unfolding after_write
    written none v h = succeeds 0 w (omega arith) (start w) (updated h)
    written (some conflict) v h = later change pol n h (ih v)
    written (some not_found) v h =
        fails 0 w _ (omega arith) (start w) (at_write not_found (λ e. cc) h)
    written (some forbidden) v h =
        fails 0 w _ (omega arith) (start w) (at_write forbidden (λ e. cc) h)
    written (some invalid) v h = fails 0 w _ (omega arith) (start w) (at_write invalid (λ e. cc) h)
    written (some other_error) v h =
        fails 0 w _ (omega arith) (start w) (at_write other_error (λ e. cc) h)

    needed :
        (latest : OptimizationPolicy P) (o : Option (OptimizationPolicy P)) (v : W)
        → change v latest ≡ o
        → (store.get pol.namespace pol.name w).0 ≡ ok latest
        → (store.get pol.namespace pol.name w).1 ≡ v
        → let r = after_fetch store change (ok latest) v again in
          IsOutcome change pol (suc n) w (r.1) (r.0)
    unfolding after_fetch
    needed latest none v c h k =
        rw (c, after_fetch) (succeeds 0 w (omega arith) (start w) (unchanged latest h (rw k c) k))
    needed latest (some changed) v c h k =
        rw (c, after_fetch)
          (written _ _ (record {
            latest = latest;
            changed = changed;
            fetched = h;
            needed = rw k c;
            answered = rw k;
            after = rw k;
          }))

    fetched :
        (r : Result ApiError (OptimizationPolicy P)) (v : W)
        → (store.get pol.namespace pol.name w).0 ≡ r
        → (store.get pol.namespace pol.name w).1 ≡ v
        → let q = after_fetch store change r v again in IsOutcome change pol (suc n) w (q.1) (q.0)
    unfolding after_fetch
    fetched (ok latest) v h k = needed latest (change v latest) v refl h k
    fetched (err not_found) v h k = succeeds 0 w (omega arith) (start w) (gone h k)
    fetched (err conflict) v h k =
        fails 0 w _ (omega arith) (start w) (at_fetch conflict (λ e. cc) h k)
    fetched (err forbidden) v h k =
        fails 0 w _ (omega arith) (start w) (at_fetch forbidden (λ e. cc) h k)
    fetched (err invalid) v h k =
        fails 0 w _ (omega arith) (start w) (at_fetch invalid (λ e. cc) h k)
    fetched (err other_error) v h k =
        fails 0 w _ (omega arith) (start w) (at_fetch other_error (λ e. cc) h k)

  -- Whatever the API server answers, the loop ends in one of three ways: it succeeds, after fewer
  -- conflicts than attempts, because the policy is gone, needs no change or was changed; it fails
  -- on an answer that is neither a conflict nor a missing policy; or every attempt is a conflict.
  pub retry_update-IsOutcome :
      (change : W → OptimizationPolicy P → Option (OptimizationPolicy P))
      (pol : OptimizationPolicy P) (attempts : ℕ) (w : W)
      → let r = retry_update store change pol attempts w in
        IsOutcome change pol attempts w (r.1) (r.0)
  unfolding retry_update
  retry_update-IsOutcome change pol zero w = gives_up (start w)
  retry_update-IsOutcome change pol (suc k) w =
      fetched change pol k w (retry_update store change pol k) (retry_update-IsOutcome change pol k)
        _ _ refl refl
