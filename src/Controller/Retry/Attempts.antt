-- ===== src/Controller/Retry/Attempts.antt =====
-- How many requests an update of a status makes.
use optipod.Prelude.{◌≡◌, refl, ℕ, zero, suc, ◌+◌, ◌≤◌, Option, none, some, Result, ok, err, arith}
use optipod.Platform.{Platform}
use optipod.Cluster.{ApiError, not_found, conflict, forbidden, invalid, other_error}
use optipod.Api.Types.{OptimizationPolicy}
use optipod.Controller.Retry.{PolicyStore, StatusError, after_write, after_fetch, retry_update}

-- The answer of a fetch that leaves nothing to write: the policy is gone, or needs no change.
abbrev pub NeedsNothing :
    {P : Platform}
    → (OptimizationPolicy P → Option (OptimizationPolicy P))
    → Result ApiError (OptimizationPolicy P)
    → Type 0
NeedsNothing change (err e) = e ≡ not_found
NeedsNothing change (ok p) = change p ≡ none

-- A state with the numbers of the fetches and of the writes so far.
pub record Counted (W : Type 0) : Type 0 where
  pub state : W
  pub fetches : ℕ
  pub writes : ℕ

module _ {P : Platform} {W : Type 0} (store : PolicyStore P W) where
  nothing_fetched :
      (change : W → OptimizationPolicy P → Option (OptimizationPolicy P))
      (r : Result ApiError (OptimizationPolicy P)) (v : W) (again : W → Option StatusError × W)
      → NeedsNothing (change v) r
      → after_fetch store change r v again ≡ (none, v)
  unfolding after_fetch
  nothing_fetched change (err e) v again h = rw (h, after_fetch) refl
  nothing_fetched change (ok p) v again h = rw (h, after_fetch) refl

  -- Where nothing is to write, the first fetch is the only request.
  pub retry_update-unneeded :
      (change : W → OptimizationPolicy P → Option (OptimizationPolicy P))
      (pol : OptimizationPolicy P) (attempts : ℕ) (w : W)
      → NeedsNothing
          (change (store.get pol.namespace pol.name w).1)
          (store.get pol.namespace pol.name w).0
      → retry_update store change pol (suc attempts) w
        ≡ (none, (store.get pol.namespace pol.name w).1)
  unfolding retry_update
  retry_update-unneeded change pol attempts w h = nothing_fetched change _ _ _ h

  -- The store with a count of its calls.
  abbrev pub counted : PolicyStore P (Counted W)
  counted = record {
    get = λ namespace name c.
        let r = store.get namespace name c.state in
        (r.0, record { state = r.1; fetches = suc c.fetches; writes = c.writes });
    update_status = λ p c.
        let r = store.update_status p c.state in
        (r.0, record { state = r.1; fetches = c.fetches; writes = suc c.writes });
  }

  -- From one state to the other there were at most so many attempts, each with a fetch and no more
  -- than one write, and the other model of the store came to the same.
  pub record IsWithin (attempts : ℕ) (c : Counted W) (r : Option StatusError × Counted W)
      (plain : Option StatusError × W) : Type 0 where
    pub few_fetches : r.1.fetches ≤ c.fetches + attempts
    pub few_writes : r.1.writes ≤ c.writes + attempts
    pub same_answer : r.0 ≡ plain.0
    pub same_state : r.1.state ≡ plain.1

  module _ (change : W → OptimizationPolicy P → Option (OptimizationPolicy P)) (n : ℕ)
      (c : Counted W) (again : Counted W → Option StatusError × Counted W)
      (plain : W → Option StatusError × W)
      (ih : (d : Counted W) → IsWithin n d (again d) (plain d.state)) where
    abbrev counted_change : Counted W → OptimizationPolicy P → Option (OptimizationPolicy P)
    counted_change d p = change d.state p

    ended :
        (o : Option StatusError) (d : Counted W)
        → d.fetches ≤ suc c.fetches
        → d.writes ≤ suc c.writes
        → IsWithin (suc n) c (o, d) (o, d.state)
    ended o d h k = record {
      few_fetches = omega arith;
      few_writes = omega arith;
      same_answer = refl;
      same_state = refl;
    }

    written :
        (answer : Option ApiError) (d : Counted W)
        → d.fetches ≤ suc c.fetches
        → d.writes ≤ suc c.writes
        → IsWithin
            (suc n)
            c
            (after_write counted answer d (again d))
            (after_write store answer d.state (plain d.state))
    unfolding after_write
    written none d h k = ended none d h k
    written (some conflict) d h k =
        let l = ih d in
        record {
          few_fetches = (let i = l.few_fetches in omega arith);
          few_writes = (let i = l.few_writes in omega arith);
          same_answer = l.same_answer;
          same_state = l.same_state;
        }
    written (some not_found) d h k = ended _ d h k
    written (some forbidden) d h k = ended _ d h k
    written (some invalid) d h k = ended _ d h k
    written (some other_error) d h k = ended _ d h k

    needed :
        (p : OptimizationPolicy P) (o : Option (OptimizationPolicy P)) (d : Counted W)
        → change d.state p ≡ o
        → d.fetches ≤ suc c.fetches
        → d.writes ≤ c.writes
        → IsWithin
            (suc n)
            c
            (after_fetch counted counted_change (ok p) d again)
            (after_fetch store change (ok p) d.state plain)
    unfolding after_fetch
    needed p none d q h k = rw (q, after_fetch) (ended none d h (omega arith))
    needed p (some changed) d q h k = rw (q, after_fetch) (written _ _ h (omega arith))

    fetched :
        (r : Result ApiError (OptimizationPolicy P)) (d : Counted W)
        → d.fetches ≤ suc c.fetches
        → d.writes ≤ c.writes
        → IsWithin
            (suc n)
            c
            (after_fetch counted counted_change r d again)
            (after_fetch store change r d.state plain)
    unfolding after_fetch
    fetched (ok p) d h k = needed p _ d refl h k
    fetched (err not_found) d h k = ended none d h (omega arith)
    fetched (err conflict) d h k = ended _ d h (omega arith)
    fetched (err forbidden) d h k = ended _ d h (omega arith)
    fetched (err invalid) d h k = ended _ d h (omega arith)
    fetched (err other_error) d h k = ended _ d h (omega arith)

  -- Whatever the API server answers, also if it answers every write with a conflict, the loop comes
  -- to an end after at most as many fetches, and at most as many writes, as there are attempts; with
  -- the requests counted, the answer and the state are the same as without.
  pub retry_update-IsWithin :
      (change : W → OptimizationPolicy P → Option (OptimizationPolicy P))
      (pol : OptimizationPolicy P) (attempts : ℕ) (c : Counted W)
      → IsWithin attempts c
          (retry_update counted (λ d. change d.state) pol attempts c)
          (retry_update store change pol attempts c.state)
  unfolding retry_update
  retry_update-IsWithin change pol zero c = record {
    few_fetches = omega arith;
    few_writes = omega arith;
    same_answer = refl;
    same_state = refl;
  }
  retry_update-IsWithin change pol (suc n) c =
      fetched change n c (retry_update counted (λ d. change d.state) pol n)
        (retry_update store change pol n) (retry_update-IsWithin change pol n) _ _ (omega arith)
        (omega arith)
