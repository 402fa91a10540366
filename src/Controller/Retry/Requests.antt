-- ===== src/Controller/Retry/Requests.antt =====
-- The updates of a status send no request that applies a recommendation.
use optipod.Prelude.{◌≡◌, ◌∙◌, refl, ℕ, zero, suc, String, Option, none, some, Result, ok, err}
use optipod.Platform.{Platform}
use optipod.Cluster.{ApiError, not_found, conflict, forbidden, invalid, other_error}
use optipod.Api.Types.{OptimizationPolicy}
use optipod.Controller.Retry.{PolicyStore, StatusError, after_write, after_fetch, retry_update}

-- The calls for policies do not count.
pub record KeepsCount {P : Platform} {W : Type 0} (store : PolicyStore P W) (sent : W → ℕ)
    : Type 0 where
  pub get_keeps : (namespace name : String) (v : W) → sent (store.get namespace name v).1 ≡ sent v
  pub update_keeps : (p : OptimizationPolicy P) (v : W) → sent (store.update_status p v).1 ≡ sent v

module _ {P : Platform} {W : Type 0} (store : PolicyStore P W) (sent : W → ℕ)
    (laws : KeepsCount store sent) where
  module _ (change : W → OptimizationPolicy P → Option (OptimizationPolicy P))
      (again : W → Option StatusError × W) (again_keeps : (v : W) → sent (again v).1 ≡ sent v) where
    written-keeps :
        (o : Option ApiError) (v : W) → sent (after_write store o v (again v)).1 ≡ sent v
    unfolding after_write
    written-keeps none v = refl
    written-keeps (some conflict) v = again_keeps v
    written-keeps (some not_found) v = refl
    written-keeps (some forbidden) v = refl
    written-keeps (some invalid) v = refl
    written-keeps (some other_error) v = refl

    changed-keeps :
        (p : OptimizationPolicy P) (o : Option (OptimizationPolicy P)) (v : W)
        → change v p ≡ o
        → sent (after_fetch store change (ok p) v again).1 ≡ sent v
    unfolding after_fetch
    changed-keeps p none v h = rw (h, after_fetch) refl
    changed-keeps p (some changed) v h =
        rw (h, after_fetch) (written-keeps _ _ ∙ laws.update_keeps changed v)

    fetched-keeps :
        (r : Result ApiError (OptimizationPolicy P)) (v : W)
        → sent (after_fetch store change r v again).1 ≡ sent v
    unfolding after_fetch
    fetched-keeps (ok p) v = changed-keeps p _ v refl
    fetched-keeps (err not_found) v = refl
    fetched-keeps (err conflict) v = refl
    fetched-keeps (err forbidden) v = refl
    fetched-keeps (err invalid) v = refl
    fetched-keeps (err other_error) v = refl

  pub retry_update-keeps :
      (change : W → OptimizationPolicy P → Option (OptimizationPolicy P))
      (pol : OptimizationPolicy P) (attempts : ℕ) (v : W)
      → sent (retry_update store change pol attempts v).1 ≡ sent v
  unfolding retry_update
  retry_update-keeps change pol zero v = refl
  retry_update-keeps change pol (suc n) v =
      fetched-keeps change (retry_update store change pol n) (retry_update-keeps change pol n) _ _
      ∙ laws.get_keeps pol.namespace pol.name v
