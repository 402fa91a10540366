-- ===== src/Controller/Retry.antt =====
-- The loop of the three status updates: fetch, change, write, and again after a conflict. The API
-- server stands in a state that its calls take on; the delays are left out.
pub mod Outcome
pub mod Attempts
pub mod Requests
use optipod.Prelude.{
  ◌≡◌, ◌≢◌, refl, ℕ, zero, suc, ◌<◌, String, Option, none, some, Result, ok, err, arith,
}
use optipod.Platform.{Platform}
use optipod.Cluster.{ApiError, not_found, conflict, forbidden, invalid, other_error}
use optipod.Api.Types.{OptimizationPolicy}

-- `Get` of a policy by its namespace and name, and `Status().Update`.
pub record PolicyStore (P : Platform) (W : Type 0) : Type 0 where
  pub get : String → String → W → Result ApiError (OptimizationPolicy P) × W
  pub update_status : OptimizationPolicy P → W → Option ApiError × W

pub data StatusError : Type 0 where
  get_failed update_failed : ApiError → StatusError
  retries_exhausted : StatusError

abbrev pub max_retries : ℕ
max_retries = 3

module _ {P : Platform} {W : Type 0} (store : PolicyStore P W) where
  -- Only a conflict leads to another attempt.
  after_write : Option ApiError → W → Option StatusError × W → Option StatusError × W
  after_write none w again = (none, w)
  after_write (some conflict) w again = again
  after_write (some e) w again = (some (update_failed e), w)

  -- A policy that is gone is no error; the change, which may read the clock, is `none` where no
  -- update is needed.
  after_fetch :
      (W → OptimizationPolicy P → Option (OptimizationPolicy P))
      → Result ApiError (OptimizationPolicy P)
      → W
      → (W → Option StatusError × W)
      → Option StatusError × W
  unfolding after_write
  after_fetch change (err not_found) w again = (none, w)
  after_fetch change (err e) w again = (some (get_failed e), w)
  after_fetch change (ok latest) w again = elim (change w latest) [
    | none ↦ (none, w)
    | some changed ↦
        let written = store.update_status changed w in
        after_write (written.0) (written.1) (again (written.1))
  ]

  -- The number is that of the attempts left.
  unfoldable pub retry_update :
      (W → OptimizationPolicy P → Option (OptimizationPolicy P))
      → OptimizationPolicy P
      → ℕ
      → W
      → Option StatusError × W
  unfolding after_fetch
  retry_update change pol zero w = (some retries_exhausted, w)
  retry_update change pol (suc n) w =
      let fetched = store.get pol.namespace pol.name w in
      after_fetch change (fetched.0) (fetched.1) (retry_update change pol n)
