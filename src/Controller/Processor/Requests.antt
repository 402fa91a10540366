-- ===== src/Controller/Processor/Requests.antt =====
-- A count of the requests that apply a recommendation.
use optipod.Prelude.{◌≡◌, ℕ, suc, ◌≤◌, String, Bool, List, length, some, Result, ok, err}
use optipod.Platform.{Platform, Labels}
use optipod.Cluster.{Object}
use optipod.Api.Types.{Duration}
use optipod.Observability.Collectors.{Collector}
use optipod.Application.Apply.{PatchRequest}
use optipod.Controller.Processor.{ProcessError, WorkloadClient, WorkloadProcessor}

-- A patch request counts as at most one, and no other call counts.
pub record CountsPatches {P : Platform} {E W : Type 0} (wp : WorkloadProcessor P E W) (sent : W → ℕ)
    : Type 0 where
  pub patch_once : (r : PatchRequest) (v : W) → sent (wp.effects.patch r v).1 ≤ suc (sent v)
  pub inc_keeps :
      (c : Collector) (values : List String) (v : W)
      → sent (wp.effects.meters.inc c values v) ≡ sent v
  pub observe_keeps :
      (c : Collector) (values : List String) (d : Duration) (v : W)
      → sent (wp.meters.observe_seconds c values d v) ≡ sent v
  pub metrics_keeps :
      (namespace pod container : String) (window : Duration) (v : W)
      → sent (wp.get_container_metrics namespace pod container window v).1 ≡ sent v
  pub list_pods_keeps :
      (c : WorkloadClient W)
      → wp.client ≡ some c
      → (namespace : String) (selects : Labels → Bool) (v : W)
      → sent (c.list_pods namespace selects v).1 ≡ sent v
  pub get_keeps :
      (c : WorkloadClient W)
      → wp.client ≡ some c
      → (o : Object) (v : W) → sent (c.get o v).1 ≡ sent v
  pub update_keeps :
      (c : WorkloadClient W)
      → wp.client ≡ some c
      → (o : Object) (v : W) → sent (c.update o v).1 ≡ sent v
  pub sleep_keeps : (v : W) → sent (wp.clock.sleep v) ≡ sent v

-- The number of containers, 0 where they cannot be read.
abbrev pub count_of : Result ProcessError (List String) → ℕ
count_of (err e) = 0
count_of (ok cs) = length cs
