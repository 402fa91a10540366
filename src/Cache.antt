-- ===== src/Cache.antt =====
-- internal/cache: results of discovery and of metrics queries, kept for a time. Both caches are a
-- map from a key to a value and the time at which it was stored. Get, Set and the two invalidations
-- each run under the mutex, so each is one step. GetOrDiscover and GetOrFetch hold no lock between
-- their Get and their Set: what other callers do in between is an argument. The clock is one, too.
pub mod History
pub mod Keys
pub mod Containers
use optipod.Prelude.{
  ℤ, ltb_ℤ, ◌-ℤ◌, String, Bool, true, false, Option, none, some, [], ◌∷◌, List, StrMap, lookup,
  insert, delete, Result, ok, err, if◌then◌else◌,
}
use Prim.Native.String.{◌++◌}
use optipod.Platform.{Platform}
use optipod.Api.Types.{OptimizationPolicy, Time, Duration}
use optipod.Metrics.{ContainerMetrics}
use optipod.Cluster.{Client, Workload}
use optipod.Discovery.{DiscoveryError, discover_workloads}

pub record Entry {ℓ} (V : Type ℓ) : Type ℓ where
  pub stored : V
  pub timestamp : Time

pub record Cache {ℓ} (V : Type ℓ) : Type ℓ where
  pub entries : StrMap (Entry V)
  pub ttl : Duration

module _ {ℓ} {V : Type ℓ} where
  unfoldable pub new_cache : Duration → Cache V
  new_cache ttl = record { entries = []; ttl = ttl }

  unfoldable pub get : Time → String → Cache V → Option V
  get now key c = elim (lookup key c.entries) [
    | none ↦ none
    | some e ↦ if ltb_ℤ c.ttl (now -ℤ e.timestamp) then none else some e.stored
  ]

  unfoldable pub set : Time → String → V → Cache V → Cache V
  set now key v c = record c {
    entries = insert key (record { stored = v; timestamp = now }) c.entries;
  }

  unfoldable pub invalidate : String → Cache V → Cache V
  invalidate key c = record c { entries = delete key c.entries }

  unfoldable pub invalidate_all : Cache V → Cache V
  invalidate_all c = record c { entries = [] }

  -- Look in the cache at `now`; on a miss compute the value, which takes until other callers have done
  -- `between` to the cache, and store it at `later`.
  unfoldable pub get_or_compute {κ} :
      {E : Type κ}
      → Time
      → Time
      → String
      → Result E V
      → (Cache V → Cache V)
      → Cache V
      → Result E V × Cache V
  unfolding get set
  get_or_compute now later key fetched between c = elim (get now key c) [
    | some v ↦ (ok v, c)
    | none ↦ elim fetched [
      | ok v ↦ (ok v, set later key v (between c))
      | err e ↦ (err e, between c)
    ]
  ]

abbrev pub WorkloadCache : Type 0
WorkloadCache = Cache (List Workload)

unfoldable pub get_policy_key : {P : Platform} → OptimizationPolicy P → String
get_policy_key p = p.namespace ++ "/" ++ p.name

module _ {P : Platform} where
  unfoldable pub get_or_discover :
      Time
      → Time
      → Client P
      → OptimizationPolicy P
      → (WorkloadCache → WorkloadCache)
      → WorkloadCache
      → Result DiscoveryError (List Workload) × WorkloadCache
  unfolding get_policy_key get_or_compute
  get_or_discover now later client p between c =
      get_or_compute now later (get_policy_key p) (discover_workloads client p) between c

unfoldable pub get_metrics_key : String → String → String → String
get_metrics_key namespace pod container = namespace ++ "/" ++ pod ++ "/" ++ container

module _ {κ} {P : Platform} {E : Type κ} where
  -- `fetched` is the answer of the provider for this container and window.
  unfoldable pub get_or_fetch :
      Time
      → Time
      → Result E (ContainerMetrics P)
      → String
      → String
      → String
      → (Cache (ContainerMetrics P) → Cache (ContainerMetrics P))
      → Cache (ContainerMetrics P)
      → Result E (ContainerMetrics P) × Cache (ContainerMetrics P)
  unfolding get_metrics_key get_or_compute
  get_or_fetch now later fetched namespace pod container between c =
      get_or_compute now later (get_metrics_key namespace pod container) fetched between c
