-- ===== src/Metrics/Server.antt =====
-- internal/metrics/metricsserver.go: samples of the usage of one container, and their percentiles.
pub mod Samples
pub mod Interpolation
pub mod Cells
pub mod Extremes
pub mod Percentiles
use optipod.Prelude.{
  map_option, ◌≡◌, ◌∙◌, refl, ℕ, zero, suc, ◌+◌, ◌/◌, ◌≤◌, ◌*◌, ◌^◌, ltb, ℤ, pos, negsuc, sub_ℕ,
  ◌-ℤ◌, ◌+ℤ◌, ◌≤ℤ◌, ltb_ℤ, String, str_eq, Bool, true, false, Option, none, some, List, [], ◌∷◌,
  ◌++◌, length, get_elem?, Result, ok, err, ◌>>=◌, arith, if◌then◌else◌, length-append, bind_ok,
  ◌⊎◌, Bool-cases, inl, inr,
}
use optipod.Platform.{Platform, decimal_si, binary_si, no_format}
use optipod.Cluster.{ApiError}
use optipod.Metrics.{ResourceMetrics, ContainerMetrics}

-- Go's integer division, which truncates.
abbrev pub quot : ℤ → ℤ → ℤ
quot (pos a) (pos b) = pos (a / b)
quot (pos a) (negsuc b) = sub_ℕ 0 (a / suc b)
quot (negsuc a) (pos b) = sub_ℕ 0 (suc a / b)
quot (negsuc a) (negsuc b) = pos (suc a / suc b)

-- The two settings of a provider; its clients are parameters below.
pub record MetricsServerProvider : Type 0 where
  pub max_samples : ℤ
  pub sample_interval : ℤ

abbrev second : ℤ
second = pos (10 ^ 9)

unfoldable pub new_metrics_server_provider_with_config : ℤ → ℤ → MetricsServerProvider
new_metrics_server_provider_with_config max_samples sample_interval = record {
  max_samples = if ltb_ℤ max_samples (pos 1) then pos 1 else max_samples;
  sample_interval = if ltb_ℤ sample_interval second then second else sample_interval;
}

-- As many samples as fit the window, at least one and at most the maximum.
unfoldable pub num_samples : MetricsServerProvider → ℤ → ℤ
num_samples m window =
    let fitting = quot window m.sample_interval in
    let some_ = if ltb_ℤ fitting (pos 1) then pos 1 else fitting in
    if ltb_ℤ m.max_samples some_ then m.max_samples else some_

-- What a sample lacks, or how the collection ends early.
pub data MetricsError : Type 0 where
  get_failed : ApiError → MetricsError
  container_not_found : String → MetricsError
  cancelled index_out_of_range : MetricsError
  health_check_failed : ApiError → MetricsError

module _ (P : Platform) where
  open P use {
    Quantity, milli_value, value, new_milli_quantity, new_quantity, of_int64, to_int64, decimal,
    add, sub, mul, div, sort,
  }

  -- `metricsv1beta1.ContainerMetrics`
  pub record ContainerUsage : Type 0 where
    pub name : String
    pub cpu : Quantity
    pub memory : Quantity

  -- Indexing a slice by an int; out of range it panics.
  abbrev at : List ℤ → ℤ → Option ℤ
  at l (pos n) = get_elem? l n
  at l (negsuc n) = none

  interpolate : ℤ → ℤ → ℤ → ℤ → ℤ
  interpolate p last lower upper =
      let rank = mul (div (of_int64 p) (decimal 100 0)) (of_int64 last) in
      let fraction = sub rank (of_int64 (to_int64 rank)) in
      to_int64 (add (of_int64 lower) (mul fraction (sub (of_int64 upper) (of_int64 lower))))

  unfoldable pub percentile : List ℤ → ℕ → Option ℤ
  unfolding interpolate
  percentile [] p = some (pos 0)
  percentile (x ∷ []) p = some x
  percentile (x ∷ (y ∷ rest)) p =
      let sorted = x ∷ (y ∷ rest) in
      let last = pos (suc (length rest)) in
      let lower_index = to_int64 (mul (div (of_int64 (pos p)) (decimal 100 0)) (of_int64 last)) in
      if ltb_ℤ last (lower_index +ℤ pos 1) then at sorted last else elim (at sorted lower_index) [
        | none ↦ none
        | some lower ↦ elim (at sorted (lower_index +ℤ pos 1)) [
          | none ↦ none
          | some upper ↦ some (interpolate (pos p) last lower upper)
        ]
      ]

  abbrev quantity_of : Bool → ℤ → Quantity
  quantity_of true n = new_milli_quantity n decimal_si
  quantity_of false n = new_quantity n binary_si

  abbrev or_panic : Option ℤ → Result MetricsError ℤ
  or_panic none = err index_out_of_range
  or_panic (some n) = ok n

  -- `resource.Quantity{}`
  abbrev empty_quantity : Quantity
  empty_quantity = new_quantity (pos 0) no_format

  unfoldable pub compute_percentiles : List ℤ → Bool → Result MetricsError (ResourceMetrics P)
  unfolding percentile
  compute_percentiles [] is_millicore =
      ok (record { p50 = empty_quantity; p90 = empty_quantity; p99 = empty_quantity; samples = 0 })
  compute_percentiles (x ∷ xs) is_millicore = do
    let sorted = sort ℤ ltb_ℤ (x ∷ xs)
    p50 ← or_panic (percentile sorted 50)
    p90 ← or_panic (percentile sorted 90)
    p99 ← or_panic (percentile sorted 99)
    ok (record {
      p50 = quantity_of is_millicore p50;
      p90 = quantity_of is_millicore p90;
      p99 = quantity_of is_millicore p99;
      samples = length (x ∷ xs);
    })

-- `PodMetricses(...).Get` for the pod, and the wait for the next sample, false where the context is
-- done first.
pub record MetricsServer (P : Platform) (W : Type 0) : Type 0 where
  pub get : W → Result ApiError (List (ContainerUsage P)) × W
  pub wait : W → Bool × W

abbrev as_count : ℤ → ℕ
as_count (pos n) = n
as_count (negsuc n) = 0

module _ {P : Platform} where
  find_container : String → List (ContainerUsage P) → Option (ContainerUsage P)
  find_container name [] = none
  find_container name (c ∷ cs) =
      let rest = find_container name cs in if str_eq c.name name then some c else rest

  abbrev sample_of :
      String → Result ApiError (List (ContainerUsage P)) → Result MetricsError (ContainerUsage P)
  sample_of name (err e) = err (get_failed e)
  sample_of name (ok cs) = elim (find_container name cs) [
    | none ↦ err (container_not_found name)
    | some c ↦ ok c
  ]

  abbrev metrics_of :
      Result MetricsError (List ℤ × List ℤ) → Result MetricsError (ContainerMetrics P)
  metrics_of (err e) = err e
  metrics_of (ok (cpu, memory)) = do
    cpu_metrics ← compute_percentiles P cpu true
    memory_metrics ← compute_percentiles P memory false
    ok (record { cpu = cpu_metrics; memory = memory_metrics })

module _ {P : Platform} {W : Type 0} (server : MetricsServer P W) where
  open P use {milli_value, value}

  -- The pause after a sample, which the last one does not have.
  pause : ℕ → W → Bool × W
  pause zero w = (true, w)
  pause (suc n) w = server.wait w

  -- A sample is appended to both lists before the pause.
  with_sample :
      Result MetricsError (ContainerUsage P)
      → ℕ
      → (List ℤ → List ℤ → W → Result MetricsError (List ℤ × List ℤ) × W)
      → List ℤ
      → List ℤ
      → W
      → Result MetricsError (List ℤ × List ℤ) × W
  unfolding pause
  with_sample (err e) n more cpu memory w = (err e, w)
  with_sample (ok c) n more cpu memory w =
      let paused = pause n w in
      let rest =
        more (cpu ++ (milli_value c.cpu ∷ [])) (memory ++ (value c.memory ∷ [])) (paused.1) in
      if paused.0 then rest else (err cancelled, paused.1)

  -- The loop; the number is that of the samples left.
  collect : String → ℕ → List ℤ → List ℤ → W → Result MetricsError (List ℤ × List ℤ) × W
  unfolding find_container with_sample
  collect name zero cpu memory w = (ok (cpu, memory), w)
  collect name (suc n) cpu memory w =
      let answer = server.get w in
      with_sample (sample_of name (answer.0)) n (collect name n) cpu memory (answer.1)

  unfoldable pub get_container_metrics :
      MetricsServerProvider → String → ℤ → W → Result MetricsError (ContainerMetrics P) × W
  unfolding collect
  get_container_metrics m container_name window w =
      let collected = collect container_name (as_count (num_samples m window)) [] [] w in
      (metrics_of (collected.0), collected.1)

-- `NodeMetricses().List` answers an error, if any.
unfoldable pub health_check : {W : Type 0} → (W → Option ApiError × W) → W → Option MetricsError × W
health_check list_node_metrics w =
    let answer = list_node_metrics w in (map_option health_check_failed (answer.0), answer.1)
