-- ===== src/Metrics/Prometheus.antt =====
-- internal/metrics/prometheus.go: the provider that asks a Prometheus server for both usages.
pub mod Windows
pub mod Sampled
use optipod.Prelude.{
  map_option, Option, ◌≡◌, ℕ, ◌*◌, ◌^◌, ℤ, pos, negsuc, ◌-ℤ◌, ◌+ℤ◌, ◌*ℤ◌, ltb_ℤ, int64, String,
  Bool, true, false, List, [], ◌∷◌, map, Result, ok, err, ◌>>=◌, map_err, if◌then◌else◌,
}
use optipod.Platform.{Platform}
use optipod.Api.Types.{Duration, Time}
use optipod.Metrics.{ResourceMetrics, ContainerMetrics}
use optipod.Metrics.Server.{MetricsError, compute_percentiles, quot}

pub data PromUnit : Type 0 where
  in_seconds in_minutes in_hours in_days : PromUnit

-- The text of a duration in a query, as the number and the unit that it prints.
pub record PromDuration : Type 0 where
  pub number : ℤ
  pub unit : PromUnit

-- Both queries name a namespace, a pod and a container; the CPU's is a rate over a window.
pub data PromQuery : Type 0 where
  cpu_query : String → String → String → PromDuration → PromQuery
  memory_query : String → String → String → PromQuery

-- `model.Value`: the samples of each series of a matrix, or a value of another type.
pub data PromValue (P : Platform) : Type 0 where
  matrix : List (List P.Float) → PromValue P
  other_value : PromValue P

-- The client of Prometheus, with its errors, and the clock; `Buildinfo` answers an error, if any. The times are those of `v1.Range`: the
-- start, the end and the step.
pub record PrometheusApi (P : Platform) (E W : Type 0) : Type 0 where
  pub query_range : PromQuery → Time → Time → Duration → W → Result E (PromValue P) × W
  pub now : W → Time
  pub buildinfo : W → Option E × W

pub data QueryError (E : Type 0) : Type 0 where
  query_failed : E → QueryError E
  unexpected_type no_data no_samples : QueryError E

pub data PrometheusError (E : Type 0) : Type 0 where
  cpu_query_failed memory_query_failed : QueryError E → PrometheusError E
  percentiles_failed : MetricsError → PrometheusError E
  health_check_failed : E → PrometheusError E

abbrev second : ℤ
second = pos (10 ^ 9)

-- `int(d.Seconds())`: whole seconds and the fraction of one, added as floats.
unfoldable pub whole_seconds : Platform → Duration → ℤ
whole_seconds P d =
    let sec = quot d second in
    let nsec = d -ℤ sec *ℤ second in
    P.to_int64 (P.add (P.of_int64 sec) (P.div (P.of_int64 nsec) (P.decimal (10 ^ 9) 0)))

-- `formatDuration`, from the number of seconds on.
unfoldable pub format_seconds : ℤ → PromDuration
format_seconds seconds =
    let minutes = quot seconds (pos 60) in
    let hours = quot minutes (pos 60) in
    if ltb_ℤ seconds (pos 60)
    then record { number = seconds; unit = in_seconds }
    else if ltb_ℤ minutes (pos 60)
    then record { number = minutes; unit = in_minutes }
    else if ltb_ℤ hours (pos 24)
    then record { number = hours; unit = in_hours }
    else record { number = quot hours (pos 24); unit = in_days }

abbrev pub format_duration : Platform → Duration → PromDuration
format_duration P d = format_seconds (whole_seconds P d)

-- Thirty seconds.
abbrev step : Duration
step = pos (30 * 10 ^ 9)

-- Cores become millicores.
abbrev pub millicores : (P : Platform) → P.Float → ℤ
millicores P v = P.to_int64 (P.mul v (P.decimal 1000 0))

module _ {P : Platform} where
  -- The samples of the first series.
  abbrev pub samples_of :
      {E : Type 0} → Result E (PromValue P) → Result (QueryError E) (List P.Float)
  samples_of (err e) = err (query_failed e)
  samples_of (ok other_value) = err unexpected_type
  samples_of (ok (matrix [])) = err no_data
  samples_of (ok (matrix ([] ∷ _))) = err no_samples
  samples_of (ok (matrix ((x ∷ xs) ∷ _))) = ok (x ∷ xs)

  abbrev pub percentiles :
      {E : Type 0} → List P.Float → List P.Float → Result (PrometheusError E) (ContainerMetrics P)
  percentiles cpu memory = do
    cpu_metrics ← map_err percentiles_failed (compute_percentiles P (map (millicores P) cpu) true)
    memory_metrics ←
        map_err percentiles_failed (compute_percentiles P (map P.to_int64 memory) false)
    ok (record { cpu = cpu_metrics; memory = memory_metrics })

  after_memory :
      {E : Type 0}
      → List P.Float
      → Result (QueryError E) (List P.Float)
      → Result (PrometheusError E) (ContainerMetrics P)
  after_memory cpu (err e) = err (memory_query_failed e)
  after_memory cpu (ok memory) = percentiles cpu memory

module _ {P : Platform} {E W : Type 0} (api : PrometheusApi P E W) where
  abbrev pub query_range : PromQuery → Duration → W → Result (QueryError E) (List P.Float) × W
  query_range query window v =
      let end = api.now v in
      let answer = api.query_range query (end -ℤ window) end step v in
      (samples_of (answer.0), answer.1)

  unfoldable pub health_check : W → Option (PrometheusError E) × W
  health_check v =
      let answer = api.buildinfo v in (map_option health_check_failed (answer.0), answer.1)

  -- The memory is asked for only after the CPU was answered.
  after_cpu :
      String
      → String
      → String
      → Duration
      → Result (QueryError E) (List P.Float)
      → W
      → Result (PrometheusError E) (ContainerMetrics P) × W
  unfolding after_memory
  after_cpu namespace pod_name container_name window (err e) v = (err (cpu_query_failed e), v)
  after_cpu namespace pod_name container_name window (ok cpu) v =
      let answer = query_range (memory_query namespace pod_name container_name) window v in
      (after_memory cpu (answer.0), answer.1)

  unfoldable pub get_container_metrics :
      String → String → String → Duration → W → Result (PrometheusError E) (ContainerMetrics P) × W
  unfolding after_cpu
  get_container_metrics namespace pod_name container_name window v =
      let query = cpu_query namespace pod_name container_name (format_duration P window) in
      let answer = query_range query window v in
      after_cpu namespace pod_name container_name window (answer.0) (answer.1)
