-- ===== src/Lib.antt =====
-- A verification library for OptiPod, a Kubernetes operator that sizes the CPU and memory of
-- workloads by policies.
--
-- Parts. A reconciler (internal/controller/optimizationpolicy_controller.go) takes a policy,
-- validates it (api/v1alpha1/optimizationpolicy_types.go), discovers the workloads it selects
-- (internal/discovery/discovery.go), asks for each one which policy is the best
-- (internal/policy/selector.go), computes a recommendation from usage percentiles
-- (internal/recommendation/engine.go), and applies it (internal/application/engine.go). Discovery and
-- metrics can be cached (internal/cache). Status updates go through retry loops. Events and counts of
-- what happens go to internal/observability, and cmd/main.go puts the parts together.
--
-- Files.
--   Prelude: shared names, Boolean tests, lists, integers with int64 wrap-around, strings, results
--     with errors, and maps as association lists without repeated keys.
--   Platform: the parameters of the model, which are code of other packages: resource.Quantity,
--     float64, label selectors and sort.Slice. Platform/Laws states what the theorems assume of
--     them, and Platform/FloatOrder of the rounding of float64; Platform/Demo is a concrete platform
--     that meets these laws, on which the tests run.
--   Observability: Events has the methods of EventRecorder in internal/observability/events.go, each
--     with the message that it builds, Collectors the collectors of internal/observability/metrics.go
--     and their registration.
--   Api: the types of optimizationpolicy_types.go. Api/WorkloadTypes has the sets of workload types
--     (GetActiveWorkloadTypes), Api/Status the counts by type, Api/Validation the whole of
--     validateOptimizationPolicy with its error values, in the order of the source's checks.
--   Metrics: the interface and the result types of internal/metrics/provider.go; Metrics/Server is
--     the metrics-server provider of internal/metrics/metricsserver.go, with its sampling loop and
--     percentiles (Interpolation and Cells have their arithmetic), Metrics/Prometheus the provider of
--     internal/metrics/prometheus.go with its queries and the rounding of the window (Windows), and
--     Metrics/Factory the constructors of internal/metrics/factory.go, with the contract of the
--     interface in Factory/Contract.
--   Recommendation: ComputeRecommendation, selectPercentile, multiplyQuantity, clampToBounds.
--   Cluster: the objects that are read, and the reads of the Kubernetes client as a record of
--     functions. Its answers are fixed during one call.
--   Discovery: DiscoverWorkloads and the functions below it.
--   Selector: SelectBestPolicy, GetMatchingPolicies, policyMatchesWorkload.
--   Cache: both caches of internal/cache, as one map of keys to values with their time. The clock is
--     an argument. A method that holds the mutex is one step; GetOrFetch and GetOrDiscover are a Get
--     and a Set with the calls of others in between, which are an argument. Cache/Containers has the
--     methods of the metrics cache.
--   Application: Values has unstructured objects as trees; Version detectInPlaceResize with
--     strconv.Atoi; Resources getCurrentResources and isUnsafeMemoryDecrease; Decision CanApply;
--     Limits calculateLimits and the processor's calculateLimitsForAnnotation; Patch
--     buildResourcePatch and buildSSAPatch; Apply the two ways to apply, which take on a state of
--     the API server and the metrics.
--   Controller: Retry is the loop of updatePolicyStatus, updatePolicySummary and
--     updateWorkloadTypeCounts, StatusUpdates their changes, Conditions the merge of a condition;
--     Requeue is calculateRequeueInterval, with the random number as an argument. Processor is
--     internal/controller/workload_processor.go: Pods the lookups, Annotations the recommendations
--     that are written on the workload, Collect the loop over the containers, Statuses the results,
--     and Process the whole of ProcessWorkload. Selection is processWorkloadsWithPolicySelection and
--     Reconcile the function Reconcile, each step as a function of what the step before it answered.
--   Operator: internal/config/config.go, and of cmd/main.go the flags (FlagSet), the choice of the
--     provider, the options of the servers and of the manager (Servers), and the wiring of the
--     reconciler (Wiring).
--   Tests: concrete inputs, runs, and each theorem at an input that meets its hypotheses.
--
-- Numbers. int, int32, int64 and time.Duration are integers, wrapped to 64 bits where the source
-- computes. The subtraction of two times is not wrapped, since Go's saturates there.
--
-- Bounds. The retry loops make at most three attempts, as in the source (max_retries), and the
-- backoff of the annotations five; everything else is structural recursion, so there is no fuel.
--
-- State. The cluster, the metrics backends, the clock, the recorders of events and the collectors
-- stand in one state, of a type that the theorems leave open: the calls of other packages are
-- functions that take it on and answer. wait.ExponentialBackoff is such a parameter, with its
-- documented laws as hypotheses (BackoffLaws), and so are the pods' listing, the reads and writes of
-- a workload and the policies' store. The reads of the manager's client come from a cache, so that
-- nothing is assumed of what is read after a write. Discovery and selection read the cluster as it
-- is when they are called. The recorder of events that cmd/main.go sets is taken to be set.
--
-- Not modelled: the parsing of flags, log output, the clients and the manager that cmd/main.go makes,
-- generated deep copies, and the delays between attempts at a status update. Messages of errors
-- and queries are kept as the values that they print, and the text of an error in an event is that of
-- a parameter. A Go map is iterated in the order of its association list.
pub mod Prelude
pub mod Platform
pub mod Api
pub mod Metrics
pub mod Recommendation
pub mod Cluster
pub mod Discovery
pub mod Selector
pub mod Cache
pub mod Application
pub mod Controller
pub mod Observability
pub mod Operator
pub mod Tests
