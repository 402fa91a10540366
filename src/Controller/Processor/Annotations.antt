-- ===== src/Controller/Processor/Annotations.antt =====
-- `addRecommendationAnnotations`: what is written on the workload, and the attempts to write it.
pub mod Written
pub mod Attempts
pub mod Requests
use Prim.Native.String.{◌++◌}
use optipod.Prelude.{
  ℕ, ◌*◌, ◌^◌, ℤ, pos, ◌-ℤ◌, ltb_ℤ, String, Bool, true, false, Option, none, some, List, [], ◌∷◌,
  StrMap, lookup, insert, Result, ok, err, if◌then◌else◌,
}
use optipod.Platform.{Platform}
use optipod.Cluster.{
  ApiError, not_found, conflict, AppsObject, Object, deployment, stateful_set, daemon_set,
  unsupported, Workload,
}
use optipod.Api.Types.{OptimizationPolicy, ContainerRecommendation, Time}
use optipod.Application.Limits.{calculate_limits_for_annotation}
use optipod.Controller.Processor.{
  AnnotationError, client_is_nil, object_unsupported, update_failed, BackoffError, condition_failed,
  WorkloadClient, Clock, Backoff,
}

abbrev pub annotation_managed : String
annotation_managed = "optipod.io/managed"

abbrev pub annotation_policy : String
annotation_policy = "optipod.io/policy"

abbrev pub annotation_last_recommendation : String
annotation_last_recommendation = "optipod.io/last-recommendation"

abbrev pub annotation_recommendation_prefix : String
annotation_recommendation_prefix = "optipod.io/recommendation"

-- `fmt.Sprintf("%s.%s.cpu-request", ...)` and its like.
abbrev pub annotation_key : String → String → String
annotation_key container suffix =
    annotation_recommendation_prefix ++ "." ++ container ++ "." ++ suffix

abbrev pub add_value : String → String → Option String → StrMap String → StrMap String
add_value container suffix none m = m
add_value container suffix (some v) m = insert (annotation_key container suffix) v m

abbrev pub quantity_text : (P : Platform) → Option P.Quantity → Option String
quantity_text P none = none
quantity_text P (some q) = some (P.to_string q)

module _ {P : Platform} where
  open P use {Quantity, to_string}

  -- The first loop, over the requests.
  unfoldable pub add_requests : List (ContainerRecommendation P) → StrMap String → StrMap String
  add_requests [] m = m
  add_requests (r ∷ rest) m = add_requests rest (
      add_value r.container "memory-request" (quantity_text P r.memory)
        (add_value r.container "cpu-request" (quantity_text P r.cpu) m))

  -- Limits are written where both quantities are there.
  add_limits_of :
      OptimizationPolicy P
      → String
      → Option Quantity
      → Option Quantity
      → StrMap String
      → StrMap String
  add_limits_of p container none memory m = m
  add_limits_of p container (some cpu) none m = m
  add_limits_of p container (some cpu) (some memory) m =
      let limits = calculate_limits_for_annotation cpu memory p in
      add_value container "memory-limit" (some (to_string (limits.1)))
        (add_value container "cpu-limit" (some (to_string (limits.0))) m)

  -- The second loop, over the limits.
  unfoldable pub add_limits :
      OptimizationPolicy P → List (ContainerRecommendation P) → StrMap String → StrMap String
  unfolding add_limits_of
  add_limits p [] m = m
  add_limits p (r ∷ rest) m = add_limits p rest (add_limits_of p r.container r.cpu r.memory m)

  -- All that is written, over what is there.
  unfoldable pub annotate :
      OptimizationPolicy P
      → List (ContainerRecommendation P)
      → String
      → StrMap String
      → StrMap String
  annotate p recs now m =
      let managed =
        insert annotation_last_recommendation now
          (insert annotation_policy p.name (insert annotation_managed "true" m)) in
      let requests = add_requests recs managed in
      if p.spec.update_strategy.update_requests_only then requests else add_limits p recs requests

-- The object behind the pointer, with its type kept; the annotations of an unsupported one are not
-- reached.
abbrev pub contents : Object → AppsObject
contents (deployment o) = o
contents (stateful_set o) = o
contents (daemon_set o) = o
contents (unsupported o) = o

abbrev pub with_contents : Object → AppsObject → Object
with_contents (deployment _) o = deployment o
with_contents (stateful_set _) o = stateful_set o
with_contents (daemon_set _) o = daemon_set o
with_contents (unsupported _) o = unsupported o

-- `getWorkloadObject`
unfoldable pub get_workload_object : Object → Result AnnotationError Object
get_workload_object (unsupported o) = err object_unsupported
get_workload_object o = ok o

-- Thirty seconds, in nanoseconds.
abbrev pub recent : ℤ
recent = pos (30 * 10 ^ 9)

-- After the write: a conflict and a missing workload are tried again.
after_update :
    {W : Type 0}
    → Object
    → Result ApiError AppsObject
    → W
    → Result AnnotationError Bool × (Object × W)
after_update obj (ok stored) w = (ok true, (with_contents obj stored, w))
after_update obj (err conflict) w = (ok false, (obj, w))
after_update obj (err not_found) w = (ok false, (obj, w))
after_update obj (err e) w = (err (update_failed e), (obj, w))

-- An earlier recommendation, of less than thirty seconds ago.
abbrev pub is_recent : {W : Type 0} → Clock W → W → StrMap String → Bool
is_recent clock w annotations = elim (lookup annotation_last_recommendation annotations) [
  | none ↦ false
  | some text ↦ elim (clock.parse text) [ none ↦ false | some t ↦ ltb_ℤ (clock.now w -ℤ t) recent ]
]

module _ {W : Type 0} (client : WorkloadClient W) (clock : Clock W) where
  -- After the fetch: every error is tried again.
  after_get :
      {P : Platform}
      → OptimizationPolicy P
      → List (ContainerRecommendation P)
      → Object
      → Result ApiError AppsObject
      → W
      → Result AnnotationError Bool × (Object × W)
  unfolding after_update
  after_get p recs obj (err e) w = (ok false, (obj, w))
  after_get p recs obj (ok latest) w =
      let annotations = annotate p recs (clock.format (clock.now w)) latest.annotations in
      let changed = with_contents obj (record latest { annotations = annotations }) in
      let answer = client.update changed w in
      if is_recent clock w latest.annotations
      then (ok true, (with_contents obj latest, w))
      else after_update changed (answer.0) (answer.1)

  -- The condition function: one attempt. The object is that of the workload, which the fetch and the
  -- write fill in.
  unfoldable pub attempt :
      {P : Platform}
      → OptimizationPolicy P
      → List (ContainerRecommendation P)
      → Object × W
      → Result AnnotationError Bool × (Object × W)
  unfolding after_get
  attempt p recs (obj, w) = elim (get_workload_object obj) [
    | err e ↦ (err e, (obj, w))
    | ok o ↦ let answer = client.get o w in after_get p recs o (answer.0) (answer.1)
  ]

abbrev pub max_retries : ℕ
max_retries = 5

abbrev pub pause : {W : Type 0} → Clock W → Object × W → Object × W
pause clock (obj, w) = (obj, clock.sleep w)

module _ {P : Platform} {W : Type 0} (clock : Clock W) (backoff : Backoff) where
  unfoldable pub add_recommendation_annotations :
      Option (WorkloadClient W)
      → OptimizationPolicy P
      → List (ContainerRecommendation P)
      → Object × W
      → Option (BackoffError AnnotationError) × (Object × W)
  add_recommendation_annotations none p recs s = (some (condition_failed client_is_nil), s)
  add_recommendation_annotations (some client) p recs s =
      backoff.run (Object × W) AnnotationError (pause clock) max_retries
        (attempt client clock p recs) s
