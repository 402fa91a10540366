-- ===== src/Controller/Processor/Annotations/Attempts.antt =====
-- How the attempts to write the annotations end.
use optipod.Prelude.{
  ◌≡◌, refl, ◌∙◌, ap, ℕ, zero, suc, Bool, true, false, none, some, List, Result, ok, err,
}
use optipod.Platform.{Platform}
use optipod.Cluster.{ApiError, AppsObject, Object, unsupported}
use optipod.Api.Types.{OptimizationPolicy, ContainerRecommendation}
use optipod.Controller.Processor.{
  object_unsupported, timed_out, condition_failed, WorkloadClient, Clock, Backoff,
}
use optipod.Controller.Processor.Annotations.{
  get_workload_object, after_get, attempt, pause, add_recommendation_annotations,
}

-- The documented behaviour of `wait.ExponentialBackoff`, by how the condition answers: done, an error,
-- or not yet, which is the end of the last step and else a pause and the next step.
pub record BackoffLaws (b : Backoff) : Type 1 where
  pub run-done :
      {S E : Type 0} (between : S → S) (n : ℕ) (condition : S → Result E Bool × S) (s : S)
      → (condition s).0 ≡ ok true
      → b.run S E between (suc n) condition s ≡ (none, (condition s).1)
  pub run-failed :
      {S E : Type 0} (between : S → S) (n : ℕ) (condition : S → Result E Bool × S) (s : S) (e : E)
      → (condition s).0 ≡ err e
      → b.run S E between (suc n) condition s ≡ (some (condition_failed e), (condition s).1)
  pub run-last :
      {S E : Type 0} (between : S → S) (condition : S → Result E Bool × S) (s : S)
      → (condition s).0 ≡ ok false
      → b.run S E between 1 condition s ≡ (some timed_out, (condition s).1)
  pub run-again :
      {S E : Type 0} (between : S → S) (n : ℕ) (condition : S → Result E Bool × S) (s : S)
      → (condition s).0 ≡ ok false
      → b.run S E between (suc (suc n)) condition s
        ≡ b.run S E between (suc n) condition (between (condition s).1)

-- A condition that is never met, on the states of `I`, which it and the pauses keep.
run-timed_out :
    {b : Backoff} (laws : BackoffLaws b) {S E : Type 0} (I : S → Type 0) (between : S → S) (n : ℕ)
    (condition : S → Result E Bool × S)
    → ((s : S) → I s → ((condition s).0 ≡ ok false) × I (between (condition s).1))
    → (s : S) → I s
    → (b.run S E between (suc n) condition s).0 ≡ some timed_out
run-timed_out laws I between zero condition h s i =
    ap (λ r. r.0) (laws.run-last between condition s (h s i).0)
run-timed_out laws I between (suc n) condition h s i =
    ap (λ r. r.0) (laws.run-again between n condition s (h s i).0)
    ∙ run-timed_out laws I between n condition h (between (condition s).1) (h s i).1

abbrev pub IsErr : {E A : Type 0} → Result E A → Type 0
IsErr (err e) = Unit
IsErr (ok a) = ⊥

abbrev pub IsSupported : Object → Type 0
IsSupported obj = get_workload_object obj ≡ ok obj

module _ {P : Platform} {W : Type 0} (client : WorkloadClient W) (clock : Clock W)
    (p : OptimizationPolicy P) (recs : List (ContainerRecommendation P)) where
  after_get_again :
      (obj : Object) (r : Result ApiError AppsObject) (w : W)
      → IsErr r
      → after_get client clock p recs obj r w ≡ (ok false, (obj, w))
  unfolding after_get
  after_get_again obj (err e) w h = refl
  after_get_again obj (ok _) w h = elim h [ ]

  attempt_again :
      (obj : Object) (w : W)
      → IsSupported obj
      → IsErr (client.get obj w).0
      → attempt client clock p recs (obj, w) ≡ (ok false, (obj, (client.get obj w).1))
  unfolding attempt
  attempt_again obj w h f = rw (h, attempt) (after_get_again obj (client.get obj w).0 _ f)

  abbrev Supports : Object × W → Type 0
  Supports (obj, w) = IsSupported obj

  step_again :
      ((o : Object) (w : W) → IsErr (client.get o w).0)
      → (s : Object × W) → Supports s
      → ((attempt client clock p recs s).0 ≡ ok false)
        × Supports (pause clock (attempt client clock p recs s).1)
  step_again fails (obj, w) h = rw (attempt_again obj w h (fails obj w)) (refl, h)

  -- Where the client answers every fetch with an error, be it that the workload is gone, the writing
  -- of the annotations of an object of a supported type ends with the timeout of the backoff, and the
  -- error of the client is not returned. The backoff behaves as documented.
  pub add_recommendation_annotations_times_out :
      {b : Backoff}
      → BackoffLaws b
      → ((o : Object) (w : W) → IsErr (client.get o w).0)
      → (obj : Object) (w : W) → IsSupported obj
      → (add_recommendation_annotations clock b (some client) p recs (obj, w)).0 ≡ some timed_out
  unfolding add_recommendation_annotations
  add_recommendation_annotations_times_out laws fails obj w h =
      run-timed_out laws Supports (pause clock) 4 (attempt client clock p recs) (step_again fails)
        (obj, w) h

  -- On an object of another type there is no request and no retry: the error is that of the type.
  pub add_recommendation_annotations_unsupported :
      {b : Backoff}
      → BackoffLaws b
      → (o : AppsObject) (w : W)
      → add_recommendation_annotations clock b (some client) p recs (unsupported o, w)
        ≡ (some (condition_failed object_unsupported), (unsupported o, w))
  unfolding add_recommendation_annotations attempt get_workload_object
  add_recommendation_annotations_unsupported laws o w =
      laws.run-failed (pause clock) 4 (attempt client clock p recs) (unsupported o, w)
        object_unsupported refl
