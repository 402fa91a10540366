-- ===== src/Controller/Processor/Annotations/Requests.antt =====
-- The writing of the annotations applies nothing.
use optipod.Prelude.{
  ◌≡◌, refl, ◌∙◌, ap, ℕ, zero, suc, Bool, true, false, some, List, Result, ok, err, Bool-cases, inl,
  inr,
}
use optipod.Platform.{Platform}
use optipod.Cluster.{
  ApiError, AppsObject, Object, not_found, conflict, forbidden, invalid, other_error,
}
use optipod.Api.Types.{OptimizationPolicy, ContainerRecommendation}
use optipod.Controller.Processor.{AnnotationError, WorkloadClient, Backoff, WorkloadProcessor}
use optipod.Controller.Processor.Requests.{CountsPatches}
use optipod.Controller.Processor.Annotations.{
  get_workload_object, is_recent, after_update, after_get, attempt, pause,
  add_recommendation_annotations,
}
use optipod.Controller.Processor.Annotations.Attempts.{BackoffLaws}

-- What the condition and the pauses keep, the backoff keeps.
run-keeps :
    {b : Backoff} (laws : BackoffLaws b) {S E : Type 0} (m : S → ℕ) (between : S → S) (n : ℕ)
    (condition : S → Result E Bool × S)
    → ((s : S) → m (between s) ≡ m s)
    → ((s : S) → m (condition s).1 ≡ m s)
    → (s : S) → m (b.run S E between (suc n) condition s).1 ≡ m s
run-keeps {b} laws {S} {E} m between n condition h k s = ends n s ((condition s).0) refl
  where
    ends :
        (n : ℕ) (s : S) (r : Result E Bool)
        → (condition s).0 ≡ r
        → m (b.run S E between (suc n) condition s).1 ≡ m s
    ends n s (ok true) e = ap (λ r. m (r.1)) (laws.run-done between n condition s e) ∙ k s
    ends n s (err x) e = ap (λ r. m (r.1)) (laws.run-failed between n condition s x e) ∙ k s
    ends zero s (ok false) e = ap (λ r. m (r.1)) (laws.run-last between condition s e) ∙ k s
    ends (suc n) s (ok false) e =
        ap (λ r. m (r.1)) (laws.run-again between n condition s e)
        ∙ ends n (between (condition s).1) _ refl
        ∙ h (condition s).1
        ∙ k s

module _ {P : Platform} {E W : Type 0} (wp : WorkloadProcessor P E W) (sent : W → ℕ)
    (counts : CountsPatches wp sent) (client : WorkloadClient W) (present : wp.client ≡ some client)
    (p : OptimizationPolicy P) (recs : List (ContainerRecommendation P)) where
  update-keeps :
      (obj : Object) (r : Result ApiError AppsObject) (v : W)
      → sent ((after_update obj r v).1).1 ≡ sent v
  unfolding after_update
  update-keeps obj (ok stored) v = refl
  update-keeps obj (err conflict) v = refl
  update-keeps obj (err not_found) v = refl
  update-keeps obj (err forbidden) v = refl
  update-keeps obj (err invalid) v = refl
  update-keeps obj (err other_error) v = refl

  get-keeps :
      (obj : Object) (r : Result ApiError AppsObject) (v : W)
      → sent ((after_get client wp.clock p recs obj r v).1).1 ≡ sent v
  unfolding after_get
  get-keeps obj (err e) v = refl
  get-keeps obj (ok latest) v = elim (Bool-cases (is_recent wp.clock v latest.annotations)) [
    | inl yes_ ↦ rw (yes_, after_get) refl
    | inr no_ ↦ rw (no_, after_get) (update-keeps _ _ _ ∙ counts.update_keeps client present _ v)
  ]

  attempt-keeps : (s : Object × W) → sent ((attempt client wp.clock p recs s).1).1 ≡ sent (s.1)
  unfolding attempt
  attempt-keeps (obj, v) = tried (get_workload_object obj) refl
    where
      tried :
          (r : Result AnnotationError Object)
          → get_workload_object obj ≡ r
          → sent ((attempt client wp.clock p recs (obj, v)).1).1 ≡ sent v
      tried (err e) h = rw (h, attempt) refl
      tried (ok o) h = rw (h, attempt) (get-keeps o _ _ ∙ counts.get_keeps client present o v)

  pub add_recommendation_annotations-keeps :
      BackoffLaws wp.backoff
      → (s : Object × W)
      → sent ((add_recommendation_annotations wp.clock wp.backoff (some client) p recs s).1).1
        ≡ sent (s.1)
  unfolding add_recommendation_annotations
  add_recommendation_annotations-keeps laws s =
      run-keeps laws (λ (s : Object × W). sent (s.1)) (pause wp.clock) 4
        (attempt client wp.clock p recs) (λ (obj, v). counts.sleep_keeps v) attempt-keeps s
