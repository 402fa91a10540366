-- ===== src/Controller/Processor/Pods/Requests.antt =====
-- The search for a pod applies nothing.
use Prim.Native.String.{◌++◌}
use optipod.Prelude.{
  ◌≡◌, refl, ℕ, String, str_eq, Bool, Option, none, some, List, Result, ok, err, Bool-cases, inl,
  inr,
}
use optipod.Platform.{Platform, LabelSelector}
use optipod.Cluster.{ApiError, Workload}
use optipod.Controller.Processor.{PodError, WorkloadClient, WorkloadProcessor}
use optipod.Controller.Processor.Requests.{CountsPatches}
use optipod.Controller.Processor.Pods.{
  pod_selector_of, as_selector, list_first_pod, get_first_pod_name,
}

module _ {P : Platform} {E W : Type 0} (wp : WorkloadProcessor P E W) (sent : W → ℕ)
    (counts : CountsPatches wp sent) (w : Workload) (v : W) where
  list_first_pod-keeps :
      (c : WorkloadClient W) → wp.client ≡ some c → sent (list_first_pod P c w v).1 ≡ sent v
  unfolding list_first_pod
  list_first_pod-keeps c present = selected (pod_selector_of w.object) refl
    where
      listed :
          (selects : List (String × String) → Bool) (r : Result ApiError (List String))
          → (c.list_pods w.namespace selects v).0 ≡ r
          → (s : Option LabelSelector) → pod_selector_of w.object ≡ ok s
          → as_selector P s ≡ some selects
          → sent (list_first_pod P c w v).1 ≡ sent v
      listed selects (err e) h s q k =
          rw (q, k, h, list_first_pod) (counts.list_pods_keeps c present w.namespace selects v)
      listed selects (ok pods) h s q k =
          rw (q, k, h, list_first_pod) (counts.list_pods_keeps c present w.namespace selects v)

      compiled :
          (s : Option LabelSelector) (o : Option (List (String × String) → Bool))
          → pod_selector_of w.object ≡ ok s
          → as_selector P s ≡ o
          → sent (list_first_pod P c w v).1 ≡ sent v
      compiled s none q k = rw (q, k, list_first_pod) refl
      compiled s (some selects) q k = listed selects _ refl s q k

      selected :
          (r : Result PodError (Option LabelSelector))
          → pod_selector_of w.object ≡ r
          → sent (list_first_pod P c w v).1 ≡ sent v
      selected (err e) q = rw (q, list_first_pod) refl
      selected (ok s) q = compiled s _ q refl

  named :
      (o : Option (WorkloadClient W)) → wp.client ≡ o → sent (get_first_pod_name P o w v).1 ≡ sent v
  unfolding get_first_pod_name
  named o present = elim (Bool-cases (str_eq w.kind "StatefulSet")) [
    | inl yes_ ↦ rw (yes_, get_first_pod_name) refl
    | inr no_ ↦ rw (no_, get_first_pod_name) (asked o present)
  ]
    where
      asked :
          (o : Option (WorkloadClient W))
          → wp.client ≡ o
          → sent
              (elim o as (λ x. Result PodError String × W) [
                | none ↦ (ok (w.name ++ "-test-pod"), v)
                | some c ↦ list_first_pod P c w v
              ]).1
            ≡ sent v
      asked none present = refl
      asked (some c) present = list_first_pod-keeps c present

  pub get_first_pod_name-keeps : sent (get_first_pod_name P wp.client w v).1 ≡ sent v
  get_first_pod_name-keeps = named wp.client refl
