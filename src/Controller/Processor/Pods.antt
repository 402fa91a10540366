-- ===== src/Controller/Processor/Pods.antt =====
-- `getContainers`, `getFirstPodName`, `convertToApplicationWorkload` and `getWorkloadObject`.
pub mod Requests
use Prim.Native.String.{◌++◌}
use optipod.Prelude.{
  String, str_eq, Bool, Option, none, some, List, [], ◌∷◌, Result, ok, err, if◌then◌else◌,
}
use optipod.Platform.{Platform, LabelSelector}
use optipod.Cluster.{Object, deployment, stateful_set, daemon_set, unsupported, Workload}
use optipod.Application.Values.{Fields, AppWorkload}
use optipod.Controller.Processor.{
  PodError, unsupported_workload_type, selector_failed, no_pods_found, list_pods_failed,
  ProcessError, containers_failed, conversion_failed, WorkloadClient,
}

-- The names of the containers, which is all that is used of them.
unfoldable pub get_containers : Workload → Result ProcessError (List String)
get_containers w = elim w.object [
  | deployment o ↦ ok o.container_names
  | stateful_set o ↦ ok o.container_names
  | daemon_set o ↦ ok o.container_names
  | unsupported o ↦ err containers_failed
]

-- The type switch of `getFirstPodName`, which leaves stateful sets to the kind.
abbrev pod_selector_of : Object → Result PodError (Option LabelSelector)
pod_selector_of (deployment o) = ok o.pod_selector
pod_selector_of (daemon_set o) = ok o.pod_selector
pod_selector_of _ = err unsupported_workload_type

abbrev first_pod : List String → Result PodError String
first_pod [] = err no_pods_found
first_pod (p ∷ ps) = ok p

-- `LabelSelectorAsSelector` of nil selects nothing.
abbrev as_selector : (P : Platform) → Option LabelSelector → Option (List (String × String) → Bool)
as_selector P none = some (λ labels. Bool.false)
as_selector P (some s) = P.selector s

module _ (P : Platform) {W : Type 0} where
  list_first_pod : WorkloadClient W → Workload → W → Result PodError String × W
  list_first_pod client w v = elim (pod_selector_of w.object) [
    | err e ↦ (err e, v)
    | ok s ↦ elim (as_selector P s) [
      | none ↦ (err selector_failed, v)
      | some selects ↦
          let answer = client.list_pods w.namespace selects v in
          elim (answer.0) [
            | err e ↦ (err (list_pods_failed e), answer.1)
            | ok pods ↦ (first_pod pods, answer.1)
          ]
    ]
  ]

  unfoldable pub get_first_pod_name :
      Option (WorkloadClient W) → Workload → W → Result PodError String × W
  unfolding list_first_pod
  get_first_pod_name client w v =
      if str_eq w.kind "StatefulSet"
      then (ok (w.name ++ "-0"), v)
      else elim client [ none ↦ (ok (w.name ++ "-test-pod"), v) | some c ↦ list_first_pod c w v ]

unfoldable pub convert_to_application_workload :
    (Object → Option Fields) → Workload → Result ProcessError AppWorkload
convert_to_application_workload to_unstructured w = elim (to_unstructured w.object) [
  | none ↦ err conversion_failed
  | some m ↦ ok (record { kind = w.kind; namespace = w.namespace; name = w.name; object = m })
]
