-- ===== src/Cluster.antt =====
-- What OptiPod reads from the cluster: the objects, with the fields that it uses, and the reads of
-- the Kubernetes client, which is code of another package and so a parameter.
use optipod.Prelude.{StrMap, String, Bool, Option, List, Result}
use optipod.Platform.{Platform, Labels, LabelSelector}
use optipod.Api.Types.{OptimizationPolicy}

-- The classes of errors that `apierrors` tells apart.
pub data ApiError : Type 0 where
  not_found conflict forbidden invalid other_error : ApiError

-- `corev1.Namespace`
pub record Namespace : Type 0 where
  pub name : String
  pub labels : Labels

-- A Deployment, a StatefulSet or a DaemonSet: the fields that they share.
pub record AppsObject : Type 0 where
  pub name : String
  pub namespace : String
  pub labels : Labels
  pub annotations : StrMap String
  pub pod_selector : Option LabelSelector
  pub container_names : List String

-- `client.Object`, as the type switches take it apart.
pub data Object : Type 0 where
  deployment stateful_set daemon_set unsupported : AppsObject → Object

-- `discovery.Workload`
pub record Workload : Type 0 where
  pub kind : String
  pub namespace : String
  pub name : String
  pub labels : Labels
  pub object : Object

-- A label selector of the list options: a nil one selects everything.
abbrev pub ListSelector : Type 0
ListSelector = Option (Labels → Bool)

pub record Client (P : Platform) : Type 0 where
  pub list_policies : Result ApiError (List (OptimizationPolicy P))
  pub list_namespaces : Result ApiError (List Namespace)
  pub get_namespace : String → Result ApiError Namespace
  -- The objects of a namespace that a selector selects.
  pub list_deployments : String → ListSelector → Result ApiError (List AppsObject)
  pub list_stateful_sets : String → ListSelector → Result ApiError (List AppsObject)
  pub list_daemon_sets : String → ListSelector → Result ApiError (List AppsObject)
