-- ===== src/Tests/Data.antt =====
-- A small cluster on the concrete platform.
use optipod.Prelude.{
  ℤ, pos, String, true, false, none, some, List, [], ◌∷◌, ok, err, if◌then◌else◌, str_eq, ◌&&◌,
}
use optipod.Platform.{decimal_si, binary_si, LabelSelector, Labels}
use optipod.Platform.Demo.{Amount, demo}
use optipod.Api.WorkloadTypes.{WorkloadTypeFilter}
use optipod.Api.Types.{OptimizationPolicy, OptimizationPolicyStatus, WorkloadSelector, mode_auto}
use optipod.Metrics.{ContainerMetrics}
use optipod.Discovery.Sound.{selects}
use optipod.Cluster.{Client, ListSelector, AppsObject, Namespace, Workload, deployment, not_found}

abbrev pub millis : ℤ → Amount
millis n = demo.new_milli_quantity n decimal_si

abbrev pub bytes : ℤ → Amount
bytes n = demo.new_quantity n binary_si

abbrev pub fresh_status : OptimizationPolicyStatus
fresh_status = record {
  conditions = [];
  workloads_discovered = pos 0;
  workloads_processed = pos 0;
  last_reconciliation = none;
  workloads_by_type = none;
}

abbrev pub web_labels : Labels
web_labels = ("app", "web") ∷ []

abbrev pub only_web : LabelSelector
only_web = record { match_labels = web_labels; match_expressions = [] }

abbrev pub no_daemons : WorkloadTypeFilter
no_daemons = record { include = []; exclude = "DaemonSet" ∷ [] }

abbrev pub web_selector : WorkloadSelector
web_selector = record {
  namespace_selector = some only_web;
  workload_selector = some only_web;
  namespaces = none;
  workload_types = some no_daemons;
}

abbrev pub policy_named : String → ℤ → OptimizationPolicy demo
policy_named name weight = record {
  name = name;
  namespace = "ops";
  spec = record {
    mode = mode_auto;
    weight = some weight;
    selector = web_selector;
    metrics_config = record {
      provider = "prometheus";
      rolling_window = pos 0;
      percentile = "P99";
      safety_factor = none;
    };
    resource_bounds = record {
      cpu = record { min = millis (pos 100); max = millis (pos 2000) };
      memory = record { min = bytes (pos 1000); max = bytes (pos 100000) };
    };
    update_strategy = record {
      allow_in_place_resize = true;
      allow_recreate = false;
      update_requests_only = true;
      use_server_side_apply = none;
      limit_config = none;
    };
    reconciliation_interval = pos 0;
  };
  status = fresh_status;
}

abbrev pub heavy : OptimizationPolicy demo
heavy = policy_named "heavy" (pos 200)

abbrev pub light : OptimizationPolicy demo
light = policy_named "light" (pos 100)

abbrev pub usage : ContainerMetrics demo
usage = record {
  cpu = record {
    p50 = millis (pos 200);
    p90 = millis (pos 300);
    p99 = millis (pos 500);
    samples = 10;
  };
  memory = record {
    p50 = bytes (pos 10);
    p90 = bytes (pos 20);
    p99 = bytes (pos 90000);
    samples = 10;
  };
}

abbrev pub web_object : AppsObject
web_object = record {
  name = "web";
  namespace = "shop";
  labels = web_labels;
  annotations = [];
  pod_selector = some only_web;
  container_names = "main" ∷ [];
}

abbrev pub web : Workload
web = record {
  kind = "Deployment";
  namespace = "shop";
  name = "web";
  labels = web_labels;
  object = deployment web_object;
}

abbrev pub shop : Namespace
shop = record { name = "shop"; labels = web_labels }

abbrev pub shop_objects : String → ListSelector → List AppsObject
shop_objects n s = if str_eq n "shop" && selects s web_labels then web_object ∷ [] else []

abbrev pub listing : List (OptimizationPolicy demo) → Client demo
listing ps = record {
  list_policies = ok ps;
  list_namespaces = ok (shop ∷ []);
  get_namespace = λ n. if str_eq n "shop" then ok shop else err not_found;
  list_deployments = λ n s. ok (shop_objects n s);
  list_stateful_sets = λ n s. ok [];
  list_daemon_sets = λ n s. ok [];
}
