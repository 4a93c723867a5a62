-- ===== src/Tests/Unread.antt =====
-- The theorem on a pod whose metrics cannot be read, at a client that lists two pods.
use stroom_k8s_operator.Base.{◌≡◌, refl, List, [], ◌∷◌, string_eq}
use stroom_k8s_operator.Base.State.{not_found, ok}
use stroom_k8s_operator.Kube.Meta.{empty_meta, to_string}
use stroom_k8s_operator.Kube.Core.{Pod}
use stroom_k8s_operator.Kube.Env.{Env, Kind, Object, key_of}
use stroom_k8s_operator.Metrics.{new_node_metric_map, delete_pod_data}
use stroom_k8s_operator.Autoscaler.Reconcile.{return, default_result, visit_pods, visit_node_sets}
use stroom_k8s_operator.Autoscaler.Reconcile.Unread.{visit_node_sets-unread}
use stroom_k8s_operator.Tests.Client.{client, library, empty_world}
use stroom_k8s_operator.Tests.Samples.{sample_cluster, node_set, scaler}

abbrev starting_pod : Pod
starting_pod = record {
  meta = record empty_meta { name = "stroom-dev-node-data-0"; namespace = "stroom" };
}

abbrev busy_pod : Pod
busy_pod = record {
  meta = record empty_meta { name = "stroom-dev-node-data-1"; namespace = "stroom" };
}

abbrev pods_of : (k : Kind) → List (Object k)
pods_of Kind.pod = starting_pod ∷ busy_pod ∷ []
pods_of _ = []

abbrev pod_client : Env
pod_client = record client { list = λ k n l w. (ok (pods_of k), w) }

visit_node_sets-unread_example :
    visit_node_sets pod_client library sample_cluster scaler
      (node_set ∷ [])
      new_node_metric_map
      empty_world
    ≡ (
      (
        return default_result,
        delete_pod_data (to_string (key_of Kind.pod starting_pod)) new_node_metric_map,
      ),
      empty_world,
    )
unfolding visit_pods string_eq
visit_node_sets-unread_example =
    visit_node_sets-unread pod_client library sample_cluster node_set scaler [] (busy_pod ∷ [])
      starting_pod [] not_found new_node_metric_map new_node_metric_map empty_world empty_world
      empty_world empty_world refl refl refl refl
