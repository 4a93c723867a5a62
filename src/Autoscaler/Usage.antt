-- ===== src/Autoscaler/Usage.antt =====
-- internal/controller/stroomtaskautoscaler_controller.go: `autoScaleStroomNodeTasks`, which logs the
-- CPU usage of a cluster's pods. Nothing calls it.
use stroom_k8s_operator.Base.{none, some, List, [], ◌∷◌}
use stroom_k8s_operator.Base.State.{M, pure, ◌>>=◌, on}
use stroom_k8s_operator.Kube.Core.{Pod}
use stroom_k8s_operator.Kube.Env.{Env, Kind}
use stroom_k8s_operator.Api.StroomCluster.{StroomCluster, NodeSet, get_node_set_selector_labels}
use stroom_k8s_operator.Autoscaler.Scale.{Scaled, returned, panicked}

module _ (E : Env) where
  open E use {World}

  -- The loop over the pods; a pod with no containers is an index out of range.
  unfoldable pub log_usage : StroomCluster → List Pod → M World Scaled
  log_usage cluster [] = pure (returned none)
  log_usage cluster (pod ∷ pods) =
      on (E.get Kind.pod_metrics (record { namespace = cluster.namespace; name = pod.meta.name }))
        (λ e. pure (returned (some e)))
        (λ pod_metrics. elim pod_metrics.containers [
          | [] ↦ pure panicked
          | container ∷ rest ↦ log_usage cluster pods
        ])

  unfoldable pub log_node_sets : StroomCluster → List NodeSet → M World Scaled
  unfolding log_usage
  log_node_sets cluster [] = pure (returned none)
  log_node_sets cluster (node_set ∷ node_sets) =
      on (E.list Kind.pod cluster.namespace (get_node_set_selector_labels cluster node_set))
        (λ e. pure (returned (some e)))
        (λ pods. log_usage cluster pods >>= λ r. elim r [
          | returned none ↦ log_node_sets cluster node_sets
          | returned (some e) ↦ pure (returned (some e))
          | panicked ↦ pure panicked
        ])

  unfoldable pub auto_scale_stroom_node_tasks : StroomCluster → M World Scaled
  unfolding log_node_sets
  auto_scale_stroom_node_tasks cluster = log_node_sets cluster cluster.spec.node_sets
