-- ===== src/Cluster/StatefulSet.antt =====
-- internal/controller/stroomcluster.go: the StatefulSet of a node set.
pub mod Mounts
use stroom_k8s_operator.Base.{some, [], ◌∷◌}
use stroom_k8s_operator.Base.Int.{pos}
use stroom_k8s_operator.Kube.Meta.{empty_meta}
use stroom_k8s_operator.Kube.Core.{StatefulSet, empty_pod_spec}
use stroom_k8s_operator.Kube.Env.{Library}
use stroom_k8s_operator.Kube.Owner.{controlled}
use stroom_k8s_operator.Api.StroomCluster.{
  StroomCluster, NodeSet, get_base_name, get_node_set_name, get_node_set_headless_service_name,
  get_node_set_selector_labels,
}
use stroom_k8s_operator.Database.{DatabaseConnectionInfo}
use stroom_k8s_operator.Cluster.Config.{
  owner, child_meta, stroom_node_pvc_name, create_node_set_pvc_labels,
}
use stroom_k8s_operator.Cluster.Volumes.{node_volumes}
use stroom_k8s_operator.Cluster.Containers.{init_containers, node_containers}

unfoldable pub create_stateful_set :
    Library → StroomCluster → NodeSet → DatabaseConnectionInfo → StatefulSet
unfolding node_volumes init_containers node_containers create_node_set_pvc_labels
create_stateful_set L c n info = record {
  meta = controlled L (owner c) (child_meta c (get_node_set_name c n));
  spec = record {
    replicas = n.count;
    pod_management_policy = c.spec.pod_management_policy;
    service_name = get_node_set_headless_service_name c n;
    match_labels = get_node_set_selector_labels c n;
    template = record {
      annotations = n.pod_annotations;
      labels = get_node_set_selector_labels c n;
      spec = record empty_pod_spec {
        service_account_name = get_base_name c;
        security_context = n.pod_security_context;
        termination_grace_period_seconds = some c.spec.node_termination_period_secs;
        init_containers = init_containers c;
        containers = node_containers L c n info;
        volumes = node_volumes c;
        node_selector = n.node_selector;
        affinity = n.affinity;
        tolerations = n.tolerations;
      };
    };
    volume_claim_templates =
        record {
          meta = record empty_meta {
            name = stroom_node_pvc_name;
            labels = create_node_set_pvc_labels c n;
          };
          spec = n.local_data_volume_claim;
        }
        ∷ [];
  };
  status_replicas = pos 0;
}
