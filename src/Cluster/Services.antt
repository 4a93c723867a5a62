-- ===== src/Cluster/Services.antt =====
-- internal/controller/stroomcluster.go: the services of a node set.
pub mod Selectors
use stroom_k8s_operator.Base.{String, [], ◌∷◌}
use stroom_k8s_operator.Kube.Core.{Service}
use stroom_k8s_operator.Kube.Env.{Library}
use stroom_k8s_operator.Kube.Owner.{controlled}
use stroom_k8s_operator.Api.StroomCluster.{StroomCluster, NodeSet, get_node_set_selector_labels}
use stroom_k8s_operator.Cluster.Config.{
  owner, child_meta, app_http_port_name, app_http_port_number, app_https_port_name,
  app_https_port_number, admin_port_name, admin_port_number,
}

unfoldable pub create_service : Library → StroomCluster → NodeSet → String → String → Service
create_service L c n name cluster_ip = record {
  meta = controlled L (owner c) (child_meta c name);
  spec = record {
    type = "ClusterIP";
    cluster_ip = cluster_ip;
    selector = get_node_set_selector_labels c n;
    ports =
        record { name = app_https_port_name; port = app_https_port_number; protocol = "TCP" }
        ∷ record { name = app_http_port_name; port = app_http_port_number; protocol = "TCP" }
        ∷ record { name = admin_port_name; port = admin_port_number; protocol = "TCP" }
        ∷ [];
  };
}
