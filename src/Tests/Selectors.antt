-- ===== src/Tests/Selectors.antt =====
-- The theorem on the selectors of services, at a cluster with two node sets.
use stroom_k8s_operator.Base.{◌≡◌, ◌↔◌, none}
use stroom_k8s_operator.Base.Int.{pos}
use stroom_k8s_operator.Api.StroomCluster.{NodeSet}
use stroom_k8s_operator.Database.{DatabaseConnectionInfo}
use stroom_k8s_operator.Cluster.Services.{create_service}
use stroom_k8s_operator.Cluster.Services.Selectors.{Selects, create_service-Selects}
use stroom_k8s_operator.Cluster.StatefulSet.{create_stateful_set}
use stroom_k8s_operator.Tests.Client.{library}
use stroom_k8s_operator.Tests.Samples.{sample_cluster, node_set}

abbrev ui_node_set : NodeSet
ui_node_set = record node_set { name = "ui" }

abbrev info : DatabaseConnectionInfo
info = record {
  database_server = none;
  host = "db";
  port = pos 3306;
  secret_name = "stroom-dev-db-db";
  user_name = "stroomuser";
}

create_service-Selects_example :
    Selects
      (create_service library sample_cluster ui_node_set "ui" "").spec.selector
      (create_stateful_set library sample_cluster node_set info).spec.template.labels
    ↔ ((sample_cluster.name ≡ sample_cluster.name) × (ui_node_set.name ≡ node_set.name))
create_service-Selects_example =
    create_service-Selects library sample_cluster sample_cluster node_set ui_node_set info "ui" ""
