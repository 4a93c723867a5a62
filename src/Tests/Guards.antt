-- ===== src/Tests/Guards.antt =====
-- The theorem on the finalizers of a live cluster, at a concrete client.
use stroom_k8s_operator.Base.{◌≡◌, refl, sym, none, some, ==_self, string_eq}
use stroom_k8s_operator.Base.Int.{pos}
use stroom_k8s_operator.Api.StroomCluster.{is_being_deleted}
use stroom_k8s_operator.Database.{DatabaseConnectionInfo}
use stroom_k8s_operator.Cluster.Finalizers.{add_finalizer}
use stroom_k8s_operator.Cluster.Deletion.{guard_server, guard_deletion, check_if_deleted}
use stroom_k8s_operator.Cluster.Reconcile.{stops}
use stroom_k8s_operator.Cluster.Reconcile.Guards.{IsFaithful, IsGuarded, check_if_deleted-IsGuarded}
use stroom_k8s_operator.Tests.Client.{client, library, empty_world}
use stroom_k8s_operator.Tests.Samples.{sample_server, sample_cluster}

abbrev info : DatabaseConnectionInfo
info = record {
  database_server = some sample_server;
  host = "db";
  port = pos 3306;
  secret_name = "stroom-dev-db-db";
  user_name = "stroomuser";
}

client-IsFaithful : IsFaithful client library
client-IsFaithful = record {
  stored = λ k o o' w f e held. let same : o ≡ o' = cc in rw (sym same) held;
  added = λ m f. rw (==_self f);
}

sample_cluster-live :
    stops (check_if_deleted client library sample_cluster info empty_world).0 ≡ none
unfolding check_if_deleted guard_deletion guard_server add_finalizer is_being_deleted string_eq
sample_cluster-live = refl

check_if_deleted-IsGuarded_example :
    IsGuarded client library client-IsFaithful
      (check_if_deleted client library sample_cluster info empty_world).0
check_if_deleted-IsGuarded_example =
    check_if_deleted-IsGuarded client library client-IsFaithful sample_cluster info empty_world
      sample_cluster-live
