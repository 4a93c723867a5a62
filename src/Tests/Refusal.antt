-- ===== src/Tests/Refusal.antt =====
-- The theorem on a server that another cluster has claimed, at a concrete client.
use stroom_k8s_operator.Base.{◌≡◌, refl, false, some, [], string_eq}
use stroom_k8s_operator.Base.State.{bad_request, ok}
use stroom_k8s_operator.Kube.Meta.{NamespacedName}
use stroom_k8s_operator.Kube.Outcome.{failed}
use stroom_k8s_operator.Api.Common.{is_zero}
use stroom_k8s_operator.Api.DatabaseServer.{DatabaseServer}
use stroom_k8s_operator.Cluster.Claim.{claimed_message}
use stroom_k8s_operator.Cluster.Files.{StaticFiles}
use stroom_k8s_operator.Cluster.Reconcile.{reconcile}
use stroom_k8s_operator.Cluster.Reconcile.Refusal.{IsTaken, reconcile-refused}
use stroom_k8s_operator.Tests.Client.{World, client, library, empty_world}
use stroom_k8s_operator.Tests.Samples.{sample_server, sample_cluster}

abbrev files : StaticFiles
files = record { read_dir = ok []; read_file = λ name. ok "" }

abbrev request : NamespacedName
request = record { namespace = "stroom"; name = "dev" }

abbrev taken_server : DatabaseServer
taken_server = record sample_server {
  stroom_cluster_ref = record { name = "prod"; namespace = "stroom" };
}

abbrev taken_world : World
taken_world = record empty_world { server = some taken_server; cluster = some sample_cluster }

-- Nothing was created or updated.
abbrev Untouched : World → Type 0
Untouched w = (w.creations ≡ 0) × (w.updates ≡ 0)

taken_server-IsTaken : IsTaken sample_cluster taken_server
unfolding is_zero string_eq
taken_server-IsTaken = record { claimed = refl; by_another = refl }

sample_cluster-managed : is_zero sample_cluster.spec.database_server_ref.server_ref ≡ false
unfolding is_zero string_eq
sample_cluster-managed = refl

reconcile-refused_example :
    ((reconcile client library files request taken_world).0
      ≡ failed (bad_request (claimed_message sample_cluster taken_server)))
    × Untouched (reconcile client library files request taken_world).1
reconcile-refused_example =
    reconcile-refused client library sample_cluster taken_server taken_server-IsTaken
      sample_cluster-managed Untouched (λ k n. record { at = λ w h. h }) files request taken_world
      refl refl (refl, refl)
