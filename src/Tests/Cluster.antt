-- ===== src/Tests/Cluster.antt =====
-- The theorems on the StroomCluster's controller, at a concrete client.
use stroom_k8s_operator.Base.{
  ◌≡◌, refl, ◌⊎◌, inl, inr, ◌++◌, ◌↔◌, true, false, some, [], ◌∷◌, string_eq, arith, All,
}
use stroom_k8s_operator.Base.Int.{pos}
use stroom_k8s_operator.Base.State.{Err, not_found, ok}
use stroom_k8s_operator.Base.Keeps.{Keeps}
use stroom_k8s_operator.Kube.Outcome.{failed, after_seconds}
use stroom_k8s_operator.Api.Common.{is_zero}
use stroom_k8s_operator.Api.StroomCluster.{is_being_deleted}
use stroom_k8s_operator.Database.{DatabaseConnectionInfo}
use stroom_k8s_operator.Cluster.Tasks.{scan_count}
use stroom_k8s_operator.Cluster.Claim.{claim_database_server}
use stroom_k8s_operator.Cluster.Claim.Again.{IsOk, claim_database_server_again}
use stroom_k8s_operator.Cluster.StatefulSet.{create_stateful_set}
use stroom_k8s_operator.Cluster.StatefulSet.Mounts.{IsMounted, create_stateful_set-IsMounted}
use stroom_k8s_operator.Cluster.Pvcs.{is_deleting_on_scaledown, delete_pvcs}
use stroom_k8s_operator.Cluster.Pvcs.Names.{delete_claims, delete_pvcs-eq}
use stroom_k8s_operator.Cluster.Files.{StaticFiles}
use stroom_k8s_operator.Cluster.Reconcile.{check_and_create}
use stroom_k8s_operator.Cluster.Reconcile.Deleting.{check_and_create-deleted_kept}
use stroom_k8s_operator.Cluster.Reconcile.Unopened.{check_and_create-err}
use stroom_k8s_operator.Cluster.Reconcile.Draining
use stroom_k8s_operator.Cluster.Reconcile.Draining.{check_and_create-waits}
use stroom_k8s_operator.DatabaseServer.Resources.{create_secret}
use stroom_k8s_operator.Tests.Client.{World, client, library, empty_world}
use stroom_k8s_operator.Tests.Samples.{
  sample_server, sample_cluster, leaving_cluster, node_set, server_ref, stateful_set,
}

abbrev files : StaticFiles
files = record { read_dir = ok ("start.sh" ∷ []); read_file = λ name. ok "#!/bin/bash" }

abbrev info : DatabaseConnectionInfo
info = record {
  database_server = some sample_server;
  host = "db";
  port = pos 3306;
  secret_name = "stroom-dev-db-db";
  user_name = "stroomuser";
}

leaving_cluster-deleted : is_being_deleted leaving_cluster ≡ true
unfolding is_being_deleted
leaving_cluster-deleted = refl

-- Nothing was created.
abbrev Idle : World → Type 0
Idle w = w.creations ≡ 0

-- Nothing was created or updated, and the StatefulSet is still there.
abbrev Busy : World → Type 0
Busy w = (w.creations ≡ 0) × (w.updates ≡ 0) × (w.stateful_sets ≡ stateful_set ∷ [])

check_and_create-deleted_kept_example :
    Keeps Idle (check_and_create client library files leaving_cluster info)
check_and_create-deleted_kept_example =
    check_and_create-deleted_kept client library Idle
      (record {
        get = λ k n. record { at = λ w h. h };
        list = λ k n l. record { at = λ w h. h };
        update = λ k o. record { at = λ w h. h };
        delete = λ k o. record { at = λ w h. h };
        sql_open = λ s. record { at = λ w h. h };
        sql_close = λ db. record { at = λ w h. h };
        sql_exec = λ db s args. record { at = λ w h. h };
        sql_query = λ db s args. record { at = λ w h. h };
      })
      files leaving_cluster info leaving_cluster-deleted

abbrev busy_world : World
busy_world = record empty_world {
  secret = some (create_secret client sample_server empty_world).0;
  stateful_sets = stateful_set ∷ [];
}

client-IsKept : Draining.IsKept client leaving_cluster Busy
unfolding scan_count
client-IsKept = record {
  get = λ k n. record { at = λ w h. h };
  list = λ n l. record { at = λ w h. h };
  sql_open = λ s. record { at = λ w h. h };
  sql_close = λ db. record { at = λ w h. h };
  sql_exec = λ db args. record { at = λ w h. h };
  sql_query = λ db args. record { at = λ w h. h };
  deployed = λ w h. rw (h.2) refl;
  busy = λ db w h. inl refl;
}

check_and_create-waits_example :
    (((check_and_create client library files leaving_cluster info busy_world).0
        ≡ after_seconds (pos 60))
      ⊎ ((e : Err) × ((check_and_create client library files leaving_cluster info busy_world).0
            ≡ failed e)))
    × Busy (check_and_create client library files leaving_cluster info busy_world).1
check_and_create-waits_example =
    check_and_create-waits client leaving_cluster Busy client-IsKept library files info busy_world
      leaving_cluster-deleted (refl, refl, refl)

sample_policy : is_deleting_on_scaledown sample_cluster.spec.volume_claim_delete_policy ≡ true
unfolding is_deleting_on_scaledown string_eq
sample_policy = refl

delete_pvcs-eq_example :
    delete_pvcs client sample_cluster node_set (pos 5) (pos 3) empty_world
    ≡ delete_claims client sample_cluster node_set 2 3 empty_world
delete_pvcs-eq_example =
    delete_pvcs-eq client sample_cluster node_set 2 3 empty_world (omega arith) (omega arith)
      sample_policy

unclaimed : is_zero sample_server.stroom_cluster_ref ≡ true
unfolding is_zero string_eq
unclaimed = refl

named : is_zero server_ref ≡ false
unfolding is_zero string_eq
named = refl

-- The reference is the server's own, "stroom/dev-db", and the cluster is "stroom/dev".
claim_database_server_again_example :
    ((claim_database_server client sample_cluster server_ref sample_server empty_world).0
      ≡ ok (record sample_server { stroom_cluster_ref = server_ref }))
    × (IsOk
          (claim_database_server client sample_cluster server_ref
            (record sample_server { stroom_cluster_ref = server_ref })
            empty_world).0
        ↔ ((server_ref.name ≡ sample_cluster.name)
            × (server_ref.namespace ≡ sample_cluster.namespace)))
claim_database_server_again_example =
    claim_database_server_again client (λ db w. refl) sample_cluster server_ref sample_server
      empty_world empty_world unclaimed named

create_stateful_set-IsMounted_example :
    All
      (λ k.
        All
          (IsMounted (create_stateful_set library sample_cluster node_set info).spec)
          k.volume_mounts)
      ((create_stateful_set library sample_cluster node_set info).spec.template.spec.init_containers
        ++ (create_stateful_set library sample_cluster node_set info).spec.template.spec.containers)
create_stateful_set-IsMounted_example =
    create_stateful_set-IsMounted sample_cluster library node_set info (inr (inl refl), tt) tt

-- The server's Secret is in another namespace.
abbrev unopened_world : World
unopened_world = record empty_world { stateful_sets = stateful_set ∷ [] }

check_and_create-err_example :
    check_and_create client library files leaving_cluster info unopened_world
    ≡ (failed not_found, unopened_world)
check_and_create-err_example =
    check_and_create-err client library leaving_cluster info files (ok (stateful_set ∷ []))
      not_found unopened_world unopened_world unopened_world leaving_cluster-deleted refl refl refl
