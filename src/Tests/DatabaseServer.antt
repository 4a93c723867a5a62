-- ===== src/Tests/DatabaseServer.antt =====
-- The theorems on the DatabaseServer's controller, at a concrete client.
use stroom_k8s_operator.Base.{◌≡◌, ◌↔◌, refl, sym, true, false, some, [], ◌∷◌, string_eq}
use stroom_k8s_operator.Base.State.{ok}
use stroom_k8s_operator.Kube.Meta.{NamespacedName}
use stroom_k8s_operator.Kube.Env.{Kind}
use stroom_k8s_operator.Kube.Outcome.{done}
use stroom_k8s_operator.Api.Common.{DatabaseServerRef, is_zero}
use stroom_k8s_operator.Api.DatabaseServer.{DatabaseServer, is_being_deleted, get_secret_name}
use stroom_k8s_operator.Database.{managed_connection, data_source_name, open_database}
use stroom_k8s_operator.DatabaseServer.Resources.{
  create_secret, create_config_map, create_db_init_config_map, create_stateful_set, create_service,
}
use stroom_k8s_operator.Cluster.Services.Selectors.{Selects}
use stroom_k8s_operator.DatabaseServer.References.{
  Refers, Serves, create_stateful_set-Refers, managed_connection-Serves,
}
use stroom_k8s_operator.Tests.Progress.{library-KeepsNames}
use stroom_k8s_operator.DatabaseServer.Secrets.{service_password, open_database-create_secret}
use stroom_k8s_operator.DatabaseServer.Reconcile.{reconcile}
use stroom_k8s_operator.DatabaseServer.Reconcile.Deleting.{
  IsKept, reconcile-deleted_kept, reconcile-claimed_done,
}
use stroom_k8s_operator.Tests.Client.{World, client, library, empty_world}
use stroom_k8s_operator.Tests.Samples.{sample_server, leaving_server, sample_cluster, server_ref}

abbrev request : NamespacedName
request = record { namespace = "stroom"; name = "dev-db" }

-- Nothing was created.
abbrev Idle : World → Type 0
Idle w = w.creations ≡ 0

-- A server that is being deleted, claimed by a cluster that is there or is gone.
abbrev claimed_world : World
claimed_world = record empty_world { server = some leaving_server; cluster = some sample_cluster }

abbrev orphaned_world : World
orphaned_world = record empty_world { server = some leaving_server }

client-IsKept : IsKept client library Idle
client-IsKept = record {
  get = λ k n. record { at = λ w h. h };
  update = λ db h. record { at = λ w h'. h' };
}

leaving_server-deleted : is_being_deleted leaving_server ≡ true
unfolding is_being_deleted
leaving_server-deleted = refl

leaving_server-claimed : is_zero leaving_server.stroom_cluster_ref ≡ false
unfolding is_zero string_eq
leaving_server-claimed = refl

found_deleted :
    (db : DatabaseServer)
    → (client.get Kind.database_server request orphaned_world).0 ≡ ok db
    → is_being_deleted db ≡ true
found_deleted db found = let same : leaving_server ≡ db = cc in rw (sym same) leaving_server-deleted

reconcile-deleted_kept_example : Idle (reconcile client library request orphaned_world).1
reconcile-deleted_kept_example =
    reconcile-deleted_kept client library Idle client-IsKept request orphaned_world found_deleted
      refl

reconcile-claimed_done_example :
    ((reconcile client library request claimed_world).0 ≡ done)
    × Idle (reconcile client library request claimed_world).1
reconcile-claimed_done_example =
    reconcile-claimed_done client library Idle (λ k n. record { at = λ w h. h }) request
      leaving_server sample_cluster claimed_world refl leaving_server-deleted leaving_server-claimed
      refl refl

abbrev service_ref : DatabaseServerRef
service_ref = record {
  server_ref = server_ref;
  server_address = sample_cluster.spec.database_server_ref.server_address;
  user_name = "stroomuser";
}

abbrev secret_world : World
secret_world = record empty_world {
  secret = some (create_secret client sample_server empty_world).0;
}

open_database-create_secret_example :
    open_database client
      (managed_connection service_ref sample_server)
      "stroom"
      "stroom"
      secret_world
    ≡ client.sql_open
        (data_source_name client
          (managed_connection service_ref sample_server)
          (service_password client empty_world)
          "stroom")
        (client.get Kind.secret
          (record { namespace = "stroom"; name = get_secret_name sample_server })
          secret_world).1
open_database-create_secret_example =
    open_database-create_secret client service_ref sample_server "stroom" empty_world secret_world
      refl refl

create_stateful_set-Refers_example :
    Refers
      (create_config_map library sample_server
        ∷ create_db_init_config_map library sample_server
        ∷ [])
      ((create_secret client sample_server empty_world).0 ∷ [])
      (create_stateful_set library sample_server).spec
create_stateful_set-Refers_example =
    create_stateful_set-Refers library library-KeepsNames sample_server client empty_world

abbrev sample_ref : DatabaseServerRef
sample_ref = sample_cluster.spec.database_server_ref

managed_connection-Serves_example :
    Serves library library-KeepsNames sample_server
      (managed_connection sample_ref sample_server)
      (create_service library sample_server)
      (create_stateful_set library sample_server)
      (create_secret client sample_server empty_world).0
    × (Selects
          (create_service library sample_server).spec.selector
          (create_stateful_set library leaving_server).spec.template.labels
        ↔ (leaving_server.name ≡ sample_server.name))
managed_connection-Serves_example =
    managed_connection-Serves library library-KeepsNames sample_server client empty_world sample_ref
      leaving_server
