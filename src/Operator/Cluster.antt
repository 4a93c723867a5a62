-- ===== src/Operator/Cluster.antt =====
-- internal/controller/stroomcluster_controller.go: the calls of `Reconcile`.
use stroom_k8s_operator.Base.{String, List, [], ◌∷◌, Option-cases, inl, inr}
use stroom_k8s_operator.Base.Keeps.{Keeps, Keeps-pure, Keeps-bind, keeps_rules}
use stroom_k8s_operator.Kube.Core.{Ingress, PersistentVolumeClaim}
use stroom_k8s_operator.Kube.Env.{Env, Kind, Object, Library}
use stroom_k8s_operator.Api.StroomCluster.{StroomCluster}
use stroom_k8s_operator.Api.Common.{DatabaseServerRef}
use stroom_k8s_operator.Database.{
  DatabaseConnectionInfo, get_database_connection_info, open_database,
}
use stroom_k8s_operator.Cluster.Claim.{claim_database_server}
use stroom_k8s_operator.Cluster.Finalizers.{add_finalizer, remove_finalizer}
use stroom_k8s_operator.Cluster.Tasks.{disable_task_processing, count_remaining_tasks}
use stroom_k8s_operator.Cluster.Deletion.{
  delete_all, cleanup, guard_server, release_server, guard_deletion, finish_deletion,
  allow_deletion, drain, check_if_deleted,
}
use stroom_k8s_operator.Cluster.Reconcile.{claim}
use stroom_k8s_operator.Operator.Calls.{
  IsSpared, get_database_connection_info-kept, open_database-kept,
}

module _ (E : Env) (L : Library) (P : E.World → Type 0) (K : IsSpared E P) where
  opens : (info : DatabaseConnectionInfo) (n d : String) → Keeps P (open_database E info n d)
  opens info n d = open_database-kept E P K info n d

  connects :
      (ref : DatabaseServerRef) (namespace : String)
      → Keeps P (get_database_connection_info E ref namespace)
  connects ref namespace = get_database_connection_info-kept E P K ref namespace

  disable_task_processing-kept :
      (c : StroomCluster) (info : DatabaseConnectionInfo)
      → Keeps P (disable_task_processing E c info)
  unfolding disable_task_processing
  disable_task_processing-kept c info = search (keeps_rules, opens, K.sql_exec, K.sql_close)

  count_remaining_tasks-kept :
      (c : StroomCluster) (info : DatabaseConnectionInfo) → Keeps P (count_remaining_tasks E c info)
  unfolding count_remaining_tasks
  count_remaining_tasks-kept c info = search (keeps_rules, opens, K.sql_query, K.sql_close)

  delete_all-kept :
      (k : Kind) (os : List (Object k))
      → ((o : Object k) → Keeps P (E.delete k o))
      → Keeps P (delete_all E k os)
  unfolding delete_all
  delete_all-kept k [] deleted = Keeps-pure tt
  delete_all-kept k (o ∷ os) deleted =
      Keeps-bind _ _ (deleted o) (λ _. delete_all-kept k os deleted)

  cleanup-kept : (c : StroomCluster) → Keeps P (cleanup E c)
  unfolding cleanup
  cleanup-kept c =
      let ingresses = λ (os : List Ingress). delete_all-kept Kind.ingress os K.delete_ingress in
      let claims = λ (os : List PersistentVolumeClaim).
        delete_all-kept Kind.persistent_volume_claim os K.delete_claim in
      search (keeps_rules, K.list, ingresses, claims)

  -- The finalizers of the two kinds of resources.
  module _ (k : Kind) (updated : (o : Object k) → Keeps P (E.update k o)) where
    add_finalizer-kept : (o : Object k) (name : String) → Keeps P (add_finalizer E L k o name)
    unfolding add_finalizer
    add_finalizer-kept o name = search (keeps_rules, updated)

    remove_finalizer-kept : (o : Object k) (name : String) → Keeps P (remove_finalizer E L k o name)
    unfolding remove_finalizer
    remove_finalizer-kept o name = search (keeps_rules, K.get, updated)

  guard_server-kept : (info : DatabaseConnectionInfo) → Keeps P (guard_server E L info)
  unfolding guard_server
  guard_server-kept info = elim (Option-cases info.database_server) [
    | inl external ↦ rw (external, guard_server) (Keeps-pure _)
    | inr (db, managed) ↦
        rw (managed, guard_server)
          (search (keeps_rules, add_finalizer-kept Kind.database_server K.update_server))
  ]

  release_server-kept : (info : DatabaseConnectionInfo) → Keeps P (release_server E L info)
  unfolding release_server
  release_server-kept info = elim (Option-cases info.database_server) [
    | inl external ↦ rw (external, release_server) (Keeps-pure _)
    | inr (db, managed) ↦
        rw (managed, release_server)
          (search (keeps_rules, remove_finalizer-kept Kind.database_server K.update_server))
  ]

  guard_deletion-kept :
      (c : StroomCluster) (info : DatabaseConnectionInfo) → Keeps P (guard_deletion E L c info)
  unfolding guard_deletion
  guard_deletion-kept c info =
      search
        (keeps_rules, guard_server-kept, add_finalizer-kept Kind.stroom_cluster K.update_cluster)

  finish_deletion-kept :
      (c : StroomCluster) (info : DatabaseConnectionInfo) → Keeps P (finish_deletion E L c info)
  unfolding finish_deletion
  finish_deletion-kept c info = search (keeps_rules, release_server-kept, cleanup-kept)

  allow_deletion-kept :
      (c : StroomCluster) (info : DatabaseConnectionInfo) → Keeps P (allow_deletion E L c info)
  unfolding allow_deletion
  allow_deletion-kept c info = search (
    keeps_rules,
    remove_finalizer-kept Kind.stroom_cluster K.update_cluster,
    finish_deletion-kept,
  )

  drain-kept : (c : StroomCluster) (info : DatabaseConnectionInfo) → Keeps P (drain E L c info)
  unfolding drain
  drain-kept c info =
      search
        (keeps_rules, disable_task_processing-kept, count_remaining_tasks-kept, allow_deletion-kept)

  pub check_if_deleted-kept :
      (c : StroomCluster) (info : DatabaseConnectionInfo) → Keeps P (check_if_deleted E L c info)
  unfolding check_if_deleted
  check_if_deleted-kept c info =
      search (keeps_rules, K.list, guard_deletion-kept, drain-kept, allow_deletion-kept)

  pub claim-kept : (c : StroomCluster) (info : DatabaseConnectionInfo) → Keeps P (claim E L c info)
  unfolding claim claim_database_server
  claim-kept c info = elim (Option-cases info.database_server) [
    | inl external ↦ rw (external, claim) (Keeps-pure _)
    | inr (db, managed) ↦ rw (managed, claim) (search (keeps_rules, K.update_server))
  ]
