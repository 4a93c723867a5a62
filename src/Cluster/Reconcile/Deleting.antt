-- ===== src/Cluster/Reconcile/Deleting.antt =====
-- internal/controller/stroomcluster_controller.go: what is done to a cluster that is being deleted.
use stroom_k8s_operator.Base.{
  String, ◌≡◌, refl, true, List, [], ◌∷◌, Bool-cases, Option-cases, inl, inr,
}
use stroom_k8s_operator.Base.State.{M, on_cases}
use stroom_k8s_operator.Base.Keeps.{Keeps, Keeps-pure, Keeps-bind, keeps_rules}
use stroom_k8s_operator.Kube.Meta.{Labels, NamespacedName}
use stroom_k8s_operator.Kube.Env.{Env, Kind, Object, Library, SqlValue}
use stroom_k8s_operator.Kube.Outcome.{Outcome}
use stroom_k8s_operator.Api.Common.{wait_node_tasks_finalizer_name}
use stroom_k8s_operator.Api.StroomCluster.{StroomCluster, is_being_deleted, get_labels}
use stroom_k8s_operator.Database.{DatabaseConnectionInfo, open_database}
use stroom_k8s_operator.Cluster.Finalizers.{remove_finalizer}
use stroom_k8s_operator.Cluster.Tasks.{disable_task_processing, count_remaining_tasks}
use stroom_k8s_operator.Cluster.Deletion.{
  Checked, is_empty, has_no_nodes, delete_all, cleanup, finish_deletion, allow_deletion, drain,
  release_server, check_if_deleted,
}
use stroom_k8s_operator.Cluster.Files.{StaticFiles}
use stroom_k8s_operator.Cluster.Reconcile.{stops, go_on, create_children, check_and_create}

-- A property of the world that every call keeps but those that create an object, create or update
-- one, or set a status.
pub record IsKept (E : Env) (P : E.World → Type 0) : Type 0 where
  pub get : (k : Kind) (n : NamespacedName) → Keeps P (E.get k n)
  pub list : (k : Kind) (n : String) (l : Labels) → Keeps P (E.list k n l)
  pub update : (k : Kind) (o : Object k) → Keeps P (E.update k o)
  pub delete : (k : Kind) (o : Object k) → Keeps P (E.delete k o)
  pub sql_open : (s : String) → Keeps P (E.sql_open s)
  pub sql_close : (db : E.Db) → Keeps P (E.sql_close db)
  pub sql_exec : (db : E.Db) (s : String) (args : List SqlValue) → Keeps P (E.sql_exec db s args)
  pub sql_query : (db : E.Db) (s : String) (args : List SqlValue) → Keeps P (E.sql_query db s args)

pub stops-cluster_deleted :
    (E : Env) (L : Library) (Q : E.World → Type 0) (r : Checked) (m : M E.World Outcome)
    (w : E.World)
    → r.cluster_deleted ≡ true
    → Q w
    → Q (go_on E L (stops r) m w).1
stops-cluster_deleted E L Q r m w h q = elim (Option-cases r.error) [
  | inr (e, broken) ↦ rw broken q
  | inl clean ↦ elim (Bool-cases r.requeue) [
    | inl again ↦ rw (clean, again) q
    | inr once ↦ rw (clean, once, h) q
  ]
]

module _ (E : Env) (L : Library) where
  abbrev IsDeleted : Checked × E.World → Type 0
  IsDeleted r = r.0.cluster_deleted ≡ true

  finish_deletion-IsDeleted :
      (c : StroomCluster) (info : DatabaseConnectionInfo) (w : E.World)
      → IsDeleted (finish_deletion E L c info w)
  unfolding finish_deletion
  finish_deletion-IsDeleted c info w =
      on_cases IsDeleted (release_server E L info) _ _ w (λ e _. refl) (λ i _. refl)

  allow_deletion-IsDeleted :
      (c : StroomCluster) (info : DatabaseConnectionInfo) (w : E.World)
      → IsDeleted (allow_deletion E L c info w)
  unfolding allow_deletion
  allow_deletion-IsDeleted c info w =
      on_cases IsDeleted (remove_finalizer E L Kind.stroom_cluster c wait_node_tasks_finalizer_name)
        _ _ w (λ e _. refl) (λ c' _. finish_deletion-IsDeleted c' info _)

  drain-IsDeleted :
      (c : StroomCluster) (info : DatabaseConnectionInfo) (w : E.World)
      → IsDeleted (drain E L c info w)
  unfolding drain
  drain-IsDeleted c info w =
      on_cases IsDeleted (disable_task_processing E c info) _ _ w (λ e _. refl)
        (λ _ _.
          on_cases IsDeleted (count_remaining_tasks E c info) _ _ _ (λ e _. refl)
            (λ tasks _. elim (Bool-cases (is_empty tasks)) [
              | inl drained ↦ rw drained (allow_deletion-IsDeleted c info _)
              | inr busy ↦ rw busy refl
            ]))

  pub check_if_deleted-IsDeleted :
      (c : StroomCluster) (info : DatabaseConnectionInfo) (w : E.World)
      → is_being_deleted c ≡ true
      → IsDeleted (check_if_deleted E L c info w)
  unfolding check_if_deleted
  check_if_deleted-IsDeleted c info w h =
      elim (Bool-cases (has_no_nodes (E.list Kind.stateful_set c.namespace (get_labels c) w).0)) [
        | inl bare ↦ rw (h, bare) (allow_deletion-IsDeleted c info _)
        | inr deployed ↦ rw (h, deployed) (drain-IsDeleted c info _)
      ]

module _ (E : Env) (L : Library) (P : E.World → Type 0) (K : IsKept E P) where
  open_database-kept :
      (info : DatabaseConnectionInfo) (n d : String) → Keeps P (open_database E info n d)
  unfolding open_database
  open_database-kept info n d = search (keeps_rules, K.get, K.sql_open)

  disable_task_processing-kept :
      (c : StroomCluster) (info : DatabaseConnectionInfo)
      → Keeps P (disable_task_processing E c info)
  unfolding disable_task_processing
  disable_task_processing-kept c info =
      search (keeps_rules, open_database-kept, K.sql_exec, K.sql_close)

  count_remaining_tasks-kept :
      (c : StroomCluster) (info : DatabaseConnectionInfo) → Keeps P (count_remaining_tasks E c info)
  unfolding count_remaining_tasks
  count_remaining_tasks-kept c info =
      search (keeps_rules, open_database-kept, K.sql_query, K.sql_close)

  delete_all-kept : (k : Kind) (os : List (Object k)) → Keeps P (delete_all E k os)
  unfolding delete_all
  delete_all-kept k [] = Keeps-pure tt
  delete_all-kept k (o ∷ os) = Keeps-bind _ _ (K.delete k o) (λ _. delete_all-kept k os)

  cleanup-kept : (c : StroomCluster) → Keeps P (cleanup E c)
  unfolding cleanup
  cleanup-kept c = search (keeps_rules, K.list, delete_all-kept)

  remove_finalizer-kept :
      (k : Kind) (o : Object k) (name : String) → Keeps P (remove_finalizer E L k o name)
  unfolding remove_finalizer
  remove_finalizer-kept k o name = search (keeps_rules, K.get, K.update)

  release_server-kept : (info : DatabaseConnectionInfo) → Keeps P (release_server E L info)
  unfolding release_server
  release_server-kept info = elim (Option-cases info.database_server) [
    | inl external ↦ rw (external, release_server) (Keeps-pure _)
    | inr (db, managed) ↦
        rw (managed, release_server)
          (search (keeps_rules, remove_finalizer-kept Kind.database_server))
  ]

  finish_deletion-kept :
      (c : StroomCluster) (info : DatabaseConnectionInfo) → Keeps P (finish_deletion E L c info)
  unfolding finish_deletion
  finish_deletion-kept c info = search (keeps_rules, release_server-kept, cleanup-kept)

  allow_deletion-kept :
      (c : StroomCluster) (info : DatabaseConnectionInfo) → Keeps P (allow_deletion E L c info)
  unfolding allow_deletion
  allow_deletion-kept c info =
      search (keeps_rules, remove_finalizer-kept Kind.stroom_cluster, finish_deletion-kept)

  drain-kept : (c : StroomCluster) (info : DatabaseConnectionInfo) → Keeps P (drain E L c info)
  unfolding drain
  drain-kept c info =
      search
        (keeps_rules, disable_task_processing-kept, count_remaining_tasks-kept, allow_deletion-kept)

  check_if_deleted-kept :
      (c : StroomCluster) (info : DatabaseConnectionInfo)
      → is_being_deleted c ≡ true
      → Keeps P (check_if_deleted E L c info)
  unfolding check_if_deleted
  check_if_deleted-kept c info h =
      rw h (search (keeps_rules, K.list, drain-kept, allow_deletion-kept))

  -- A cluster that is being deleted: from the check on, `Reconcile` keeps every property of the
  -- world that reading, updating and deleting objects and talking to the database keep. It creates
  -- no child, on no path, and sets no status.
  pub check_and_create-deleted_kept :
      (files : StaticFiles) (c : StroomCluster) (info : DatabaseConnectionInfo)
      → is_being_deleted c ≡ true
      → Keeps P (check_and_create E L files c info)
  unfolding check_and_create
  check_and_create-deleted_kept files c info h = record {
    at = λ w p.
        let r = check_if_deleted E L c info w in
        stops-cluster_deleted E L P r.0 (create_children E L files r.0.cluster r.0.info) r.1
          (check_if_deleted-IsDeleted E L c info w h) ((check_if_deleted-kept c info h).at w p);
  }
