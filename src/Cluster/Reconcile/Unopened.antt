-- ===== src/Cluster/Reconcile/Unopened.antt =====
-- internal/controller/stroomcluster_controller.go and database_connection.go: a cluster that is being
-- deleted, and whose database cannot be opened.
use stroom_k8s_operator.Base.{
  String, ◌<>◌, ◌≡◌, refl, true, false, none, some, List, [], ◌∷◌, if◌then◌else◌,
}
use stroom_k8s_operator.Base.State.{Err, Result, err, pure, ◌>>=◌, ◌>>◌, on, on_err}
use stroom_k8s_operator.Kube.Meta.{NamespacedName}
use stroom_k8s_operator.Kube.Core.{StatefulSet}
use stroom_k8s_operator.Kube.Env.{Env, Kind, Library, text}
use stroom_k8s_operator.Kube.Outcome.{failed}
use stroom_k8s_operator.Api.StroomCluster.{
  StroomCluster, is_being_deleted, get_labels, get_base_name,
}
use stroom_k8s_operator.Database.{DatabaseConnectionInfo, open_database, close_database}
use stroom_k8s_operator.Cluster.Tasks.{
  disable_task_processing, disable_tasks_statement, count_remaining_tasks,
}
use stroom_k8s_operator.Cluster.Deletion.{
  has_no_nodes, is_empty, drain, checked, check_if_deleted, allow_deletion,
}
use stroom_k8s_operator.Cluster.Files.{StaticFiles}
use stroom_k8s_operator.Cluster.Reconcile.{check_and_create}

module _ (E : Env) (L : Library) (c : StroomCluster) (info : DatabaseConnectionInfo) where
  -- The Secret is looked for in the namespace of the cluster, wherever the server is.
  abbrev pub password_of : NamespacedName
  password_of = record { namespace = c.namespace; name = info.secret_name }

  open_database-err :
      (database : String) (e : Err) (w u : E.World)
      → E.get Kind.secret password_of w ≡ (err e, u)
      → open_database E info c.namespace database w ≡ (err e, u)
  unfolding open_database
  open_database-err database e w u missing = rw missing refl

  disable_task_processing-err :
      (e : Err) (w u : E.World)
      → E.get Kind.secret password_of w ≡ (err e, u)
      → disable_task_processing E c info w ≡ (err e, u)
  unfolding disable_task_processing
  disable_task_processing-err e w u missing =
      on_err (open_database E info c.namespace c.spec.app_database_name) (λ x. pure (err x))
        (λ db. E.sql_exec db disable_tasks_statement (text (get_base_name c <> "%") ∷ []) >>= λ r.
          close_database E db >> pure r)
        w u e (open_database-err c.spec.app_database_name e w u missing)

  drain-err :
      (e : Err) (w u : E.World)
      → E.get Kind.secret password_of w ≡ (err e, u)
      → drain E L c info w ≡ (checked c info false true (some e), u)
  unfolding drain
  drain-err e w u missing =
      on_err (disable_task_processing E c info) (λ x. pure (checked c info false true (some x)))
        (λ _.
          on (count_remaining_tasks E c info) (λ x. pure (checked c info true true (some x)))
            (λ tasks.
              if is_empty tasks
              then allow_deletion E L c info
              else pure (checked c info true true none)))
        w u e (disable_task_processing-err e w u missing)

  -- A cluster that is being deleted, that has nodes, and whose namespace does not give the Secret
  -- with the database's password: from the check on, `Reconcile` fails with the error of that Get,
  -- and has only listed and read. No statement is sent and no finalizer removed.
  pub check_and_create-err :
      (files : StaticFiles) (nodes : Result (List StatefulSet)) (e : Err) (w v u : E.World)
      → is_being_deleted c ≡ true
      → E.list Kind.stateful_set c.namespace (get_labels c) w ≡ (nodes, v)
      → has_no_nodes nodes ≡ false
      → E.get Kind.secret password_of v ≡ (err e, u)
      → check_and_create E L files c info w ≡ (failed e, u)
  unfolding check_and_create check_if_deleted
  check_and_create-err files nodes e w v u leaving listed deployed missing =
      rw (leaving, listed, deployed, drain-err e v u missing) refl
