-- ===== src/Cluster/Reconcile/Draining.antt =====
-- internal/controller/stroomcluster_controller.go: a cluster that is being deleted while its nodes
-- still work.
use stroom_k8s_operator.Base.{
  String, ◌≡◌, refl, sym, ◌⊎◌, true, false, none, some, List, [], ◌∷◌, inl, inr, if◌then◌else◌,
  string_eq,
}
use stroom_k8s_operator.Base.Int.{ℤ, pos}
use stroom_k8s_operator.Base.Dict.{Dict}
use stroom_k8s_operator.Base.State.{Err, Result, ok, err, M, pure, on_cases}
use stroom_k8s_operator.Base.Keeps.{Keeps, keeps_rules}
use stroom_k8s_operator.Kube.Meta.{Labels, NamespacedName}
use stroom_k8s_operator.Kube.Env.{Env, Kind, Library, SqlValue, int}
use stroom_k8s_operator.Kube.Outcome.{Outcome, failed, after_seconds}
use stroom_k8s_operator.Api.StroomCluster.{StroomCluster, is_being_deleted, get_labels}
use stroom_k8s_operator.Database.{DatabaseConnectionInfo, open_database}
use stroom_k8s_operator.Autoscaler.Scale.{node_task_status_processing}
use stroom_k8s_operator.Cluster.Tasks.{
  disable_tasks_statement, active_tasks_query, disable_task_processing, count_remaining_tasks,
}
use stroom_k8s_operator.Cluster.Deletion.{
  Checked, is_empty, has_no_nodes, drain, allow_deletion, checked, check_if_deleted,
}
use stroom_k8s_operator.Cluster.Files.{StaticFiles}
use stroom_k8s_operator.Cluster.Reconcile.{stops, go_on, create_children, check_and_create}
use stroom_k8s_operator.Cluster.Tasks.Counting.{IsBusy, IsUndrained, collected-IsUndrained}

-- A property of the world that reading keeps, and switching the processing of tasks off, under
-- which the cluster has nodes, and the query of active tasks fails or reports some.
pub record IsKept (E : Env) (c : StroomCluster) (P : E.World → Type 0) : Type 0 where
  pub get : (k : Kind) (n : NamespacedName) → Keeps P (E.get k n)
  pub list : (n : String) (l : Labels) → Keeps P (E.list Kind.stateful_set n l)
  pub sql_open : (s : String) → Keeps P (E.sql_open s)
  pub sql_close : (db : E.Db) → Keeps P (E.sql_close db)
  pub sql_exec :
      (db : E.Db) (args : List SqlValue) → Keeps P (E.sql_exec db disable_tasks_statement args)
  pub sql_query :
      (db : E.Db) (args : List SqlValue) → Keeps P (E.sql_query db active_tasks_query args)
  pub deployed :
      (w : E.World)
      → P w
      → has_no_nodes (E.list Kind.stateful_set c.namespace (get_labels c) w).0 ≡ false
  pub busy :
      (db : E.Db) (w : E.World)
      → P w
      → IsBusy (E.sql_query db active_tasks_query (int node_task_status_processing ∷ []) w).0

-- What `Reconcile` does after the check: it waits for a minute, or fails.
abbrev pub Waits : Checked → Type 0
Waits r = (stops r ≡ some (after_seconds (pos 60))) ⊎ ((e : Err) × (stops r ≡ some (failed e)))

module _ (E : Env) (c : StroomCluster) (P : E.World → Type 0) (K : IsKept E c P) where
  abbrev IsWaiting : Checked × E.World → Type 0
  IsWaiting r = Waits r.0 × P r.1

  open_database-kept :
      (info : DatabaseConnectionInfo) (n d : String) → Keeps P (open_database E info n d)
  unfolding open_database
  open_database-kept info n d = search (keeps_rules, K.get, K.sql_open)

  disable_task_processing-kept :
      (info : DatabaseConnectionInfo) → Keeps P (disable_task_processing E c info)
  unfolding disable_task_processing
  disable_task_processing-kept info =
      search (keeps_rules, open_database-kept, K.sql_exec, K.sql_close)

  count_remaining_tasks-busy :
      (info : DatabaseConnectionInfo) (w : E.World)
      → P w
      → IsUndrained (count_remaining_tasks E c info w).0 × P (count_remaining_tasks E c info w).1
  unfolding count_remaining_tasks
  count_remaining_tasks-busy info w p =
      let opened = open_database E info c.namespace c.spec.app_database_name in
      let p' = (open_database-kept info c.namespace c.spec.app_database_name).at w p in
      on_cases (λ r. IsUndrained r.0 × P r.1) opened _ _ w (λ e _. (tt, p'))
        (λ db _. (
          collected-IsUndrained _ (K.busy db _ p'),
          (K.sql_close db).at _ ((K.sql_query db _).at _ p'),
        ))

  undrained_error :
      (r : Result (Dict String ℤ)) (tasks : Dict String ℤ)
      → IsUndrained r
      → r ≡ ok tasks
      → is_empty tasks ≡ false
  undrained_error (ok found) tasks more e = let same : found ≡ tasks = cc in rw (sym same) more
  undrained_error (err x) tasks more e = cc

  after_count :
      (L : Library) (info : DatabaseConnectionInfo) (tasks : Dict String ℤ) (w : E.World)
      → is_empty tasks ≡ false
      → P w
      → IsWaiting (
          (if is_empty tasks
              then allow_deletion E L c info
              else pure (checked c info true true none))
            w)
  after_count L info tasks w more p = rw more (inl refl, p)

  drain-IsWaiting :
      (L : Library) (info : DatabaseConnectionInfo) (w : E.World)
      → P w
      → IsWaiting (drain E L c info w)
  unfolding drain
  drain-IsWaiting L info w p =
      let p' = (disable_task_processing-kept info).at w p in
      let busy = count_remaining_tasks-busy info (disable_task_processing E c info w).1 p' in
      on_cases IsWaiting (disable_task_processing E c info) _ _ w (λ e _. (inr (e, refl), p'))
        (λ _ _.
          on_cases IsWaiting (count_remaining_tasks E c info) _ _ _ (λ e _. (inr (e, refl), busy.1))
            (λ tasks found.
              after_count L info tasks _ (undrained_error _ tasks busy.0 found) busy.1))

  check_if_deleted-IsWaiting :
      (L : Library) (info : DatabaseConnectionInfo) (w : E.World)
      → is_being_deleted c ≡ true
      → P w
      → IsWaiting (check_if_deleted E L c info w)
  unfolding check_if_deleted
  check_if_deleted-IsWaiting L info w h p =
      rw (h, K.deployed w p) (drain-IsWaiting L info _ ((K.list _ _).at w p))

  go_on-Waits :
      (L : Library) (r : Checked) (m : M E.World Outcome) (w : E.World)
      → Waits r
      → P w
      → ((go_on E L (stops r) m w).0 ≡ after_seconds (pos 60)
          ⊎ ((e : Err) × ((go_on E L (stops r) m w).0 ≡ failed e)))
        × P (go_on E L (stops r) m w).1
  go_on-Waits L r m w (inl minute) p = rw minute (inl refl, p)
  go_on-Waits L r m w (inr (e, broken)) p = rw broken (inr (e, refl), p)

  -- A cluster that is being deleted, that has nodes, and whose query of active tasks fails or
  -- reports a node with some: from the check on, `Reconcile` asks to be called again in a minute,
  -- or fails, and it only reads, and switches the processing of tasks off. No finalizer is removed
  -- and no object deleted, updated or created.
  pub check_and_create-waits :
      (L : Library) (files : StaticFiles) (info : DatabaseConnectionInfo) (w : E.World)
      → is_being_deleted c ≡ true
      → P w
      → (((check_and_create E L files c info w).0 ≡ after_seconds (pos 60))
          ⊎ ((e : Err) × ((check_and_create E L files c info w).0 ≡ failed e)))
        × P (check_and_create E L files c info w).1
  unfolding check_and_create
  check_and_create-waits L files info w h p =
      let r = check_if_deleted E L c info w in
      let s = check_if_deleted-IsWaiting L info w h p in
      go_on-Waits L r.0 (create_children E L files r.0.cluster r.0.info) r.1 s.0 s.1
