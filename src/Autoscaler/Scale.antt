-- ===== src/Autoscaler/Scale.antt =====
-- internal/controller/stroomtaskautoscaler_controller.go: `scaleStroomNode`, with the queries of
-- `getNodeTasks` and `updateNodeTaskLimit`.
pub mod Writes
pub mod Calm
use stroom_k8s_operator.Base.{String, Option, none, some, Bool, List, [], ◌∷◌, if◌then◌else◌}
use stroom_k8s_operator.Base.Int.{ℤ, pos, ℤ_eq}
use stroom_k8s_operator.Base.State.{
  Err, failure, Result, ok, err, error_of, M, pure, ◌>>=◌, ◌>>◌, on,
}
use stroom_k8s_operator.Kube.Meta.{Time, Quantity, NamespacedName, to_string}
use stroom_k8s_operator.Kube.Env.{Env, Library, SqlValue, int, text, null}
use stroom_k8s_operator.Api.StroomCluster.{StroomCluster, NodeSet}
use stroom_k8s_operator.Api.Autoscaler.{StroomTaskAutoscalerSpec}
use stroom_k8s_operator.Database.{
  DatabaseConnectionInfo, get_database_connection_info, open_database, close_database,
}
use stroom_k8s_operator.Metrics.{
  StroomNodeMetricMap, Mean, absent, mean, nil_usage, get_sliding_window_mean,
}
use stroom_k8s_operator.Autoscaler.Limit.{is_outside_bounds, new_task_limit}

-- controllers.NodeTaskStatusProcessing
abbrev pub node_task_status_processing : ℤ
node_task_status_processing = pos 3

-- The statements, with their white space collapsed.
abbrev pub node_tasks_query : String
node_tasks_query =
    "select task_limit, (select count(*) from processor_task pt where pt.fk_processor_node_id=n.id and pt.status=?) as task_count from job_node jn left join job j on jn.job_id=j.id left join node n on n.name=jn.node_name where n.name=? and j.name=?;"

abbrev pub task_limit_update : String
task_limit_update =
    "update job_node jn inner join job j on j.id=jn.job_id set task_limit=? where node_name=? and j.name=?;"

-- A task limit and a number of active tasks.
pub record NodeTasks : Type 0 where
  pub task_limit : ℤ
  pub active_tasks : ℤ

-- `Scan(taskLimit, activeTasks)`: two columns that hold numbers.
unfoldable pub scan_tasks : List SqlValue → Result NodeTasks
scan_tasks (int l ∷ int a ∷ []) = ok (record { task_limit = l; active_tasks = a })
scan_tasks _ = err (failure "sql: Scan error")

abbrev pub scan_row : Result (List SqlValue) → Result NodeTasks
scan_row (ok row) = scan_tasks row
scan_row (err e) = err e

-- What `scaleStroomNode` does: it returns an error or nil, or it panics.
pub data Scaled : Type 0 where
  returned : Option Err → Scaled
  panicked : Scaled

module _ (L : Library) where
  -- int(math.Floor(float64(avgCpuUsage) / float64(cpuLimit.MilliValue()) * 100.0))
  unfoldable pub cpu_percent_of : ℤ → Quantity → ℤ
  cpu_percent_of avg_cpu_usage cpu_limit = L.to_int (
      L.floor (L.mul (L.div (L.float avg_cpu_usage) (L.float (L.milli_value cpu_limit))) L.hundred))

module _ (E : Env) where
  open E use {World}

  unfoldable pub get_node_tasks :
      StroomCluster → DatabaseConnectionInfo → String → String → M World (Result NodeTasks)
  unfolding scan_tasks
  get_node_tasks cluster info node_name task_name =
      on (open_database E info cluster.namespace cluster.spec.app_database_name) (λ e. pure (err e))
        (λ db. do
          row ←
              E.sql_query_row db node_tasks_query
                (int node_task_status_processing ∷ text node_name ∷ text task_name ∷ [])
          close_database E db
          pure (scan_row row))

  unfoldable pub update_node_task_limit :
      StroomCluster → DatabaseConnectionInfo → String → String → ℤ → M World (Option Err)
  update_node_task_limit cluster info node_name task_name task_limit =
      on (open_database E info cluster.namespace cluster.spec.app_database_name)
        (λ e. pure (some e))
        (λ db. do
          done ←
              E.sql_exec db task_limit_update
                (int task_limit ∷ text node_name ∷ text task_name ∷ [])
          close_database E db
          pure (error_of done))

  -- From the tasks on: an error of the query is dropped.
  unfoldable pub adjust :
      StroomCluster
      → NamespacedName
      → StroomTaskAutoscalerSpec
      → DatabaseConnectionInfo
      → ℤ
      → Result NodeTasks
      → M World Scaled
  adjust cluster pod o info cpu_percent (err e) = pure (returned none)
  adjust cluster pod o info cpu_percent (ok tasks) =
      elim (new_task_limit o cpu_percent tasks.active_tasks tasks.task_limit) [
        | none ↦ pure (returned none)
        | some new ↦ if ℤ_eq new tasks.task_limit then pure (returned none) else do
          e ← update_node_task_limit cluster info pod.name o.task_name new
          pure (returned e)
      ]

  -- From the mean CPU usage on.
  unfoldable pub scale_at :
      StroomCluster → NamespacedName → StroomTaskAutoscalerSpec → ℤ → M World Scaled
  unfolding adjust
  scale_at cluster pod o cpu_percent =
      if is_outside_bounds o cpu_percent
      then on (get_database_connection_info E cluster.spec.database_server_ref cluster.namespace)
          (λ e. pure (returned (some e)))
          (λ info. do
            tasks ← get_node_tasks cluster info pod.name o.task_name
            adjust cluster pod o info cpu_percent tasks)
      else pure (returned none)

module _ (E : Env) (L : Library) where
  open E use {World}

  unfoldable pub scale_stroom_node :
      StroomCluster
      → NodeSet
      → NamespacedName
      → StroomTaskAutoscalerSpec
      → Time
      → StroomNodeMetricMap
      → M World Scaled
  unfolding scale_at cpu_percent_of
  scale_stroom_node cluster node_set pod o current_time m = elim (L.limits_cpu node_set.resources) [
    | none ↦ pure (returned none)
    | some cpu_limit ↦
        elim (get_sliding_window_mean L.milli_value (to_string pod) o.metrics_sliding_window_mins
          current_time m) [
            | absent ↦ pure (returned none)
            | nil_usage ↦ pure panicked
            | mean avg_cpu_usage ↦
                scale_at E cluster pod o (cpu_percent_of L avg_cpu_usage cpu_limit)
          ]
  ]
