-- ===== src/Cluster/Tasks.antt =====
-- internal/controller/stroomcluster_controller.go: `disableTaskProcessing` and
-- `countRemainingTasks`.
pub mod Counting
use stroom_k8s_operator.Base.{String, ◌<>◌, List, [], ◌∷◌, string_eq, if◌then◌else◌}
use stroom_k8s_operator.Base.Int.{ℤ, pos, ltb_ℤ}
use stroom_k8s_operator.Base.Dict.{Dict, insert}
use stroom_k8s_operator.Base.State.{failure, Result, ok, err, M, pure, ◌>>=◌, ◌>>◌, on}
use stroom_k8s_operator.Kube.Env.{Env, SqlValue, int, text}
use stroom_k8s_operator.Api.StroomCluster.{StroomCluster, get_base_name}
use stroom_k8s_operator.Database.{DatabaseConnectionInfo, open_database, close_database}
use stroom_k8s_operator.Autoscaler.Scale.{node_task_status_processing}

abbrev pub disable_tasks_statement : String
disable_tasks_statement = "update job_node set enabled = 0 where node_name like ?"

abbrev pub active_tasks_query : String
active_tasks_query =
    "select n.name as node_name, count(*) as task_count from processor_task pt inner join node n on n.id = pt.fk_processor_node_id where pt.status = ? group by n.name"

-- `Scan(&nodeName, &taskCount)`: a text and a number.
unfoldable pub scan_count : List SqlValue → Result (String × ℤ)
scan_count (text node_name ∷ int task_count ∷ []) = ok (node_name, task_count)
scan_count _ = err (failure "sql: Scan error")

abbrev pub record_count : String × ℤ → Dict String ℤ → Dict String ℤ
record_count row tasks = if ltb_ℤ (pos 0) row.1 then insert row.0 row.1 tasks else tasks

-- The loop over the rows.
unfoldable pub collect_tasks : List (List SqlValue) → Dict String ℤ → Result (Dict String ℤ)
unfolding insert scan_count
collect_tasks [] tasks = ok tasks
collect_tasks (row ∷ rows) tasks = elim (scan_count row) [
  | ok counted ↦ collect_tasks rows (record_count counted tasks)
  | err e ↦ err e
]

abbrev pub collected : Result (List (List SqlValue)) → Result (Dict String ℤ)
collected (ok rows) = collect_tasks rows []
collected (err e) = err e

module _ (E : Env) where
  open E use {World}

  unfoldable pub disable_task_processing :
      StroomCluster → DatabaseConnectionInfo → M World (Result (Unit {0}))
  disable_task_processing c info =
      on (open_database E info c.namespace c.spec.app_database_name) (λ e. pure (err e))
        (λ db. do
          done ← E.sql_exec db disable_tasks_statement (text (get_base_name c <> "%") ∷ [])
          close_database E db
          pure done)

  -- `remainingTasks`, which is empty at the call.
  unfoldable pub count_remaining_tasks :
      StroomCluster → DatabaseConnectionInfo → M World (Result (Dict String ℤ))
  unfolding collect_tasks
  count_remaining_tasks c info =
      on (open_database E info c.namespace c.spec.app_database_name) (λ e. pure (err e))
        (λ db. do
          rows ← E.sql_query db active_tasks_query (int node_task_status_processing ∷ [])
          close_database E db
          pure (collected rows))
