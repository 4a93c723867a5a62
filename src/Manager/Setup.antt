-- ===== src/Manager/Setup.antt =====
-- internal/controller: `SetupWithManager` of the four controllers.
use stroom_k8s_operator.Base.{[], ◌∷◌}
use stroom_k8s_operator.Base.State.{Result, M}
use stroom_k8s_operator.Kube.Env.{Kind}
use stroom_k8s_operator.Metrics.{new_node_metric_map}
use stroom_k8s_operator.Manager.Runtime.{Runtime, Reconciler}

module _ (R : Runtime) where
  open R use {World, Mgr}

  unfoldable pub stroom_cluster : Mgr → M World (Result (Unit {0}))
  stroom_cluster mgr =
      R.complete mgr (record { reconciles = Kind.stroom_cluster; owns = Kind.stateful_set ∷ [] })
        Reconciler.stroom_cluster

  unfoldable pub database_server : Mgr → M World (Result (Unit {0}))
  database_server mgr =
      R.complete mgr (record { reconciles = Kind.database_server; owns = Kind.stateful_set ∷ [] })
        Reconciler.database_server

  -- The metrics are made here.
  unfoldable pub stroom_task_autoscaler : Mgr → M World (Result (Unit {0}))
  stroom_task_autoscaler mgr =
      R.complete mgr (record { reconciles = Kind.stroom_task_autoscaler; owns = [] })
        (Reconciler.stroom_task_autoscaler new_node_metric_map)

  unfoldable pub database_backup : Mgr → M World (Result (Unit {0}))
  database_backup mgr =
      R.complete mgr (record { reconciles = Kind.database_backup; owns = [] })
        Reconciler.database_backup
