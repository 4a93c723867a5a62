-- ===== src/Operator/Steps.antt =====
-- internal/controller: the four controllers, and others who act on the cluster, in any order.
use stroom_k8s_operator.Kube.Meta.{NamespacedName}
use stroom_k8s_operator.Kube.Env.{Env, Library}
use stroom_k8s_operator.Metrics.{StroomNodeMetricMap}
use stroom_k8s_operator.Cluster.Files.{StaticFiles}
use stroom_k8s_operator.Cluster.Reconcile
use stroom_k8s_operator.DatabaseServer.Reconcile as Server
use stroom_k8s_operator.Autoscaler.Reconcile as Scaler
use stroom_k8s_operator.Backup
use stroom_k8s_operator.Operator.Calls.{IsSpared}
use stroom_k8s_operator.Operator.Children as ClusterCalls
use stroom_k8s_operator.Operator.Server as ServerCalls
use stroom_k8s_operator.Operator.Scaler as ScalerCalls
use stroom_k8s_operator.Operator.Backup as BackupCalls

-- The world, and the metrics that the autoscaler's reconciler holds.
pub record State (E : Env) : Type 0 where
  pub world : E.World
  pub metrics : StroomNodeMetricMap

module _ (E : Env) (L : Library) (files : StaticFiles) (Others : E.World → E.World → Type 0) where
  -- One call of a controller for some resource, or something that others do.
  pub data Step : State E → State E → Type 0 where
    stroom_cluster :
        (s : State E) (request : NamespacedName)
        → Step s (record s { world = (Reconcile.reconcile E L files request s.world).1 })
    database_server :
        (s : State E) (request : NamespacedName)
        → Step s (record s { world = (Server.reconcile E L request s.world).1 })
    database_backup :
        (s : State E) (request : NamespacedName)
        → Step s (record s { world = (Backup.reconcile E L request s.world).1 })
    stroom_task_autoscaler :
        (s : State E) (request : NamespacedName)
        → Step s (record {
          world = (Scaler.reconcile E L request s.metrics s.world).1;
          metrics = (Scaler.reconcile E L request s.metrics s.world).0.1;
        })
    others : (s : State E) (w : E.World) → Others s.world w → Step s (record s { world = w })

  pub data Reach (s : State E) : State E → Type 0 where
    here : Reach s s
    next : {t u : State E} → Reach s t → Step t u → Reach s u

  module _ (P : E.World → Type 0) (K : IsSpared E P)
      (left : (w v : E.World) → Others w v → P w → P v) where
    Step-kept : {s t : State E} → Step s t → P s.world → P t.world
    Step-kept (stroom_cluster s request) p =
        (ClusterCalls.reconcile-kept E P K L files request).at s.world p
    Step-kept (database_server s request) p =
        (ServerCalls.reconcile-kept E L P K request).at s.world p
    Step-kept (database_backup s request) p =
        (BackupCalls.reconcile-kept E L P K request).at s.world p
    Step-kept (stroom_task_autoscaler s request) p =
        (ScalerCalls.reconcile-kept E L P K request s.metrics).at s.world p
    Step-kept (others s w moved) p = left s.world w moved p

    -- In any sequence of calls of the four controllers, for any resources and with any results of
    -- the calls, a property of the world lasts that reads, MySQL, the clock and the password
    -- generator keep, and of the writes only these: creating a Secret, a ConfigMap, a StatefulSet,
    -- a Service, a ServiceAccount or a CronJob, updating a DatabaseServer or a StroomCluster,
    -- setting a DatabaseServer's status, deleting an Ingress or a claim of a volume, and writing a
    -- ConfigMap, a StatefulSet, a Service or an Ingress. What others do in between keeps it too.
    pub Reach-kept : {s t : State E} → Reach s t → P s.world → P t.world
    Reach-kept here p = p
    Reach-kept (next reached step) p = Step-kept step (Reach-kept reached p)
