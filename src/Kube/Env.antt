-- ===== src/Kube/Env.antt =====
-- What the operator is given: the API server behind controller-runtime's client, MySQL behind
-- database/sql, the clock, and the pure functions of apimachinery and controller-runtime.
-- Every call may find another world than the last one left, since others act on the cluster.
use stroom_k8s_operator.Base.{String, Bool, Option, List}
use stroom_k8s_operator.Base.Int.{ℤ}
use stroom_k8s_operator.Base.State.{Result, M}
use stroom_k8s_operator.Kube.Meta.{
  Time, Quantity, Labels, NamespacedName, OwnerReference, ObjectMeta,
}
use stroom_k8s_operator.Kube.Core.{
  ResourceRequirements, StatefulSet, Secret, ConfigMap, ServiceAccount, Service, Ingress,
  PersistentVolumeClaim, CronJob, Pod, PodMetrics,
}
use stroom_k8s_operator.Api.DatabaseServer.{DatabaseServer}
use stroom_k8s_operator.Api.StroomCluster.{StroomCluster}
use stroom_k8s_operator.Api.Autoscaler.{StroomTaskAutoscaler}
use stroom_k8s_operator.Api.DatabaseBackup.{DatabaseBackup}

pub data Kind : Type 0 where
  database_server stroom_cluster stroom_task_autoscaler database_backup : Kind
  secret config_map stateful_set service service_account ingress : Kind
  persistent_volume_claim cron_job_v1 cron_job_v1beta1 pod pod_metrics : Kind

abbrev pub Object : Kind → Type 0
Object Kind.database_server = DatabaseServer
Object Kind.stroom_cluster = StroomCluster
Object Kind.stroom_task_autoscaler = StroomTaskAutoscaler
Object Kind.database_backup = DatabaseBackup
Object Kind.secret = Secret
Object Kind.config_map = ConfigMap
Object Kind.stateful_set = StatefulSet
Object Kind.service = Service
Object Kind.service_account = ServiceAccount
Object Kind.ingress = Ingress
Object Kind.persistent_volume_claim = PersistentVolumeClaim
Object Kind.cron_job_v1 = CronJob
Object Kind.cron_job_v1beta1 = CronJob
Object Kind.pod = Pod
Object Kind.pod_metrics = PodMetrics

-- The metadata that every object embeds.
abbrev pub meta : (k : Kind) → Object k → ObjectMeta
meta Kind.database_server o = o.meta
meta Kind.stroom_cluster o = o.meta
meta Kind.stroom_task_autoscaler o = o.meta
meta Kind.database_backup o = o.meta
meta Kind.secret o = o.meta
meta Kind.config_map o = o.meta
meta Kind.stateful_set o = o.meta
meta Kind.service o = o.meta
meta Kind.service_account o = o.meta
meta Kind.ingress o = o.meta
meta Kind.persistent_volume_claim o = o.meta
meta Kind.cron_job_v1 o = o.meta
meta Kind.cron_job_v1beta1 o = o.meta
meta Kind.pod o = o.meta
meta Kind.pod_metrics o = o.meta

abbrev pub with_meta : (k : Kind) → Object k → ObjectMeta → Object k
with_meta Kind.database_server o m = record o { meta = m }
with_meta Kind.stroom_cluster o m = record o { meta = m }
with_meta Kind.stroom_task_autoscaler o m = record o { meta = m }
with_meta Kind.database_backup o m = record o { meta = m }
with_meta Kind.secret o m = record o { meta = m }
with_meta Kind.config_map o m = record o { meta = m }
with_meta Kind.stateful_set o m = record o { meta = m }
with_meta Kind.service o m = record o { meta = m }
with_meta Kind.service_account o m = record { meta = m }
with_meta Kind.ingress o m = record o { meta = m }
with_meta Kind.persistent_volume_claim o m = record o { meta = m }
with_meta Kind.cron_job_v1 o m = record o { meta = m }
with_meta Kind.cron_job_v1beta1 o m = record o { meta = m }
with_meta Kind.pod o m = record { meta = m }
with_meta Kind.pod_metrics o m = record o { meta = m }

abbrev pub key_of : (k : Kind) → Object k → NamespacedName
key_of k o = record { namespace = (meta k o).namespace; name = (meta k o).name }

-- controllerutil.OperationResult
pub data OperationResult : Type 0 where
  unchanged created updated : OperationResult

-- A column of a row, or an argument of a statement.
pub data SqlValue : Type 0 where
  null : SqlValue
  int : ℤ → SqlValue
  text : String → SqlValue

pub record Env : Type 1 where
  pub World : Type 0
  pub get : (k : Kind) → NamespacedName → M World (Result (Object k))
  pub list : (k : Kind) → String → Labels → M World (Result (List (Object k)))
  pub create : (k : Kind) → Object k → M World (Result (Object k))
  -- The object as the server returns it, which replaces the caller's.
  pub update : (k : Kind) → Object k → M World (Result (Object k))
  pub update_status : (k : Kind) → Object k → M World (Result (Object k))
  pub delete : (k : Kind) → Object k → M World (Result (Unit {0}))
  -- controllerutil.CreateOrUpdate with its function, which returns the object to store. The
  -- second part of the result is the object that the function was given.
  pub create_or_update :
      (k : Kind) → Object k → (Object k → Object k) → M World (Result (OperationResult × Object k))
  pub Db : Type 0
  pub sql_open : String → M World (Result Db)
  pub sql_close : Db → M World (Result (Unit {0}))
  pub sql_exec : Db → String → List SqlValue → M World (Result (Unit {0}))
  -- The rows that `Next` delivers, until it returns false.
  pub sql_query : Db → String → List SqlValue → M World (Result (List (List SqlValue)))
  -- The one row, or the error that `Scan` reports.
  pub sql_query_row : Db → String → List SqlValue → M World (Result (List SqlValue))
  pub now : M World Time
  -- password.MustGenerate(length, digits, symbols, noUpper, allowRepeat)
  pub must_generate : ℤ → ℤ → ℤ → Bool → Bool → M World String

pub record Library : Type 1 where
  pub contains_finalizer : ObjectMeta → String → Bool
  pub add_finalizer : ObjectMeta → String → ObjectMeta
  pub remove_finalizer : ObjectMeta → String → ObjectMeta
  -- The metadata with the owner set, or an error.
  pub set_controller_reference : OwnerReference → ObjectMeta → Result ObjectMeta
  -- Limits.Cpu()
  pub limits_cpu : ResourceRequirements → Option Quantity
  pub milli_value : Quantity → ℤ
  -- ResourceRequirements.Size(), the length of its encoding.
  pub size : ResourceRequirements → ℤ
  -- float64
  pub Float : Type 0
  pub float : ℤ → Float
  pub hundred : Float
  pub div : Float → Float → Float
  pub mul : Float → Float → Float
  pub floor : Float → Float
  pub to_int : Float → ℤ
