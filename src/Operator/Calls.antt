-- ===== src/Operator/Calls.antt =====
-- The calls that the controllers make, kind by kind.
use stroom_k8s_operator.Base.{String, Bool, List}
use stroom_k8s_operator.Base.Int.{ℤ}
use stroom_k8s_operator.Base.Keeps.{Keeps, keeps_rules}
use stroom_k8s_operator.Kube.Meta.{Labels, NamespacedName}
use stroom_k8s_operator.Kube.Core.{
  StatefulSet, Secret, ConfigMap, ServiceAccount, Service, Ingress, PersistentVolumeClaim, CronJob,
}
use stroom_k8s_operator.Kube.Env.{Env, Kind, SqlValue}
use stroom_k8s_operator.Api.Common.{DatabaseServerRef}
use stroom_k8s_operator.Api.DatabaseServer.{DatabaseServer}
use stroom_k8s_operator.Api.StroomCluster.{StroomCluster}
use stroom_k8s_operator.Database.{
  DatabaseConnectionInfo, get_database_connection_info, open_database,
}

-- A property of the world that every call of the program keeps: all reads, MySQL, the clock and
-- the password generator, and of the writes those on these kinds of objects only.
pub record IsSpared (E : Env) (P : E.World → Type 0) : Type 0 where
  pub get : (k : Kind) (n : NamespacedName) → Keeps P (E.get k n)
  pub list : (k : Kind) (n : String) (l : Labels) → Keeps P (E.list k n l)
  pub now : Keeps P E.now
  pub must_generate : (n d s : ℤ) (u r : Bool) → Keeps P (E.must_generate n d s u r)
  pub sql_open : (s : String) → Keeps P (E.sql_open s)
  pub sql_close : (db : E.Db) → Keeps P (E.sql_close db)
  pub sql_exec : (db : E.Db) (s : String) (args : List SqlValue) → Keeps P (E.sql_exec db s args)
  pub sql_query : (db : E.Db) (s : String) (args : List SqlValue) → Keeps P (E.sql_query db s args)
  pub sql_query_row :
      (db : E.Db) (s : String) (args : List SqlValue) → Keeps P (E.sql_query_row db s args)
  pub create_secret : (o : Secret) → Keeps P (E.create Kind.secret o)
  pub create_config_map : (o : ConfigMap) → Keeps P (E.create Kind.config_map o)
  pub create_stateful_set : (o : StatefulSet) → Keeps P (E.create Kind.stateful_set o)
  pub create_service : (o : Service) → Keeps P (E.create Kind.service o)
  pub create_service_account : (o : ServiceAccount) → Keeps P (E.create Kind.service_account o)
  pub create_cron_job : (o : CronJob) → Keeps P (E.create Kind.cron_job_v1 o)
  pub update_server : (o : DatabaseServer) → Keeps P (E.update Kind.database_server o)
  pub update_cluster : (o : StroomCluster) → Keeps P (E.update Kind.stroom_cluster o)
  pub update_status : (o : DatabaseServer) → Keeps P (E.update_status Kind.database_server o)
  pub delete_ingress : (o : Ingress) → Keeps P (E.delete Kind.ingress o)
  pub delete_claim : (o : PersistentVolumeClaim) → Keeps P (E.delete Kind.persistent_volume_claim o)
  pub write_config_map :
      (o : ConfigMap) (f : ConfigMap → ConfigMap) → Keeps P (E.create_or_update Kind.config_map o f)
  pub write_stateful_set :
      (o : StatefulSet) (f : StatefulSet → StatefulSet)
      → Keeps P (E.create_or_update Kind.stateful_set o f)
  pub write_service :
      (o : Service) (f : Service → Service) → Keeps P (E.create_or_update Kind.service o f)
  pub write_ingress :
      (o : Ingress) (f : Ingress → Ingress) → Keeps P (E.create_or_update Kind.ingress o f)

module _ (E : Env) (P : E.World → Type 0) (K : IsSpared E P) where
  pub get_database_connection_info-kept :
      (ref : DatabaseServerRef) (namespace : String)
      → Keeps P (get_database_connection_info E ref namespace)
  unfolding get_database_connection_info
  get_database_connection_info-kept ref namespace = search (keeps_rules, K.get)

  pub open_database-kept :
      (info : DatabaseConnectionInfo) (n d : String) → Keeps P (open_database E info n d)
  unfolding open_database
  open_database-kept info n d = search (keeps_rules, K.get, K.sql_open)
