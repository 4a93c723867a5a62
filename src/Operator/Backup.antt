-- ===== src/Operator/Backup.antt =====
-- internal/controller/databasebackup_controller.go: the calls of `Reconcile`.
use stroom_k8s_operator.Base.State.{Err, not_found, bad_request, failure, pure}
use stroom_k8s_operator.Base.Keeps.{Keeps, Keeps-pure, Keeps-on, keeps_rules}
use stroom_k8s_operator.Kube.Meta.{NamespacedName}
use stroom_k8s_operator.Kube.Env.{Env, Kind, Library}
use stroom_k8s_operator.Kube.Outcome.{done, failed}
use stroom_k8s_operator.Api.DatabaseBackup.{DatabaseBackup, empty_database_backup, get_base_name}
use stroom_k8s_operator.Database.{DatabaseConnectionInfo}
use stroom_k8s_operator.Backup.{
  missing, get_or_create_cron_job, reconcile_backup, unread, reconcile,
}
use stroom_k8s_operator.Operator.Calls.{IsSpared, get_database_connection_info-kept}

module _ (E : Env) (L : Library) (P : E.World → Type 0) (K : IsSpared E P) where
  missing-kept :
      (b : DatabaseBackup) (info : DatabaseConnectionInfo) (e : Err)
      → Keeps P (missing E L b info e)
  missing-kept b info not_found = search (keeps_rules, K.create_cron_job)
  missing-kept b info (bad_request m) = Keeps-pure (failed (bad_request m))
  missing-kept b info (failure m) = Keeps-pure (failed (failure m))

  get_or_create_cron_job-kept :
      (b : DatabaseBackup) (info : DatabaseConnectionInfo)
      → Keeps P (get_or_create_cron_job E L b info)
  unfolding get_or_create_cron_job
  get_or_create_cron_job-kept b info =
      Keeps-on
        (E.get Kind.cron_job_v1beta1 (record { namespace = b.namespace; name = get_base_name b }))
        (missing E L b info) (λ _. pure done) (K.get Kind.cron_job_v1beta1 _) (missing-kept b info)
        (λ _. Keeps-pure done)

  reconcile_backup-kept : (b : DatabaseBackup) → Keeps P (reconcile_backup E L b)
  unfolding reconcile_backup
  reconcile_backup-kept b =
      let connects =
        get_database_connection_info-kept E P K b.spec.database_server_ref b.namespace in
      search (keeps_rules, connects, get_or_create_cron_job-kept)

  unread-kept : (e : Err) → Keeps P (unread E L e)
  unread-kept not_found = Keeps-pure done
  unread-kept (bad_request m) = reconcile_backup-kept empty_database_backup
  unread-kept (failure m) = reconcile_backup-kept empty_database_backup

  pub reconcile-kept : (request : NamespacedName) → Keeps P (reconcile E L request)
  unfolding reconcile
  reconcile-kept request =
      Keeps-on (E.get Kind.database_backup request) (unread E L) (reconcile_backup E L)
        (K.get Kind.database_backup request) unread-kept reconcile_backup-kept
