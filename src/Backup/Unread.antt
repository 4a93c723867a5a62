-- ===== src/Backup/Unread.antt =====
-- internal/controller/databasebackup_controller.go: a DatabaseBackup that cannot be read.
use mathlib.Core.Path.{subst}
use stroom_k8s_operator.Base.{◌≡◌, refl, sym, ◌≢◌, string_eq}
use stroom_k8s_operator.Base.State.{
  Err, not_found, bad_request, failure, ok, err, pure, on_ok, on_err, on_cases,
}
use stroom_k8s_operator.Kube.Meta.{NamespacedName}
use stroom_k8s_operator.Kube.Core.{CronJob}
use stroom_k8s_operator.Kube.Env.{Env, Kind, Library}
use stroom_k8s_operator.Kube.Outcome.{Outcome, done, failed, requeued}
use stroom_k8s_operator.Api.Common.{is_zero}
use stroom_k8s_operator.Api.DatabaseBackup.{get_base_name, empty_database_backup}
use stroom_k8s_operator.Database.{
  DatabaseConnectionInfo, external_connection, get_database_connection_info,
}
use stroom_k8s_operator.Backup.{
  create_cron_job, missing, unread, get_or_create_cron_job, reconcile_backup, reconcile,
}

-- The connection of a backup that names no database.
abbrev pub no_connection : DatabaseConnectionInfo
no_connection = external_connection empty_database_backup.spec.database_server_ref

-- The key of the CronJob of a backup without a name.
abbrev pub empty_key : NamespacedName
empty_key = record { namespace = ""; name = get_base_name empty_database_backup }

module _ (E : Env) (L : Library) where
  empty_connection :
      (w : E.World)
      → get_database_connection_info E empty_database_backup.spec.database_server_ref "" w
        ≡ (ok no_connection, w)
  unfolding get_database_connection_info is_zero string_eq
  empty_connection w = refl

  -- How a call goes on from a world without the backup: it finds a CronJob of a backup without a
  -- name; or cannot tell; or creates one; or fails to create one. Each with its result, and the
  -- world that the last call left.
  pub data Continues (t : E.World) : Outcome → E.World → Type 0 where
    found :
        (job : CronJob) (u : E.World)
        → E.get Kind.cron_job_v1beta1 empty_key t ≡ (ok job, u)
        → Continues t done u
    unknown :
        (e : Err) (u : E.World)
        → e ≢ not_found
        → E.get Kind.cron_job_v1beta1 empty_key t ≡ (err e, u)
        → Continues t (failed e) u
    created :
        (job : CronJob) (u v : E.World)
        → E.get Kind.cron_job_v1beta1 empty_key t ≡ (err not_found, u)
        → E.create Kind.cron_job_v1 (create_cron_job L empty_database_backup no_connection) u
          ≡ (ok job, v)
        → Continues t requeued v
    refused :
        (e : Err) (u v : E.World)
        → E.get Kind.cron_job_v1beta1 empty_key t ≡ (err not_found, u)
        → E.create Kind.cron_job_v1 (create_cron_job L empty_database_backup no_connection) u
          ≡ (err e, v)
        → Continues t (failed e) v

  abbrev Goes : E.World → Outcome × E.World → Type 0
  Goes t r = Continues t r.0 r.1

  missing-Continues :
      (e : Err) (t u : E.World)
      → E.get Kind.cron_job_v1beta1 empty_key t ≡ (err e, u)
      → Goes t (missing E L empty_database_backup no_connection e u)
  missing-Continues (bad_request m) t u h = unknown (bad_request m) u (λ q. cc) h
  missing-Continues (failure m) t u h = unknown (failure m) u (λ q. cc) h
  missing-Continues not_found t u h =
      let made =
        E.create Kind.cron_job_v1 (create_cron_job L empty_database_backup no_connection) in
      on_cases (Goes t) made (λ e. pure (failed e)) (λ _. pure requeued) u
        (λ e broken. refused e u (made u).1 h (λ i. (broken i, (made u).1)))
        (λ job done'. created job u (made u).1 h (λ i. (done' i, (made u).1)))

  reconcile_backup-Continues : (t : E.World) → Goes t (reconcile_backup E L empty_database_backup t)
  unfolding reconcile_backup get_or_create_cron_job
  reconcile_backup-Continues t =
      let look = E.get Kind.cron_job_v1beta1 empty_key in
      subst (Goes t)
        (sym (
          on_ok (get_database_connection_info E empty_database_backup.spec.database_server_ref "")
            (λ e. pure (failed e)) (λ info. get_or_create_cron_job E L empty_database_backup info) t
            t no_connection (empty_connection t)))
        (on_cases (Goes t) look (missing E L empty_database_backup no_connection) (λ _. pure done) t
          (λ e broken. missing-Continues e t (look t).1 (λ i. (broken i, (look t).1)))
          (λ job read. found job (look t).1 (λ i. (read i, (look t).1))))

  unread-Continues : (e : Err) (t : E.World) → e ≢ not_found → Goes t (unread E L e t)
  unread-Continues not_found t other = absurd (other refl)
  unread-Continues (bad_request m) t other = reconcile_backup-Continues t
  unread-Continues (failure m) t other = reconcile_backup-Continues t

  -- If a backup cannot be read, for any reason other than that it does not exist, `Reconcile` drops
  -- that error and goes on: it looks for the CronJob of a backup without a name, in the empty
  -- namespace, and returns done if there is one, and the error of that Get if it is another one than
  -- not found; otherwise it creates the CronJob of the empty backup, and asks to be called again,
  -- or returns the error of the creation.
  pub reconcile-Continues :
      (request : NamespacedName) (e : Err) (w t : E.World)
      → e ≢ not_found
      → E.get Kind.database_backup request w ≡ (err e, t)
      → Continues t (reconcile E L request w).0 (reconcile E L request w).1
  unfolding reconcile
  reconcile-Continues request e w t other broken =
      subst (Goes t)
        (sym (
          on_err (E.get Kind.database_backup request) (unread E L) (reconcile_backup E L) w t e
            broken))
        (unread-Continues e t other)
