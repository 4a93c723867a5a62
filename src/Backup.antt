-- ===== src/Backup.antt =====
-- internal/controller/databasebackup.go and databasebackup_controller.go.
pub mod Unread
use stroom_k8s_operator.Base.{String, ◌<>◌, List, [], ◌∷◌, false}
use stroom_k8s_operator.Base.Int.{pos}
use stroom_k8s_operator.Base.Text.{itoa, join}
use stroom_k8s_operator.Base.State.{Err, not_found, M, pure, on}
use stroom_k8s_operator.Kube.Meta.{OwnerReference, NamespacedName, empty_meta}
use stroom_k8s_operator.Kube.Core.{CronJob, EnvValue, empty_container, empty_pod_spec}
use stroom_k8s_operator.Kube.Env.{Env, Kind, Library}
use stroom_k8s_operator.Kube.Owner.{controlled}
use stroom_k8s_operator.Kube.Outcome.{Outcome, done, failed, requeued}
use stroom_k8s_operator.Api.Common.{image_string}
use stroom_k8s_operator.Api.DatabaseBackup.{
  DatabaseBackup, get_base_name, get_labels, empty_database_backup,
}
use stroom_k8s_operator.Database.{DatabaseConnectionInfo, get_database_connection_info}

abbrev owner : DatabaseBackup → OwnerReference
owner b = record { kind = "DatabaseBackup"; name = b.name }

abbrev backup_directory : String
backup_directory = "/var/lib/mysql/backup/$(date +'%Y-%m')"

-- `path.Join` of the directory and the archive's file name, for a name without a slash.
archive_path : DatabaseBackup → String
archive_path b = backup_directory <> "/$(date +'" <> b.name <> "_%Y-%m-%d_%H-%M-%S.sql.gz')"

unfoldable pub mysql_dump_command : List String → String
unfolding join
mysql_dump_command names =
    "mysqldump --user=${MYSQL_USER} --password=${MYSQL_PASSWORD} --host=${MYSQL_HOST} --port=${MYSQL_PORT} --single-transaction --no-tablespaces"
    <> elim names [
      | name ∷ rest ↦ " --databases " <> join (name ∷ rest) " "
      | [] ↦ " --all-databases"
    ]

unfoldable pub plain_text_database_list : List String → String
unfolding join
plain_text_database_list names = elim names [
  | name ∷ rest ↦ "databases (" <> join (name ∷ rest) "," <> ")"
  | [] ↦ "all databases"
]

backup_script : DatabaseBackup → String
unfolding archive_path mysql_dump_command plain_text_database_list
backup_script b =
    "archivePath=\""
    <> archive_path b
    <> "\"\necho \"Backing up "
    <> plain_text_database_list b.spec.database_names
    <> " to: $archivePath\"\nmkdir -p "
    <> backup_directory
    <> "\n"
    <> mysql_dump_command b.spec.database_names
    <> " | gzip > \"$archivePath\"\nif [ -f \"$archivePath\" ]; then\n  chmod 444 \"$archivePath\"\n  echo \"Backup successful\"\nfi"

unfoldable pub create_cron_job : Library → DatabaseBackup → DatabaseConnectionInfo → CronJob
unfolding backup_script
create_cron_job L b info = record {
  meta = controlled L (owner b) (record empty_meta {
    name = get_base_name b;
    namespace = b.namespace;
    labels = get_labels b;
  });
  spec = record {
    schedule = b.spec.schedule;
    concurrency_policy = "Forbid";
    ttl_seconds_after_finished = pos 300;
    template = record empty_pod_spec {
      restart_policy = "OnFailure";
      containers =
          record empty_container {
            name = "backup-job";
            image = image_string b.spec.image;
            image_pull_policy = b.spec.image_pull_policy;
            command = "bash" ∷ "-c" ∷ backup_script b ∷ [];
            env =
                record { name = "MYSQL_HOST"; value_from = EnvValue.value info.host }
                ∷ record { name = "MYSQL_PORT"; value_from = EnvValue.value (itoa info.port) }
                ∷ record { name = "MYSQL_USER"; value_from = EnvValue.value info.user_name }
                ∷ record {
                  name = "MYSQL_PASSWORD";
                  value_from =
                      EnvValue.secret_key_ref
                        (record { name = info.secret_name; key = info.user_name });
                }
                ∷ [];
            volume_mounts =
                record {
                  name = "data";
                  sub_path = "";
                  mount_path = "/var/lib/mysql/backup";
                  read_only = false;
                }
                ∷ [];
          }
          ∷ [];
      volumes = record { name = "data"; source = b.spec.target_volume } ∷ [];
    };
  };
}

module _ (E : Env) (L : Library) where
  open E use {World}

  abbrev pub missing : DatabaseBackup → DatabaseConnectionInfo → Err → M World Outcome
  missing b info not_found =
      on (E.create Kind.cron_job_v1 (create_cron_job L b info)) (λ e. pure (failed e))
        (λ _. pure requeued)
  missing b info e = pure (failed e)

  -- `getOrCreateObject`: it looks for a batch/v1beta1 object, and creates one of batch/v1.
  unfoldable pub get_or_create_cron_job : DatabaseBackup → DatabaseConnectionInfo → M World Outcome
  unfolding create_cron_job
  get_or_create_cron_job b info =
      on (E.get Kind.cron_job_v1beta1 (record { namespace = b.namespace; name = get_base_name b }))
        (missing b info) (λ _. pure done)

  -- `Reconcile` from the database's connection on.
  unfoldable pub reconcile_backup : DatabaseBackup → M World Outcome
  unfolding get_database_connection_info get_or_create_cron_job
  reconcile_backup b =
      on (get_database_connection_info E b.spec.database_server_ref b.namespace)
        (λ e. pure (failed e)) (λ info. get_or_create_cron_job b info)

  -- After an error of `Get` other than `not_found` it goes on with an empty backup.
  abbrev pub unread : Err → M World Outcome
  unread not_found = pure done
  unread e = reconcile_backup empty_database_backup

  unfoldable pub reconcile : NamespacedName → M World Outcome
  unfolding reconcile_backup
  reconcile request = on (E.get Kind.database_backup request) unread reconcile_backup
