-- ===== src/Api/DatabaseBackup.antt =====
-- api/v1/databasebackup_types.go.
use stroom_k8s_operator.Base.{String, ◌<>◌, List, [], ◌∷◌}
use stroom_k8s_operator.Base.Int.{pos}
use stroom_k8s_operator.Kube.Meta.{Labels, ObjectMeta, empty_meta}
use stroom_k8s_operator.Kube.Core.{VolumeSource}
use stroom_k8s_operator.Api.Common.{Image, DatabaseServerRef, empty_ref}

pub record DatabaseBackupSpec : Type 0 where
  pub image : Image
  pub image_pull_policy : String
  pub database_server_ref : DatabaseServerRef
  pub database_names : List String
  pub target_volume : VolumeSource
  pub schedule : String

pub record DatabaseBackup : Type 0 where
  pub meta : ObjectMeta
  pub open meta use *
  pub spec : DatabaseBackupSpec

unfoldable pub get_base_name : DatabaseBackup → String
get_base_name b = "stroom-" <> b.name <> "-db-backup"

unfoldable pub get_labels : DatabaseBackup → Labels
get_labels b =
    ("app.kubernetes.io/name", "stroom")
    ∷ ("app.kubernetes.io/component", "database-backup")
    ∷ ("app.kubernetes.io/instance", b.name)
    ∷ []

-- `DatabaseBackup{}`. Its volume source names no kind of volume.
abbrev pub empty_database_backup : DatabaseBackup
empty_database_backup = record {
  meta = empty_meta;
  spec = record {
    image = record { repository = ""; tag = "" };
    image_pull_policy = "";
    database_server_ref = record {
      server_ref = empty_ref;
      server_address = record { host = ""; port = pos 0; secret_name = "" };
      user_name = "";
    };
    database_names = [];
    target_volume = VolumeSource.other "{}";
    schedule = "";
  };
}
