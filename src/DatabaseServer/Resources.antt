-- ===== src/DatabaseServer/Resources.antt =====
-- internal/controller/databaseserver.go: the objects that a DatabaseServer owns.
use stroom_k8s_operator.Base.{String, ◌<>◌, true, false, none, some, List, [], ◌∷◌}
use stroom_k8s_operator.Base.Int.{ℤ, pos}
use stroom_k8s_operator.Base.Text.{itoa, join}
use stroom_k8s_operator.Base.State.{M, pure, ◌>>=◌}
use stroom_k8s_operator.Kube.Meta.{ObjectMeta, OwnerReference, empty_meta}
use stroom_k8s_operator.Kube.Core.{
  Secret, ConfigMap, StatefulSet, Service, Probe, ProbeHandler, EnvValue, VolumeSource,
  empty_container, empty_pod_spec,
}
use stroom_k8s_operator.Kube.Env.{Env, Library}
use stroom_k8s_operator.Kube.Owner.{controlled}
use stroom_k8s_operator.Api.Common.{ProbeTimings, image_string}
use stroom_k8s_operator.Api.DatabaseServer.{
  DatabaseServer, get_base_name, get_labels, get_service_name, get_secret_name,
}
use stroom_k8s_operator.Database.{database_port}

abbrev pub database_root_user_name : String
database_root_user_name = "root"

abbrev pub database_service_user_name : String
database_service_user_name = "stroomuser"

-- stroomv1.SecretFileMode, 0400
abbrev pub secret_file_mode : ℤ
secret_file_mode = pos 0o400

unfoldable pub get_init_config_name : DatabaseServer → String
get_init_config_name db = get_base_name db <> "-init"

abbrev owner : DatabaseServer → OwnerReference
owner db = record { kind = "DatabaseServer"; name = db.name }

-- The metadata of an object of a DatabaseServer, before its owner is set.
abbrev pub child_meta : DatabaseServer → String → ObjectMeta
child_meta db name = record empty_meta {
  name = name;
  namespace = db.namespace;
  labels = get_labels db;
}

-- api/v1/utils.go: GeneratePassword()
unfoldable pub generate_password : (E : Env) → M E.World String
generate_password E = E.must_generate (pos 24) (pos 10) (pos 0) false true

-- The Secret has no owner, so that it outlives the DatabaseServer.
unfoldable pub create_secret : (E : Env) → DatabaseServer → M E.World Secret
unfolding generate_password
create_secret E db = generate_password E >>= λ root. generate_password E >>= λ service.
    pure (record {
      meta = child_meta db (get_secret_name db);
      type = "Opaque";
      items = (database_root_user_name, root) ∷ (database_service_user_name, service) ∷ [];
    })

-- The statements that create the databases and grant the service user its privileges.
unfoldable pub database_create_statements : List String → String
database_create_statements [] = ""
database_create_statements (name ∷ names) =
    "CREATE DATABASE IF NOT EXISTS "
    <> name
    <> ";\n"
    <> "GRANT ALL PRIVILEGES ON "
    <> name
    <> ".* TO '"
    <> database_service_user_name
    <> "'@'%';\n"
    <> database_create_statements names

unfoldable pub create_readiness_probe : ProbeTimings → Probe
create_readiness_probe timings = record {
  handler = ProbeHandler.exec (
      "sh" ∷ "-c"
      ∷ "status=$(mysql -u healthcheck -e \"SELECT 'OK'\" | grep 'OK');\nif [[ $status ]]; then echo 1; else echo 0; fi"
      ∷ []);
  initial_delay_seconds = timings.initial_delay_seconds;
  period_seconds = timings.period_seconds;
  timeout_seconds = timings.timeout_seconds;
  success_threshold = timings.success_threshold;
  failure_threshold = timings.failure_threshold;
}

unfoldable pub create_liveness_probe : ProbeTimings → Probe
create_liveness_probe timings = record {
  handler = ProbeHandler.exec ("mysqladmin" ∷ "-u" ∷ "healthcheck" ∷ "ping" ∷ []);
  initial_delay_seconds = timings.initial_delay_seconds;
  period_seconds = timings.period_seconds;
  timeout_seconds = timings.timeout_seconds;
  success_threshold = timings.success_threshold;
  failure_threshold = timings.failure_threshold;
}

module _ (L : Library) where
  unfoldable pub create_config_map : DatabaseServer → ConfigMap
  create_config_map db = record {
    meta = controlled L (owner db) (child_meta db (get_base_name db));
    items =
        (
          "my.cnf",
          "[mysqld]\ndatadir=/var/lib/mysql\nport="
              <> itoa database_port
              <> "\nuser=mysql\n"
              <> join db.spec.additional_config "\n",
        )
        ∷ [];
  }

  unfoldable pub create_db_init_config_map : DatabaseServer → ConfigMap
  unfolding database_create_statements get_init_config_name
  create_db_init_config_map db = record {
    meta = controlled L (owner db) (child_meta db (get_init_config_name db));
    items =
        (
          "create-service-user.sql",
          "-- Create a service user for determining MySQL health\nCREATE USER 'healthcheck'@'localhost';",
        )
        ∷ (
          "init-stroom-db.sql",
          "-- Initialise Stroom databases\n"
              <> database_create_statements db.spec.database_names
              <> "\n\n"
              <> "SELECT 'Dumping list of databases' AS '';\nSELECT '---------------------------------------' AS '';\nSHOW databases;",
        )
        ∷ [];
  }

  unfoldable pub create_stateful_set : DatabaseServer → StatefulSet
  unfolding create_readiness_probe create_liveness_probe get_init_config_name image_string
  create_stateful_set db =
      let mysql = record empty_container {
        name = "mysql";
        image = image_string db.spec.image;
        image_pull_policy = db.spec.image_pull_policy;
        env =
            record {
              name = "MYSQL_ROOT_PASSWORD";
              value_from = EnvValue.value "/etc/mysql/password/root";
            }
            ∷ record { name = "MYSQL_USER"; value_from = EnvValue.value database_service_user_name }
            ∷ record {
              name = "MYSQL_PASSWORD";
              value_from =
                  EnvValue.secret_key_ref
                    (record { name = get_base_name db; key = database_service_user_name });
            }
            ∷ [];
        ports = record { name = "mysql"; container_port = database_port; protocol = "TCP" } ∷ [];
        readiness_probe = some (create_readiness_probe db.spec.readiness_probe_timings);
        liveness_probe = some (create_liveness_probe db.spec.liveness_probe_timings);
        security_context = db.spec.security_context;
        resources = db.spec.resources;
        volume_mounts =
            record {
              name = "config";
              sub_path = "my.cnf";
              mount_path = "/etc/my.cnf";
              read_only = true;
            }
            ∷ record {
              name = "config-init";
              sub_path = "";
              mount_path = "/docker-entrypoint-initdb.d";
              read_only = true;
            }
            ∷ record {
              name = "data";
              sub_path = "";
              mount_path = "/var/lib/mysql";
              read_only = false;
            }
            ∷ record {
              name = "root-password";
              sub_path = database_root_user_name;
              mount_path = "/etc/mysql/password/root";
              read_only = true;
            }
            ∷ [];
      } in
      record {
        meta = controlled L (owner db) (child_meta db (get_base_name db));
        spec = record {
          replicas = pos 1;
          pod_management_policy = "";
          service_name = get_service_name db;
          match_labels = get_labels db;
          template = record {
            annotations = db.annotations;
            labels = get_labels db;
            spec = record empty_pod_spec {
              containers = mysql ∷ [];
              security_context = db.spec.pod_security_context;
              node_selector = db.spec.node_selector;
              affinity = db.spec.affinity;
              tolerations = db.spec.tolerations;
              volumes =
                  record {
                    name = "config";
                    source = VolumeSource.config_map (get_base_name db) none;
                  }
                  ∷ record {
                    name = "config-init";
                    source = VolumeSource.config_map (get_init_config_name db) none;
                  }
                  ∷ record {
                    name = "root-password";
                    source = VolumeSource.secret (get_base_name db) (
                        record {
                          key = database_root_user_name;
                          path = database_root_user_name;
                          mode = some secret_file_mode;
                        }
                        ∷ []);
                  }
                  ∷ [];
            };
          };
          volume_claim_templates =
              record { meta = record empty_meta { name = "data" }; spec = db.spec.volume_claim }
              ∷ [];
        };
        status_replicas = pos 0;
      }

  unfoldable pub create_service : DatabaseServer → Service
  create_service db = record {
    meta = controlled L (owner db) (child_meta db (get_service_name db));
    spec = record {
      type = "ClusterIP";
      cluster_ip = "None";
      selector = get_labels db;
      ports = record { name = "tcp"; port = database_port; protocol = "TCP" } ∷ [];
    };
  }
