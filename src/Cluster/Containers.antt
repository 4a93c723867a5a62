-- ===== src/Cluster/Containers.antt =====
-- internal/controller/stroomcluster.go: the containers of a Stroom node's pod.
pub mod Probes
use stroom_k8s_operator.Base.{
  String, true, false, not, some, List, [], ◌∷◌, ◌==◌, string_eq, if◌then◌else◌,
}
use stroom_k8s_operator.Base.Int.{ℤ, pos, ℤ_eq}
use stroom_k8s_operator.Base.Text.{to_upper}
use stroom_k8s_operator.Kube.Core.{
  Container, Probe, ProbeHandler, ResourceRequirements, VolumeMount, empty_container,
}
use stroom_k8s_operator.Kube.Env.{Library}
use stroom_k8s_operator.Api.Common.{ProbeTimings, image_string}
use stroom_k8s_operator.Api.StroomCluster.{
  StroomCluster, NodeSet, LogSenderSettings, https_is_zero, log_sender_is_zero, tls_is_zero,
  get_datafeed_url,
}
use stroom_k8s_operator.Database.{DatabaseConnectionInfo}
use stroom_k8s_operator.Cluster.Config.{
  app_http_port_name, app_http_port_number, app_https_port_name, app_https_port_number,
  admin_port_name, admin_port_number, static_content_volume_name, stroom_node_pvc_name,
  stroom_node_container_name, stroom_keystore_volume_name, stroom_tls_volume_name,
  log_sender_config_map_name, log_sender_certs_volume_name,
}
use stroom_k8s_operator.Cluster.Environment.{literal, from_secret, node_env}
use stroom_k8s_operator.Cluster.Volumes.{mount, node_volume_mounts}

-- A field that is set only if it is not 0; the zero value is 0 too.
abbrev unless_zero : ℤ → ℤ → ℤ
unless_zero tested new = if ℤ_eq tested (pos 0) then pos 0 else new

unfoldable pub create_probe : ProbeTimings → String → Probe
create_probe t port_name = record {
  handler = ProbeHandler.http_get "/stroomAdmin/filteredhealthcheck" port_name;
  initial_delay_seconds = unless_zero t.initial_delay_seconds t.initial_delay_seconds;
  -- The code reads InitialDelaySeconds here.
  period_seconds = unless_zero t.period_seconds t.initial_delay_seconds;
  timeout_seconds = unless_zero t.timeout_seconds t.timeout_seconds;
  success_threshold = unless_zero t.success_threshold t.success_threshold;
  failure_threshold = unless_zero t.failure_threshold t.failure_threshold;
}

unfoldable pub startup_probe : ProbeTimings → Probe
startup_probe t = record {
  handler = ProbeHandler.exec ("bash" ∷ "/stroom/scripts/node-start.sh" ∷ []);
  initial_delay_seconds = t.initial_delay_seconds;
  period_seconds = t.period_seconds;
  timeout_seconds = t.timeout_seconds;
  success_threshold = t.success_threshold;
  failure_threshold = t.failure_threshold;
}

unfoldable pub init_containers : StroomCluster → List Container
unfolding https_is_zero image_string
init_containers c =
    if not (https_is_zero c.spec.https)
    then record empty_container {
      name = "generate-keystore";
      image = image_string c.spec.image;
      image_pull_policy = c.spec.image_pull_policy;
      command = "sh" ∷ "-c" ∷ "/opt/scripts/generate-keystore.sh" ∷ [];
      env =
          from_secret "STROOM_KEYSTORE_PASSWORD"
            c.spec.https.tls_keystore_password_secret_ref.secret_name
            c.spec.https.tls_keystore_password_secret_ref.key
          ∷ [];
      volume_mounts =
          mount static_content_volume_name "generate-keystore.sh"
            "/opt/scripts/generate-keystore.sh" true
          ∷ mount stroom_tls_volume_name "" "/opt/tls" true
          ∷ mount stroom_keystore_volume_name "" "/data" false
          ∷ [];
    }
      ∷ []
    else []

unfoldable pub node_container : StroomCluster → NodeSet → DatabaseConnectionInfo → Container
unfolding create_probe startup_probe node_env node_volume_mounts
node_container c n info = record empty_container {
  name = stroom_node_container_name;
  image = image_string c.spec.image;
  image_pull_policy = c.spec.image_pull_policy;
  env = node_env c n info;
  volume_mounts = node_volume_mounts c n;
  security_context = n.security_context;
  ports =
      record { name = app_http_port_name; container_port = app_http_port_number; protocol = "TCP" }
      ∷ record {
        name = app_https_port_name;
        container_port = app_https_port_number;
        protocol = "TCP";
      }
      ∷ record { name = admin_port_name; container_port = admin_port_number; protocol = "TCP" }
      ∷ [];
  startup_probe = some (startup_probe n.startup_probe_timings);
  readiness_probe = some (create_probe n.readiness_probe_timings admin_port_name);
  liveness_probe = some (create_probe n.liveness_probe_timings admin_port_name);
  resources = n.resources;
  pre_stop = "bash" ∷ "/stroom/scripts/node-pre-stop.sh" ∷ [];
}

-- A setting, or its default if it is empty.
abbrev or_default : String → String → String
or_default s d = if s == "" then d else s

abbrev default_resources : ResourceRequirements
default_resources = record { limits = ("cpu", "500m") ∷ ("memory", "256Mi") ∷ []; requests = [] }

unfoldable pub log_sender_mounts : LogSenderSettings → List VolumeMount
log_sender_mounts l =
    mount stroom_node_pvc_name "logs" "/stroom-log-sender/log-volumes/stroom" false
    ∷ mount log_sender_config_map_name "" "/stroom-log-sender/config" true
    ∷ (if not (tls_is_zero l.tls)
        then mount log_sender_certs_volume_name "" "/stroom-log-sender/certs" true ∷ []
        else [])

module _ (L : Library) (c : StroomCluster) where
  unfoldable pub create_log_sender_container : Container
  unfolding log_sender_mounts tls_is_zero to_upper
  create_log_sender_container =
      let l = c.spec.log_sender in
      record empty_container {
        name = "log-sender";
        image = image_string l.image;
        image_pull_policy = l.image_pull_policy;
        security_context = l.security_context;
        env =
            literal "LOG_SENDER_SCRIPT" "/stroom-log-sender/send_to_stroom.sh"
            ∷ literal "STROOM_DATAFEED_URL" (or_default l.destination_url (get_datafeed_url c))
            ∷ literal "STROOM_BASE_LOGS_DIR" "/stroom-log-sender/log-volumes/stroom"
            ∷ literal "STROOM_FILE_REGEX"
                ".*/[a-z]+-[0-9]+-[0-9]+-[0-9]+T[0-9]+:[0-9]+\\.log(\\.gz)?$"
            ∷ literal "STROOM_ENVIRONMENT_NAME" (or_default l.environment_name (to_upper c.name))
            ∷ literal "STROOM_SYSTEM_NAME" (or_default l.system_name "Stroom")
            ∷ literal "STROOM_MAX_DELAY_SECS" "15"
            ∷ [];
        volume_mounts = log_sender_mounts l;
        resources = if ℤ_eq (L.size l.resources) (pos 0) then default_resources else l.resources;
      }

  unfoldable pub node_containers : NodeSet → DatabaseConnectionInfo → List Container
  unfolding node_container create_log_sender_container log_sender_is_zero
  node_containers n info =
      node_container c n info
      ∷ (if not (log_sender_is_zero c.spec.log_sender)
          then create_log_sender_container ∷ []
          else [])
