-- ===== src/Cluster/Config.antt =====
-- internal/controller/stroomcluster.go: the service account and the ConfigMaps of a StroomCluster.
use stroom_k8s_operator.Base.{String, ◌<>◌, not, some, [], ◌∷◌, if◌then◌else◌, string_eq}
use stroom_k8s_operator.Base.Int.{ℤ, pos}
use stroom_k8s_operator.Base.Dict.{Dict, insert}
use stroom_k8s_operator.Kube.Meta.{Labels, ObjectMeta, OwnerReference, empty_meta}
use stroom_k8s_operator.Kube.Core.{ServiceAccount, ConfigMap, Volume, VolumeSource}
use stroom_k8s_operator.Kube.Env.{Library}
use stroom_k8s_operator.Kube.Owner.{controlled}
use stroom_k8s_operator.Api.StroomCluster.{
  StroomCluster, NodeSet, node_set_label, tls_is_zero, get_base_name, get_labels,
  get_static_content_config_map_name, get_log_sender_config_map_name,
}

abbrev pub app_http_port_name : String
app_http_port_name = "app-http"

abbrev pub app_http_port_number : ℤ
app_http_port_number = pos 8080

abbrev pub app_https_port_name : String
app_https_port_name = "app-https"

abbrev pub app_https_port_number : ℤ
app_https_port_number = pos 8443

abbrev pub admin_port_name : String
admin_port_name = "admin"

abbrev pub admin_port_number : ℤ
admin_port_number = pos 8081

abbrev pub static_content_volume_name : String
static_content_volume_name = "static-content"

abbrev pub stroom_node_pvc_name : String
stroom_node_pvc_name = "data"

abbrev pub stroom_node_container_name : String
stroom_node_container_name = "stroom-node"

abbrev pub stroom_keystore_volume_name : String
stroom_keystore_volume_name = "keystore"

abbrev pub stroom_tls_volume_name : String
stroom_tls_volume_name = "tls"

abbrev pub stroom_api_token_volume_name : String
stroom_api_token_volume_name = "api-token"

abbrev pub stroom_api_token_mount_path : String
stroom_api_token_mount_path = "/stroom/auth"

abbrev pub log_sender_config_map_name : String
log_sender_config_map_name = "log-sender-configmap"

abbrev pub log_sender_certs_volume_name : String
log_sender_certs_volume_name = "log-sender-certs"

abbrev pub owner : StroomCluster → OwnerReference
owner c = record { kind = "StroomCluster"; name = c.name }

-- The metadata of an object of a StroomCluster, before its owner is set.
abbrev pub child_meta : StroomCluster → String → ObjectMeta
child_meta c name = record empty_meta {
  name = name;
  namespace = c.namespace;
  labels = get_labels c;
}

unfoldable pub create_node_set_pvc_labels : StroomCluster → NodeSet → Labels
unfolding get_labels insert
create_node_set_pvc_labels c n = insert node_set_label n.name (get_labels c)

-- One line of the log sender's crontab, with the options for its transport.
crontab_line : String → String → String → String
crontab_line directory feed transport =
    "* * * * * ${LOG_SENDER_SCRIPT} \"${STROOM_BASE_LOGS_DIR}/" <> directory <> feed
    <> "\"${STROOM_DATAFEED_URL}\" --system \"${STROOM_SYSTEM_NAME}\" --environment \"${STROOM_ENVIRONMENT_NAME}\" --file-regex \"${STROOM_FILE_REGEX}\" -m ${STROOM_MAX_DELAY_SECS} --delete-after-sending "
    <> transport <> " --compress > /dev/stdout"

crontab : String → String
unfolding crontab_line
crontab transport =
    crontab_line "access\" " "STROOM-ACCESS-EVENTS " transport
    <> "\n"
    <> crontab_line "app\"    " "STROOM-APP-EVENTS    " transport
    <> "\n"
    <> crontab_line "user\"   " "STROOM-USER-EVENTS   " transport

module _ (L : Library) where
  unfoldable pub create_service_account : StroomCluster → ServiceAccount
  create_service_account c = record {
    meta = controlled L (owner c) (child_meta c (get_base_name c));
  }

  unfoldable pub create_config_map : StroomCluster → Dict String String → ConfigMap
  create_config_map c contents = record {
    meta = controlled L (owner c) (child_meta c (get_static_content_config_map_name c));
    items = contents;
  }

  unfoldable pub create_log_sender_config_map : StroomCluster → ConfigMap
  unfolding crontab tls_is_zero
  create_log_sender_config_map c = record {
    meta = controlled L (owner c) (child_meta c (get_log_sender_config_map_name c));
    items =
        (
          "crontab.txt",
          if not (tls_is_zero c.spec.log_sender.tls)
              then crontab
                  "--cacert /stroom-log-sender/certs/ca.crt --cert /stroom-log-sender/certs/tls.crt --key /stroom-log-sender/certs/tls.key"
              else crontab "--no-secure",
        )
        ∷ [];
  }

unfoldable pub create_static_content_volume : StroomCluster → Volume
create_static_content_volume c = record {
  name = static_content_volume_name;
  source = VolumeSource.config_map (get_static_content_config_map_name c) (some (pos 0o554));
}
