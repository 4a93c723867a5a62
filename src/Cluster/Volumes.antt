-- ===== src/Cluster/Volumes.antt =====
-- internal/controller/stroomcluster.go: the volumes of a Stroom node's pod, and their mounts.
pub mod Backing
use stroom_k8s_operator.Base.{
  String, Bool, true, false, not, none, List, [], ◌∷◌, ◌++◌, if◌then◌else◌,
}
use stroom_k8s_operator.Kube.Core.{Volume, VolumeSource, VolumeMount}
use stroom_k8s_operator.Api.StroomCluster.{
  StroomCluster, NodeSet, https_is_zero, config_map_ref_is_zero, log_sender_is_zero, tls_is_zero,
  get_log_sender_config_map_name,
}
use stroom_k8s_operator.Cluster.Config.{
  static_content_volume_name, stroom_node_pvc_name, stroom_keystore_volume_name,
  stroom_tls_volume_name, stroom_api_token_volume_name, stroom_api_token_mount_path,
  log_sender_config_map_name, log_sender_certs_volume_name, create_static_content_volume,
}

abbrev pub mount : String → String → String → Bool → VolumeMount
mount name sub_path mount_path read_only = record {
  name = name;
  sub_path = sub_path;
  mount_path = mount_path;
  read_only = read_only;
}

module _ (c : StroomCluster) where
  unfoldable pub https_volumes : List Volume
  https_volumes =
      if not (https_is_zero c.spec.https)
      then record {
        name = stroom_tls_volume_name;
        source = VolumeSource.secret c.spec.https.tls_secret_name [];
      }
        ∷ record { name = stroom_keystore_volume_name; source = VolumeSource.empty_dir }
        ∷ []
      else []

  unfoldable pub log_sender_volumes : List Volume
  log_sender_volumes =
      if not (log_sender_is_zero c.spec.log_sender)
      then record {
        name = log_sender_config_map_name;
        source = VolumeSource.config_map (get_log_sender_config_map_name c) none;
      }
        ∷ (if not (tls_is_zero c.spec.log_sender.tls)
            then record {
              name = log_sender_certs_volume_name;
              source = VolumeSource.secret c.spec.log_sender.tls.secret_name [];
            }
              ∷ []
            else [])
      else []

  unfoldable pub config_override_volumes : List Volume
  config_override_volumes =
      if not (config_map_ref_is_zero c.spec.config_map_ref)
      then record {
        name = "config-override";
        source = VolumeSource.config_map c.spec.config_map_ref.name none;
      }
        ∷ []
      else []

  unfoldable pub node_volumes : List Volume
  unfolding https_volumes log_sender_volumes config_override_volumes https_is_zero
      log_sender_is_zero tls_is_zero config_map_ref_is_zero create_static_content_volume
  node_volumes =
      create_static_content_volume c
      ∷ record { name = stroom_api_token_volume_name; source = VolumeSource.empty_dir }
      ∷ (https_volumes ++ (log_sender_volumes ++ (config_override_volumes ++ c.spec.extra_volumes)))

  unfoldable pub append_config_volume_mounts : List VolumeMount → List VolumeMount
  unfolding config_map_ref_is_zero
  append_config_volume_mounts mounts =
      if not (config_map_ref_is_zero c.spec.config_map_ref)
      then mounts
        ++ mount "config-override" c.spec.config_map_ref.item_name "/stroom/config/config.yml" true
          ∷ []
      else mounts
        ++ mount static_content_volume_name "stroomcluster-config.yaml" "/stroom/config/config.yml"
            true
          ∷ []

abbrev pub base_mounts : List VolumeMount
base_mounts =
    mount static_content_volume_name "utils.sh" "/stroom/scripts/utils.sh" true
    ∷ mount static_content_volume_name "node-start.sh" "/stroom/scripts/node-start.sh" true
    ∷ mount static_content_volume_name "node-pre-stop.sh" "/stroom/scripts/node-pre-stop.sh" true
    ∷ mount stroom_api_token_volume_name "" stroom_api_token_mount_path false
    ∷ mount stroom_node_pvc_name "logs" "/stroom/logs" false
    ∷ mount stroom_node_pvc_name "output" "/stroom/output" false
    ∷ mount stroom_node_pvc_name "tmp" "/stroom/tmp" false
    ∷ mount stroom_node_pvc_name "lmdb" "/stroom/lmdb" false
    ∷ mount stroom_node_pvc_name "lmdb_library" "/stroom/lmdb_library" false
    ∷ mount stroom_node_pvc_name "planb" "/stroom/planb" false
    ∷ mount stroom_node_pvc_name "proxy-repo" "/stroom/proxy_repo" false
    ∷ mount stroom_node_pvc_name "reference-data" "/stroom/reference_data" false
    ∷ mount stroom_node_pvc_name "reference_staging_data" "/stroom/reference_staging_data" false
    ∷ mount stroom_node_pvc_name "search-results" "/stroom/search_results" false
    ∷ []

unfoldable pub https_mounts : StroomCluster → List VolumeMount
unfolding https_is_zero
https_mounts c =
    if not (https_is_zero c.spec.https)
    then mount stroom_keystore_volume_name "" "/stroom/pki/tls" true ∷ []
    else []

-- The mounts of the Stroom node's container.
unfoldable pub node_volume_mounts : StroomCluster → NodeSet → List VolumeMount
unfolding append_config_volume_mounts https_mounts
node_volume_mounts c n =
    append_config_volume_mounts c (base_mounts ++ https_mounts c)
    ++ (c.spec.extra_volume_mounts ++ n.extra_volume_mounts)
