-- ===== src/Api/StroomCluster.antt =====
-- api/v1/stroomcluster_types.go, _spec.go, _nodeset.go and _extra.go.
use stroom_k8s_operator.Base.{
  String, ◌<>◌, Bool, not, ◌&&◌, ◌||◌, Option, List, [], ◌∷◌, ◌==◌, string_eq,
}
use stroom_k8s_operator.Base.Int.{ℤ}
use stroom_k8s_operator.Kube.Meta.{Json, Labels, ObjectMeta, is_zero}
use stroom_k8s_operator.Kube.Core.{ResourceRequirements, EnvVar, Volume, VolumeMount}
use stroom_k8s_operator.Api.Common.{Image, ProbeTimings, DatabaseServerRef}

-- NodeRole: a text with two named values.
abbrev pub processing_node_role : String
processing_node_role = "Processing"

abbrev pub frontend_node_role : String
frontend_node_role = "Frontend"

-- VolumeClaimDeletePolicy, likewise.
abbrev pub delete_on_scaledown_and_cluster_deletion_policy : String
delete_on_scaledown_and_cluster_deletion_policy = "DeleteOnScaledownAndClusterDeletion"

abbrev pub delete_on_scaledown_only_policy : String
delete_on_scaledown_only_policy = "DeleteOnScaledownOnly"

pub record JvmMemoryOptions : Type 0 where
  pub initial_percentage : ℤ
  pub max_percentage : ℤ

pub record NodeSet : Type 0 where
  pub name : String
  pub count : ℤ
  pub role : String
  pub managed_jobs : List String
  pub local_data_volume_claim : Json
  pub extra_volume_mounts : List VolumeMount
  pub resources : ResourceRequirements
  pub memory_options : JvmMemoryOptions
  pub ingress_enabled : Option Bool
  pub ingress_annotations : Labels
  pub ingress_labels : Labels
  pub startup_probe_timings : ProbeTimings
  pub readiness_probe_timings : ProbeTimings
  pub liveness_probe_timings : ProbeTimings
  pub pod_annotations : Labels
  pub pod_security_context : Json
  pub security_context : Json
  pub node_selector : Labels
  pub tolerations : Json
  pub affinity : Json

pub record SecretItem : Type 0 where
  pub secret_name : String
  pub key : String

abbrev secret_item_is_zero : SecretItem → Bool
secret_item_is_zero s = s.secret_name == "" && s.key == ""

pub record HttpsSettings : Type 0 where
  pub tls_secret_name : String
  pub tls_keystore_password_secret_ref : SecretItem

unfoldable pub https_is_zero : HttpsSettings → Bool
https_is_zero h = h.tls_secret_name == "" || secret_item_is_zero h.tls_keystore_password_secret_ref

pub record IngressSettings : Type 0 where
  pub host_name : String
  pub secret_name : String
  pub class_name : String
  pub path_type_override : Bool

pub record OpenIdConfiguration : Type 0 where
  pub client_id : String
  pub client_secret : SecretItem

unfoldable pub open_id_is_zero : OpenIdConfiguration → Bool
open_id_is_zero o = o.client_id == "" || secret_item_is_zero o.client_secret

pub record ConfigMapRef : Type 0 where
  pub name : String
  pub item_name : String

unfoldable pub config_map_ref_is_zero : ConfigMapRef → Bool
config_map_ref_is_zero c = c.name == "" && c.item_name == ""

pub record TlsSettings : Type 0 where
  pub secret_name : String

unfoldable pub tls_is_zero : TlsSettings → Bool
tls_is_zero t = t.secret_name == ""

pub record LogSenderSettings : Type 0 where
  pub enabled : Bool
  pub image : Image
  pub image_pull_policy : String
  pub security_context : Json
  pub destination_url : String
  pub environment_name : String
  pub system_name : String
  pub resources : ResourceRequirements
  pub tls : TlsSettings

unfoldable pub log_sender_is_zero : LogSenderSettings → Bool
log_sender_is_zero l = not l.enabled

pub record StroomClusterSpec : Type 0 where
  pub image : Image
  pub image_pull_policy : String
  pub database_server_ref : DatabaseServerRef
  pub app_database_name : String
  pub stats_database_name : String
  pub config_map_ref : ConfigMapRef
  pub open_id : OpenIdConfiguration
  pub https : HttpsSettings
  pub ingress : IngressSettings
  pub pod_management_policy : String
  pub node_termination_period_secs : ℤ
  pub volume_claim_delete_policy : String
  pub node_sets : List NodeSet
  pub extra_jvm_opts : List String
  pub extra_env : List EnvVar
  pub extra_volumes : List Volume
  pub extra_volume_mounts : List VolumeMount
  pub log_sender : LogSenderSettings

pub record StroomCluster : Type 0 where
  pub meta : ObjectMeta
  pub open meta use *
  pub spec : StroomClusterSpec
  pub status_nodes : List String

abbrev pub stroom_cluster_label : String
stroom_cluster_label = "stroom/cluster"

abbrev pub node_set_label : String
node_set_label = "stroom/nodeSet"

unfoldable pub get_base_name : StroomCluster → String
get_base_name c = "stroom-" <> c.name

unfoldable pub get_static_content_config_map_name : StroomCluster → String
get_static_content_config_map_name c = get_base_name c <> "-static-content"

unfoldable pub get_node_set_name : StroomCluster → NodeSet → String
get_node_set_name c n = get_base_name c <> "-node-" <> n.name

unfoldable pub get_log_sender_config_map_name : StroomCluster → String
get_log_sender_config_map_name c = get_base_name c <> "-log-sender"

unfoldable pub get_cli_job_name : StroomCluster → String → String
get_cli_job_name c name = get_base_name c <> "-cli-" <> name

unfoldable pub get_labels : StroomCluster → Labels
get_labels c =
    ("app.kubernetes.io/name", "stroom")
    ∷ ("app.kubernetes.io/component", "stroom-cluster")
    ∷ (stroom_cluster_label, c.name)
    ∷ []

unfoldable pub get_node_set_selector_labels : StroomCluster → NodeSet → Labels
get_node_set_selector_labels c n = (stroom_cluster_label, c.name) ∷ (node_set_label, n.name) ∷ []

unfoldable pub get_node_set_headless_service_name : StroomCluster → NodeSet → String
get_node_set_headless_service_name c n = get_node_set_name c n

unfoldable pub get_node_set_service_name : StroomCluster → NodeSet → String
get_node_set_service_name c n = get_node_set_name c n <> "-http"

unfoldable pub get_datafeed_url : StroomCluster → String
get_datafeed_url c = "https://" <> c.spec.ingress.host_name <> "/stroom/datafeeddirect"

unfoldable pub is_being_deleted : StroomCluster → Bool
is_being_deleted c = not (is_zero c.deletion_timestamp)
