-- ===== src/Api/DatabaseServer.antt =====
-- api/v1/databaseserver_types.go and databaseserver_spec.go.
use stroom_k8s_operator.Base.{String, ◌<>◌, Bool, not, List, [], ◌∷◌}
use stroom_k8s_operator.Base.Int.{ℤ, pos}
use stroom_k8s_operator.Kube.Meta.{Json, Labels, ObjectMeta, empty_meta, is_zero}
use stroom_k8s_operator.Kube.Core.{ResourceRequirements}
use stroom_k8s_operator.Api.Common.{Image, ProbeTimings, ResourceRef, empty_ref}

pub record DatabaseServerSpec : Type 0 where
  pub image : Image
  pub image_pull_policy : String
  pub database_names : List String
  pub additional_config : List String
  pub resources : ResourceRequirements
  pub volume_claim : Json
  pub readiness_probe_timings : ProbeTimings
  pub liveness_probe_timings : ProbeTimings
  pub pod_annotations : Labels
  pub pod_security_context : Json
  pub security_context : Json
  pub node_selector : Labels
  pub tolerations : Json
  pub affinity : Json

pub record DatabaseServerStatus : Type 0 where
  pub state : String
  pub address : String
  pub port : ℤ

pub record DatabaseServer : Type 0 where
  pub meta : ObjectMeta
  pub open meta use *
  pub spec : DatabaseServerSpec
  pub status : DatabaseServerStatus
  pub stroom_cluster_ref : ResourceRef

unfoldable pub get_base_name : DatabaseServer → String
get_base_name db = "stroom-" <> db.name <> "-db"

unfoldable pub get_labels : DatabaseServer → Labels
get_labels db =
    ("app.kubernetes.io/name", "stroom")
    ∷ ("app.kubernetes.io/component", "database-server")
    ∷ ("app.kubernetes.io/instance", db.name)
    ∷ []

unfoldable pub get_service_name : DatabaseServer → String
get_service_name db = get_base_name db <> "-headless"

unfoldable pub get_service_fqdn : DatabaseServer → String
get_service_fqdn db = get_service_name db <> "." <> db.namespace <> ".svc.cluster.local"

unfoldable pub get_secret_name : DatabaseServer → String
get_secret_name db = get_base_name db

unfoldable pub get_config_map_name : DatabaseServer → String
get_config_map_name db = get_base_name db

unfoldable pub get_init_config_map_name : DatabaseServer → String
get_init_config_map_name db = get_base_name db <> "-init"

unfoldable pub is_being_deleted : DatabaseServer → Bool
is_being_deleted db = not (is_zero db.deletion_timestamp)

-- `ProbeTimings{}`
abbrev zero_timings : ProbeTimings
zero_timings = record {
  initial_delay_seconds = pos 0;
  timeout_seconds = pos 0;
  period_seconds = pos 0;
  success_threshold = pos 0;
  failure_threshold = pos 0;
}

-- `DatabaseServer{}`
abbrev pub empty_database_server : DatabaseServer
empty_database_server = record {
  meta = empty_meta;
  spec = record {
    image = record { repository = ""; tag = "" };
    image_pull_policy = "";
    database_names = [];
    additional_config = [];
    resources = record { limits = []; requests = [] };
    volume_claim = "";
    readiness_probe_timings = zero_timings;
    liveness_probe_timings = zero_timings;
    pod_annotations = [];
    pod_security_context = "";
    security_context = "";
    node_selector = [];
    tolerations = "";
    affinity = "";
  };
  status = record { state = ""; address = ""; port = pos 0 };
  stroom_cluster_ref = empty_ref;
}
