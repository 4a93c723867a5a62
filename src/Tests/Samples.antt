-- ===== src/Tests/Samples.antt =====
-- Resources as the samples of the repository's chart have them.
use stroom_k8s_operator.Base.{false, none, some, [], ◌∷◌, string_eq}
use stroom_k8s_operator.Base.Int.{pos}
use stroom_k8s_operator.Kube.Meta.{empty_meta}
use stroom_k8s_operator.Kube.Core.{StatefulSet, empty_pod_spec, VolumeSource}
use stroom_k8s_operator.Api.Common.{ProbeTimings, ResourceRef, stroom_cluster_finalizer_name}
use stroom_k8s_operator.Api.DatabaseServer.{DatabaseServer, empty_database_server}
use stroom_k8s_operator.Api.StroomCluster.{StroomCluster, NodeSet, delete_on_scaledown_only_policy}
use stroom_k8s_operator.Api.Autoscaler.{StroomTaskAutoscaler, StroomTaskAutoscalerSpec}

abbrev timings : ProbeTimings
timings = record {
  initial_delay_seconds = pos 10;
  timeout_seconds = pos 5;
  period_seconds = pos 3;
  success_threshold = pos 1;
  failure_threshold = pos 3;
}

abbrev pub node_set : NodeSet
node_set = record {
  name = "data";
  count = pos 3;
  role = "";
  managed_jobs = [];
  local_data_volume_claim = "{}";
  extra_volume_mounts = [];
  resources = record { limits = ("cpu", "1") ∷ []; requests = [] };
  memory_options = record { initial_percentage = pos 50; max_percentage = pos 75 };
  ingress_enabled = none;
  ingress_annotations = [];
  ingress_labels = [];
  startup_probe_timings = timings;
  readiness_probe_timings = timings;
  liveness_probe_timings = timings;
  pod_annotations = [];
  pod_security_context = "{}";
  security_context = "{}";
  node_selector = [];
  tolerations = "[]";
  affinity = "{}";
}

abbrev pub sample_cluster : StroomCluster
sample_cluster = record {
  meta = record empty_meta { name = "dev"; namespace = "stroom" };
  spec = record {
    image = record { repository = "gchq/stroom"; tag = "v7" };
    image_pull_policy = "";
    database_server_ref = record {
      server_ref = record { name = "dev-db"; namespace = "" };
      server_address = record { host = ""; port = pos 0; secret_name = "" };
      user_name = "stroomuser";
    };
    app_database_name = "stroom";
    stats_database_name = "stats";
    config_map_ref = record { name = ""; item_name = "" };
    open_id = record { client_id = ""; client_secret = record { secret_name = ""; key = "" } };
    https = record {
      tls_secret_name = "";
      tls_keystore_password_secret_ref = record { secret_name = ""; key = "" };
    };
    ingress = record {
      host_name = "stroom.local";
      secret_name = "";
      class_name = "nginx";
      path_type_override = false;
    };
    pod_management_policy = "Parallel";
    node_termination_period_secs = pos 60;
    volume_claim_delete_policy = delete_on_scaledown_only_policy;
    node_sets = node_set ∷ [];
    extra_jvm_opts = [];
    extra_env = [];
    extra_volumes = record { name = "cache"; source = VolumeSource.empty_dir } ∷ [];
    extra_volume_mounts =
        record { name = "cache"; sub_path = ""; mount_path = "/cache"; read_only = false } ∷ [];
    log_sender = record {
      enabled = false;
      image = record { repository = ""; tag = "" };
      image_pull_policy = "";
      security_context = "{}";
      destination_url = "";
      environment_name = "";
      system_name = "";
      resources = record { limits = []; requests = [] };
      tls = record { secret_name = "" };
    };
  };
  status_nodes = [];
}

-- A cluster that is being deleted.
abbrev pub leaving_cluster : StroomCluster
leaving_cluster = record sample_cluster {
  meta = record empty_meta {
    name = "dev";
    namespace = "stroom";
    deletion_timestamp = some (pos 900);
  };
}

abbrev pub sample_server : DatabaseServer
sample_server = record empty_database_server {
  meta = record empty_meta { name = "dev-db"; namespace = "stroom" };
}

abbrev pub server_ref : ResourceRef
server_ref = record { name = "dev-db"; namespace = "stroom" }

-- A server that is being deleted, and that the cluster has claimed.
abbrev pub leaving_server : DatabaseServer
leaving_server = record empty_database_server {
  meta = record empty_meta {
    name = "dev-db";
    namespace = "stroom";
    finalizers = stroom_cluster_finalizer_name ∷ [];
    deletion_timestamp = some (pos 900);
  };
  stroom_cluster_ref = record { name = "dev"; namespace = "stroom" };
}

abbrev pub stateful_set : StatefulSet
stateful_set = record {
  meta = record empty_meta { name = "stroom-dev-node-data"; namespace = "stroom" };
  spec = record {
    replicas = pos 3;
    pod_management_policy = "Parallel";
    service_name = "stroom-dev-node-data";
    match_labels = [];
    template = record { annotations = []; labels = []; spec = empty_pod_spec };
    volume_claim_templates = [];
  };
  status_replicas = pos 3;
}

abbrev pub scaler_spec : StroomTaskAutoscalerSpec
scaler_spec = record {
  stroom_cluster_ref = record { name = "dev"; namespace = "stroom" };
  task_name = "Data Processor";
  adjustment_interval_mins = pos 1;
  metrics_sliding_window_mins = pos 10;
  min_cpu_percent = pos 50;
  max_cpu_percent = pos 90;
  min_task_limit = pos 1;
  max_task_limit = pos 20;
  step_amount = pos 2;
}

abbrev pub scaler : StroomTaskAutoscaler
scaler = record {
  meta = record empty_meta { name = "scaler"; namespace = "stroom" };
  spec = scaler_spec;
}
