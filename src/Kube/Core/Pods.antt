-- ===== src/Kube/Core/Pods.antt =====
-- The template of a pod, and what it holds.
use stroom_k8s_operator.Base.{String, Bool, Option, none, List, []}
use stroom_k8s_operator.Base.Int.{ℤ}
use stroom_k8s_operator.Base.Dict.{Dict}
use stroom_k8s_operator.Kube.Meta.{Json, Quantity, Labels}

pub record ResourceRequirements : Type 0 where
  pub limits : Dict String Quantity
  pub requests : Dict String Quantity

pub record SecretKeySelector : Type 0 where
  pub name : String
  pub key : String

-- The value of an environment variable: literal, of a field of the pod, or of a secret's key.
pub data EnvValue : Type 0 where
  value : String → EnvValue
  field_ref : String → EnvValue
  secret_key_ref : SecretKeySelector → EnvValue

pub record EnvVar : Type 0 where
  pub name : String
  pub value_from : EnvValue

pub record VolumeMount : Type 0 where
  pub name : String
  pub sub_path : String
  pub mount_path : String
  pub read_only : Bool

pub record KeyToPath : Type 0 where
  pub key : String
  pub path : String
  pub mode : Option ℤ

pub data VolumeSource : Type 0 where
  config_map : String → Option ℤ → VolumeSource
  secret : String → List KeyToPath → VolumeSource
  empty_dir : VolumeSource
  other : Json → VolumeSource

pub record Volume : Type 0 where
  pub name : String
  pub source : VolumeSource

pub data ProbeHandler : Type 0 where
  exec : List String → ProbeHandler
  http_get : String → String → ProbeHandler

pub record Probe : Type 0 where
  pub handler : ProbeHandler
  pub initial_delay_seconds : ℤ
  pub period_seconds : ℤ
  pub timeout_seconds : ℤ
  pub success_threshold : ℤ
  pub failure_threshold : ℤ

pub record ContainerPort : Type 0 where
  pub name : String
  pub container_port : ℤ
  pub protocol : String

pub record Container : Type 0 where
  pub name : String
  pub image : String
  pub image_pull_policy : String
  pub command : List String
  pub env : List EnvVar
  pub ports : List ContainerPort
  pub startup_probe : Option Probe
  pub readiness_probe : Option Probe
  pub liveness_probe : Option Probe
  pub pre_stop : List String
  pub security_context : Json
  pub resources : ResourceRequirements
  pub volume_mounts : List VolumeMount

abbrev pub empty_container : Container
empty_container = record {
  name = "";
  image = "";
  image_pull_policy = "";
  command = [];
  env = [];
  ports = [];
  startup_probe = none;
  readiness_probe = none;
  liveness_probe = none;
  pre_stop = [];
  security_context = "";
  resources = record { limits = []; requests = [] };
  volume_mounts = [];
}

pub record PodSpec : Type 0 where
  pub service_account_name : String
  pub restart_policy : String
  pub security_context : Json
  pub termination_grace_period_seconds : Option ℤ
  pub init_containers : List Container
  pub containers : List Container
  pub volumes : List Volume
  pub node_selector : Labels
  pub affinity : Json
  pub tolerations : Json

abbrev pub empty_pod_spec : PodSpec
empty_pod_spec = record {
  service_account_name = "";
  restart_policy = "";
  security_context = "";
  termination_grace_period_seconds = none;
  init_containers = [];
  containers = [];
  volumes = [];
  node_selector = [];
  affinity = "";
  tolerations = "";
}

pub record PodTemplateSpec : Type 0 where
  pub annotations : Labels
  pub labels : Labels
  pub spec : PodSpec
