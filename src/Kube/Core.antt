-- ===== src/Kube/Core.antt =====
-- The objects of the Kubernetes API groups that the operator builds, reads or deletes.
mod Pods
use stroom_k8s_operator.Base.{String, Bool, Option, none, List, []}
use stroom_k8s_operator.Base.Int.{ℤ}
use stroom_k8s_operator.Base.Dict.{Dict}
use stroom_k8s_operator.Kube.Meta.{Time, Json, Quantity, Labels, ObjectMeta}
pub use stroom_k8s_operator.Kube.Core.Pods.{
  ResourceRequirements, SecretKeySelector, EnvValue, value, field_ref, secret_key_ref, EnvVar,
  VolumeMount, KeyToPath, VolumeSource, config_map, secret, empty_dir, other, Volume, ProbeHandler,
  exec, http_get, Probe, ContainerPort, Container, empty_container, PodSpec, empty_pod_spec,
  PodTemplateSpec,
}

pub record PersistentVolumeClaim : Type 0 where
  pub meta : ObjectMeta
  pub open meta use *
  pub spec : Json

pub record StatefulSetSpec : Type 0 where
  pub replicas : ℤ
  pub pod_management_policy : String
  pub service_name : String
  pub match_labels : Labels
  pub template : PodTemplateSpec
  pub volume_claim_templates : List PersistentVolumeClaim

pub record StatefulSet : Type 0 where
  pub meta : ObjectMeta
  pub open meta use *
  pub spec : StatefulSetSpec
  pub status_replicas : ℤ

pub record Secret : Type 0 where
  pub meta : ObjectMeta
  pub open meta use *
  pub type : String
  pub items : Dict String String

pub record ConfigMap : Type 0 where
  pub meta : ObjectMeta
  pub open meta use *
  pub items : Dict String String

pub record ServiceAccount : Type 0 where
  pub meta : ObjectMeta
  pub open meta use *

pub record ServicePort : Type 0 where
  pub name : String
  pub port : ℤ
  pub protocol : String

pub record ServiceSpec : Type 0 where
  pub type : String
  pub cluster_ip : String
  pub selector : Labels
  pub ports : List ServicePort

pub record Service : Type 0 where
  pub meta : ObjectMeta
  pub open meta use *
  pub spec : ServiceSpec

pub record IngressTls : Type 0 where
  pub hosts : List String
  pub secret_name : String

pub record IngressPath : Type 0 where
  pub path : String
  pub path_type : String
  pub service_name : String
  pub port_name : String

pub record IngressRule : Type 0 where
  pub host : String
  pub paths : List IngressPath

pub record IngressSpec : Type 0 where
  pub ingress_class_name : String
  pub tls : List IngressTls
  pub rules : List IngressRule

pub record Ingress : Type 0 where
  pub meta : ObjectMeta
  pub open meta use *
  pub spec : IngressSpec

pub record CronJobSpec : Type 0 where
  pub schedule : String
  pub concurrency_policy : String
  pub ttl_seconds_after_finished : ℤ
  pub template : PodSpec

pub record CronJob : Type 0 where
  pub meta : ObjectMeta
  pub open meta use *
  pub spec : CronJobSpec

pub record Pod : Type 0 where
  pub meta : ObjectMeta
  pub open meta use *

-- metrics/v1beta1. `Usage.Cpu()` is the container's `cpu_usage`, and points to nothing at `none`.
pub record ContainerMetrics : Type 0 where
  pub name : String
  pub cpu_usage : Option Quantity

pub record PodMetrics : Type 0 where
  pub meta : ObjectMeta
  pub open meta use *
  pub timestamp : Time
  pub containers : List ContainerMetrics
