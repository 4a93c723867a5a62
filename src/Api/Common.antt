-- ===== src/Api/Common.antt =====
-- api/v1/common_types.go, database_connection.go and constants.go.
use stroom_k8s_operator.Base.{String, ◌<>◌, Bool, ◌&&◌, ◌==◌, string_eq, if◌then◌else◌}
use stroom_k8s_operator.Base.Int.{ℤ}
use stroom_k8s_operator.Kube.Meta.{NamespacedName}

pub record ProbeTimings : Type 0 where
  pub initial_delay_seconds : ℤ
  pub timeout_seconds : ℤ
  pub period_seconds : ℤ
  pub success_threshold : ℤ
  pub failure_threshold : ℤ

pub record Image : Type 0 where
  pub repository : String
  pub tag : String

-- Image.String()
unfoldable pub image_string : Image → String
image_string i = if i.tag == "" then i.repository <> ":latest" else i.repository <> ":" <> i.tag

-- Image.IsZero()
unfoldable pub image_is_zero : Image → Bool
image_is_zero i = i.repository == "" && i.tag == ""

pub record ResourceRef : Type 0 where
  pub name : String
  pub namespace : String

abbrev pub empty_ref : ResourceRef
empty_ref = record { name = ""; namespace = "" }

-- ResourceRef.IsZero(), and `== ResourceRef{}`
unfoldable pub is_zero : ResourceRef → Bool
is_zero r = r.name == "" && r.namespace == ""

-- ResourceRef.String()
unfoldable pub ref_string : ResourceRef → String
ref_string r = r.namespace <> "/" <> r.name

-- ResourceRef.NamespacedName()
abbrev pub namespaced_name : ResourceRef → NamespacedName
namespaced_name r = record { namespace = r.namespace; name = r.name }

pub record ServerAddress : Type 0 where
  pub host : String
  pub port : ℤ
  pub secret_name : String

pub record DatabaseServerRef : Type 0 where
  pub server_ref : ResourceRef
  pub server_address : ServerAddress
  pub user_name : String

abbrev pub stroom_cluster_finalizer_name : String
stroom_cluster_finalizer_name = "stroomcluster.finalizers.stroom.gchq.github.io"

abbrev pub wait_node_tasks_finalizer_name : String
wait_node_tasks_finalizer_name = "waitnodetasks.finalizers.stroom.gchq.github.io"
