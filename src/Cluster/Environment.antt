-- ===== src/Cluster/Environment.antt =====
-- internal/controller/stroomcluster.go: the environment of a Stroom node's container.
use stroom_k8s_operator.Base.{
  String, ◌<>◌, not, List, [], ◌∷◌, ◌++◌, ◌==◌, string_eq, if◌then◌else◌,
}
use stroom_k8s_operator.Base.Int.{pos, ltb_ℤ}
use stroom_k8s_operator.Base.Text.{itoa, join}
use stroom_k8s_operator.Kube.Core.{EnvVar, EnvValue}
use stroom_k8s_operator.Api.StroomCluster.{
  StroomCluster, NodeSet, processing_node_role, frontend_node_role, https_is_zero, open_id_is_zero,
  get_node_set_headless_service_name,
}
use stroom_k8s_operator.Database.{DatabaseConnectionInfo, to_jdbc_connection_string}
use stroom_k8s_operator.Cluster.Config.{
  app_http_port_number, app_https_port_number, admin_port_number,
}

abbrev pub literal : String → String → EnvVar
literal name s = record { name = name; value_from = EnvValue.value s }

abbrev pub from_field : String → String → EnvVar
from_field name path = record { name = name; value_from = EnvValue.field_ref path }

abbrev pub from_secret : String → String → String → EnvVar
from_secret name secret key = record {
  name = name;
  value_from = EnvValue.secret_key_ref (record { name = secret; key = key });
}

-- The `Value` of a variable, empty where it is taken from elsewhere.
abbrev literal_value : EnvValue → String
literal_value (EnvValue.value s) = s
literal_value (EnvValue.field_ref p) = ""
literal_value (EnvValue.secret_key_ref s) = ""

-- The options from the memory settings and the extra options.
unfoldable pub computed_jvm_options : StroomCluster → NodeSet → String
unfolding itoa join
computed_jvm_options c n =
    join
      ((if ltb_ℤ (pos 0) n.memory_options.initial_percentage
          then ("-XX:InitialRAMPercentage=" <> itoa n.memory_options.initial_percentage) ∷ []
          else [])
        ++ ((if ltb_ℤ (pos 0) n.memory_options.max_percentage
              then ("-XX:MaxRAMPercentage=" <> itoa n.memory_options.max_percentage) ∷ []
              else [])
            ++ c.spec.extra_jvm_opts))
      " "

-- The loop over `ExtraEnv`: a JAVA_OPTS there is used in place of the computed options.
unfoldable pub java_opts_from : List EnvVar → String → String
java_opts_from [] computed = computed
java_opts_from (env ∷ rest) computed =
    if env.name == "JAVA_OPTS" then literal_value env.value_from else java_opts_from rest computed

unfoldable pub get_jvm_options : StroomCluster → NodeSet → String
unfolding computed_jvm_options java_opts_from
get_jvm_options c n = java_opts_from c.spec.extra_env (computed_jvm_options c n)

-- The jobs that the node's scripts enable and disable.
unfoldable pub include_jobs : NodeSet → List String
include_jobs n = elim n.managed_jobs [
  | job ∷ jobs ↦ n.managed_jobs
  | [] ↦
      if n.role == processing_node_role
      then []
      else if n.role == frontend_node_role
      then "Reindex Content" ∷ []
      else []
]

abbrev pod_name_path : String
pod_name_path = "metadata.labels['statefulset.kubernetes.io/pod-name']"

module _ (c : StroomCluster) (n : NodeSet) (info : DatabaseConnectionInfo) where
  unfoldable pub base_env : List EnvVar
  unfolding get_jvm_options to_jdbc_connection_string
  base_env =
      literal "API_GATEWAY_HOST" c.spec.ingress.host_name
      ∷ literal "ADMIN_CONTEXT_PATH" "/stroomAdmin"
      ∷ literal "APPLICATION_CONTEXT_PATH" "/"
      ∷ from_field "DOCKER_HOST_HOSTNAME" pod_name_path
      ∷ from_field "DOCKER_HOST_IP" "status.podIP"
      ∷ from_field "POD_HOSTNAME" pod_name_path
      ∷ literal "POD_SUBDOMAIN"
          (get_node_set_headless_service_name c n <> "." <> c.namespace <> ".svc.cluster.local")
      ∷ literal "JAVA_OPTS" (get_jvm_options c n)
      ∷ literal "STROOM_APP_HTTP_PORT" (itoa app_http_port_number)
      ∷ literal "STROOM_APP_HTTPS_PORT" (itoa app_https_port_number)
      ∷ literal "STROOM_ADMIN_PORT" (itoa admin_port_number)
      ∷ from_field "STROOM_NODE" pod_name_path
      ∷ literal "STROOM_NODE_ROLE" n.role
      ∷ literal "STROOM_JDBC_DRIVER_URL" (to_jdbc_connection_string info c.spec.app_database_name)
      ∷ literal "STROOM_JDBC_DRIVER_CLASS_NAME" "com.mysql.cj.jdbc.Driver"
      ∷ literal "STROOM_JDBC_DRIVER_USERNAME" info.user_name
      ∷ from_secret "STROOM_JDBC_DRIVER_PASSWORD" info.secret_name info.user_name
      ∷ literal "STROOM_STATISTICS_JDBC_DRIVER_URL"
          (to_jdbc_connection_string info c.spec.stats_database_name)
      ∷ literal "STROOM_STATISTICS_JDBC_DRIVER_CLASS_NAME" "com.mysql.cj.jdbc.Driver"
      ∷ literal "STROOM_STATISTICS_JDBC_DRIVER_USERNAME" info.user_name
      ∷ from_secret "STROOM_STATISTICS_JDBC_DRIVER_PASSWORD" info.secret_name info.user_name
      ∷ literal "STROOM_TEMP" "/stroom/tmp"
      ∷ []

  -- Appended where HTTPS is configured.
  unfoldable pub https_env : List EnvVar
  unfolding https_is_zero
  https_env =
      if not (https_is_zero c.spec.https)
      then from_secret "STROOM_KEYSTORE_PASSWORD"
          c.spec.https.tls_keystore_password_secret_ref.secret_name
          c.spec.https.tls_keystore_password_secret_ref.key
        ∷ []
      else []

  -- Appended where an OpenID client is configured.
  unfoldable pub open_id_env : List EnvVar
  unfolding open_id_is_zero
  open_id_env =
      if not (open_id_is_zero c.spec.open_id)
      then literal "STROOM_OPERATOR_OPENID_CLIENT_ID" c.spec.open_id.client_id
        ∷ from_secret "STROOM_OPERATOR_OPENID_CLIENT_SECRET"
            c.spec.open_id.client_secret.secret_name c.spec.open_id.client_secret.key
        ∷ []
      else []

  unfoldable pub node_env : List EnvVar
  unfolding base_env https_env open_id_env include_jobs
  node_env =
      base_env
      ++ (c.spec.extra_env
          ++ (literal "STROOM_NODE_MANAGED_JOBS" (join (include_jobs n) ",") ∷ []
              ++ (https_env ++ open_id_env)))
