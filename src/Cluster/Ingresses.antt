-- ===== src/Cluster/Ingresses.antt =====
-- internal/controller/stroomcluster.go: the ingresses of a StroomCluster.
pub mod Names
pub mod Routes
use stroom_k8s_operator.Base.{
  String, ◌<>◌, Bool, false, not, Option, none, some, List, [], ◌∷◌, ◌++◌, ◌!=◌, string_eq,
  if◌then◌else◌,
}
use stroom_k8s_operator.Base.Dict.{insert_all}
use stroom_k8s_operator.Kube.Meta.{Labels, empty_meta}
use stroom_k8s_operator.Kube.Core.{Ingress, IngressTls, IngressRule}
use stroom_k8s_operator.Api.StroomCluster.{
  StroomCluster, NodeSet, processing_node_role, frontend_node_role, https_is_zero, get_base_name,
  get_labels, get_node_set_service_name,
}
use stroom_k8s_operator.Cluster.Config.{app_http_port_name, app_https_port_name}

unfoldable pub create_ingress_rule : String → String → String → String → String → Bool → IngressRule
create_ingress_rule host_name path_type path service_name app_port_name path_type_override =
    record {
      host = host_name;
      paths =
          record {
            path = path;
            path_type = if path_type_override then "ImplementationSpecific" else path_type;
            service_name = service_name;
            port_name = app_port_name;
          }
          ∷ [];
    }

-- The service of the first node set that is not dedicated to the user interface.
unfoldable pub first_non_ui_service_name : StroomCluster → List NodeSet → String
first_non_ui_service_name c [] = ""
first_non_ui_service_name c (n ∷ ns) =
    if n.role != frontend_node_role
    then get_node_set_service_name c n
    else first_non_ui_service_name c ns

abbrev is_disabled : Option Bool → Bool
is_disabled none = false
is_disabled (some enabled) = not enabled

module _ (c : StroomCluster) where
  abbrev https : Bool
  https = not (https_is_zero c.spec.https)

  abbrev ingress_tls : List IngressTls
  ingress_tls =
      if https
      then record {
        hosts = c.spec.ingress.host_name ∷ [];
        secret_name = c.spec.ingress.secret_name;
      }
        ∷ []
      else record { hosts = []; secret_name = "" } ∷ []

  abbrev app_port_name : String
  app_port_name = if https then app_https_port_name else app_http_port_name

  rule : String → String → String → IngressRule
  unfolding create_ingress_rule
  rule path_type path service_name =
      create_ingress_rule c.spec.ingress.host_name path_type path service_name app_port_name
        c.spec.ingress.path_type_override

  default_annotations : Labels
  default_annotations =
      ("nginx.ingress.kubernetes.io/backend-protocol", if https then "HTTPS" else "HTTP")
      ∷ ("nginx.ingress.kubernetes.io/affinity", "cookie")
      ∷ ("nginx.ingress.kubernetes.io/affinity-mode", "persistent")
      ∷ ("nginx.ingress.kubernetes.io/proxy-body-size", "0")
      ∷ []

  datafeed_annotations : Labels
  datafeed_annotations =
      ("nginx.ingress.kubernetes.io/rewrite-target", "/stroom/noauth/datafeed")
      ∷ ("nginx.ingress.kubernetes.io/proxy-body-size", "0")
      ∷ ("haproxy.router.openshift.io/rewrite-target", "/stroom/noauth/datafeed")
      ∷ []

  ingress : NodeSet → String → Labels → List IngressRule → Ingress
  ingress n name annotations rules = record {
    meta = record empty_meta {
      name = name;
      namespace = c.namespace;
      labels = insert_all n.ingress_labels (get_labels c);
      annotations = insert_all n.ingress_annotations annotations;
    };
    spec = record {
      ingress_class_name = c.spec.ingress.class_name;
      tls = ingress_tls;
      rules = rules;
    };
  }

  -- The default route of a node set that serves the user interface.
  default_ingresses : NodeSet → List Ingress
  unfolding ingress rule default_annotations first_non_ui_service_name
  default_ingresses n =
      if n.role != processing_node_role
      then ingress n (get_base_name c) default_annotations (
          rule "Exact" "/stroom/noauth/datafeed" (first_non_ui_service_name c c.spec.node_sets)
          ∷ rule "Prefix" "/" (get_node_set_service_name c n)
          ∷ [])
        ∷ []
      else []

  -- The data feed of a node set that processes data.
  datafeed_ingresses : NodeSet → List Ingress
  unfolding ingress rule datafeed_annotations
  datafeed_ingresses n =
      if n.role != frontend_node_role
      then ingress n (get_base_name c <> "-datafeed") datafeed_annotations
          (rule "Exact" "/stroom/datafeeddirect" (get_node_set_service_name c n) ∷ [])
        ∷ []
      else []

  -- The loop over the node sets.
  unfoldable pub ingresses_of : List NodeSet → List Ingress
  unfolding default_ingresses datafeed_ingresses
  ingresses_of [] = []
  ingresses_of (n ∷ ns) =
      let rest = ingresses_of ns in
      if is_disabled n.ingress_enabled
      then rest
      else default_ingresses n ++ (datafeed_ingresses n ++ rest)

  -- The last loop of the function sets the owner on a copy of each ingress, so that the ingresses
  -- which it returns have none.
  unfoldable pub create_ingresses : List Ingress
  unfolding ingresses_of https_is_zero
  create_ingresses = ingresses_of c.spec.node_sets
