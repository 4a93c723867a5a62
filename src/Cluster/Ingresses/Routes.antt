-- ===== src/Cluster/Ingresses/Routes.antt =====
-- internal/controller/stroomcluster.go: the services behind the paths of the ingresses.
use stroom_k8s_operator.Base.{
  String, ◌≡◌, refl, sym, ◌∙◌, inl, inr, true, List, [], ◌∷◌, All, Any, All-append, All-Any,
  Any-map, Bool-cases, ◌!=◌, string_eq,
}
use mathlib.Core.Path.{subst}
use stroom_k8s_operator.Kube.Core.{Ingress, IngressPath, IngressRule, Service, ServicePort}
use stroom_k8s_operator.Kube.Env.{Library}
use stroom_k8s_operator.Kube.Owner.{KeepsNames, controlled-names}
use stroom_k8s_operator.Api.StroomCluster.{
  StroomCluster, NodeSet, processing_node_role, frontend_node_role, get_node_set_service_name,
  https_is_zero,
}
use stroom_k8s_operator.Cluster.Config.{
  app_http_port_name, app_https_port_name, app_http_port_number, app_https_port_number,
  admin_port_name, admin_port_number,
}
use stroom_k8s_operator.Cluster.Services.{create_service}
use stroom_k8s_operator.Cluster.Ingresses.{
  first_non_ui_service_name, app_port_name, rule, default_ingresses, datafeed_ingresses,
  is_disabled, ingresses_of, create_ingresses,
}

module _ (L : Library) (names : KeepsNames L) (c : StroomCluster) where
  -- The ClusterIP service of a node set.
  abbrev pub service_of : NodeSet → Service
  service_of n = create_service L c n (get_node_set_service_name c n) ""

  -- A path leads to a port of the service.
  pub record LeadsTo (path : IngressPath) (s : Service) : Type 0 where
    pub named : path.service_name ≡ s.name
    pub open_port : Any (λ p. path.port_name ≡ p.name) s.spec.ports

  abbrev pub IsRouted : IngressPath → Type 0
  IsRouted path = Any (λ n. LeadsTo path (service_of n)) c.spec.node_sets

  abbrev pub IsRoutedRule : IngressRule → Type 0
  IsRoutedRule r = All IsRouted r.paths

  abbrev pub IsRoutedIngress : Ingress → Type 0
  IsRoutedIngress i = All IsRoutedRule i.spec.rules

  -- The name of a node set's service.
  abbrev IsServed : String → Type 0
  IsServed name = Any (λ n. name ≡ get_node_set_service_name c n) c.spec.node_sets

  -- The port of a path is one that every service of the cluster has.
  port_name_open :
      (path : IngressPath)
      → path.port_name ≡ app_port_name c
      → Any
          (λ (p : ServicePort). path.port_name ≡ p.name)
          (record { name = app_https_port_name; port = app_https_port_number; protocol = "TCP" }
            ∷ record { name = app_http_port_name; port = app_http_port_number; protocol = "TCP" }
            ∷ record { name = admin_port_name; port = admin_port_number; protocol = "TCP" }
            ∷ [])
  port_name_open path port = elim (Bool-cases (https_is_zero c.spec.https)) [
    | inl plain ↦ inr (inl (rw plain at port))
    | inr secure ↦ inl (rw secure at port)
  ]

  leads :
      (path : IngressPath) (n : NodeSet)
      → path.port_name ≡ app_port_name c
      → path.service_name ≡ get_node_set_service_name c n
      → LeadsTo path (service_of n)
  unfolding create_service
  leads path n port named = record {
    named = named ∙ sym (controlled-names L names _ _).0;
    open_port = port_name_open path port;
  }

  rule-IsRouted :
      (path_type path name : String) → IsServed name → IsRoutedRule (rule c path_type path name)
  unfolding rule
  rule-IsRouted path_type path name served =
      (Any-map _ _ (λ n h. leads _ n refl h) c.spec.node_sets served, tt)

  module _ (first : IsServed (first_non_ui_service_name c c.spec.node_sets)) where
    default_ingresses-IsRouted :
        (n : NodeSet)
        → IsServed (get_node_set_service_name c n)
        → All IsRoutedIngress (default_ingresses c n)
    unfolding default_ingresses
    default_ingresses-IsRouted n served = elim (Bool-cases (n.role != processing_node_role)) [
      | inl serves ↦ rw serves ((rule-IsRouted _ _ _ first, (rule-IsRouted _ _ _ served, tt)), tt)
      | inr works ↦ rw works tt
    ]

  datafeed_ingresses-IsRouted :
      (n : NodeSet)
      → IsServed (get_node_set_service_name c n)
      → All IsRoutedIngress (datafeed_ingresses c n)
  unfolding datafeed_ingresses
  datafeed_ingresses-IsRouted n served = elim (Bool-cases (n.role != frontend_node_role)) [
    | inl works ↦ rw works ((rule-IsRouted _ _ _ served, tt), tt)
    | inr serves ↦ rw serves tt
  ]

  ingresses_of-IsRouted :
      (ns : List NodeSet)
      → IsServed (first_non_ui_service_name c c.spec.node_sets)
      → All (λ n. IsServed (get_node_set_service_name c n)) ns
      → All IsRoutedIngress (ingresses_of c ns)
  unfolding ingresses_of
  ingresses_of-IsRouted [] first served = tt
  ingresses_of-IsRouted (n ∷ ns) first served = elim (Bool-cases (is_disabled n.ingress_enabled)) [
    | inl off ↦ rw off (ingresses_of-IsRouted ns first served.1)
    | inr on' ↦ rw on' (
        All-append IsRoutedIngress (default_ingresses c n) _
          (default_ingresses-IsRouted first n served.0)
          (All-append IsRoutedIngress (datafeed_ingresses c n) _
            (datafeed_ingresses-IsRouted n served.0) (ingresses_of-IsRouted ns first served.1)))
  ]

  -- The node set takes data.
  abbrev pub TakesData : NodeSet → Type 0
  TakesData n = (n.role != frontend_node_role) ≡ true

  first_non_ui_service_name-IsServed :
      (ns : List NodeSet)
      → Any TakesData ns
      → Any (λ n. first_non_ui_service_name c ns ≡ get_node_set_service_name c n) ns
  unfolding first_non_ui_service_name
  first_non_ui_service_name-IsServed [] h = absurd h
  first_non_ui_service_name-IsServed (n ∷ ns) (inl takes) = rw takes (inl refl)
  first_non_ui_service_name-IsServed (n ∷ ns) (inr later) =
      elim (Bool-cases (n.role != frontend_node_role)) [
        | inl takes ↦ rw takes (inl refl)
        | inr serves ↦
            let skipped : first_non_ui_service_name c (n ∷ ns) ≡ first_non_ui_service_name c ns =
              rw serves in
            subst (λ s. Any (λ m. s ≡ get_node_set_service_name c m) (n ∷ ns)) (sym skipped)
              (inr (first_non_ui_service_name-IsServed ns later))
      ]

  -- Every path of every ingress of a cluster leads to the ClusterIP service of one of its node
  -- sets, and to a port that this service opens, if some node set is not dedicated to the user
  -- interface. `SetControllerReference` keeps the objects' names.
  pub create_ingresses-IsRouted :
      Any TakesData c.spec.node_sets → All IsRoutedIngress (create_ingresses c)
  unfolding create_ingresses
  create_ingresses-IsRouted h =
      ingresses_of-IsRouted c.spec.node_sets (first_non_ui_service_name-IsServed c.spec.node_sets h)
        (All-Any (λ n m. get_node_set_service_name c n ≡ get_node_set_service_name c m) (λ n. refl)
          c.spec.node_sets)
