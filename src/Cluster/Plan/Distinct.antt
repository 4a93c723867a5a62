-- ===== src/Cluster/Plan/Distinct.antt =====
-- internal/controller/stroomcluster_controller.go: the objects of a plan have names of their own.
use text.Mathlib.TextLemmas.{append_cancel_left}
use stroom_k8s_operator.Base.{
  Bool-cases, inl, inr, ◌++◌, String, ◌≡◌, refl, sym, ap, ◌∙◌, ◌≢◌, List, [], ne_of_test, string_eq,
  ◌∷◌, All, All-append,
}
use stroom_k8s_operator.Kube.Core.{Ingress, ConfigMap}
use stroom_k8s_operator.Kube.Env.{Kind, Library}
use stroom_k8s_operator.Kube.Owner.{KeepsNames, controlled-names}
use stroom_k8s_operator.Api.StroomCluster.{
  StroomCluster, NodeSet, get_base_name, get_node_set_name, get_node_set_headless_service_name,
  get_node_set_service_name, log_sender_is_zero, get_static_content_config_map_name,
  get_log_sender_config_map_name,
}
use stroom_k8s_operator.Database.{DatabaseConnectionInfo}
use stroom_k8s_operator.DatabaseServer.Children.{Key}
use stroom_k8s_operator.Cluster.StatefulSet.{create_stateful_set}
use stroom_k8s_operator.Cluster.Services.{create_service}
use stroom_k8s_operator.Cluster.Config.{create_config_map, create_log_sender_config_map}
use stroom_k8s_operator.Cluster.Ingresses.{create_ingresses}
use stroom_k8s_operator.Base.Dict.{Dict}
use stroom_k8s_operator.Cluster.Plan.{
  config_map, plan, Item, stateful_set, service, key, Apart, Distinct, node_set_items,
  ingress_items,
}
use stroom_k8s_operator.Cluster.Plan.Names.{
  Differ, Unique, get_node_set_name_ne, service_name_ne, headless_ne_service, own_names_ne,
}

-- Keys of different kinds, and of different names.
ne_of_kind : (a b : Key) → a.0 ≢ b.0 → a ≢ b
ne_of_kind a b h e = h (ap (λ p. p.0) e)

ne_of_name : (a b : Key) → a.1.name ≢ b.1.name → a ≢ b
ne_of_name a b h e = h (ap (λ p. p.1.name) e)

module _ (L : Library) (names : KeepsNames L) (c : StroomCluster)
    (info : DatabaseConnectionInfo) where
  stateful_set_name :
      (n : NodeSet) → (create_stateful_set L c n info).meta.name ≡ get_node_set_name c n
  unfolding create_stateful_set
  stateful_set_name n = (controlled-names L names _ _).0

  service_name : (n : NodeSet) (name ip : String) → (create_service L c n name ip).meta.name ≡ name
  unfolding create_service
  service_name n name ip = (controlled-names L names _ _).0

  abbrev headless : NodeSet → Item
  headless n = service (create_service L c n (get_node_set_headless_service_name c n) "None")

  abbrev cluster_ip : NodeSet → Item
  cluster_ip n = service (create_service L c n (get_node_set_service_name c n) "")

  abbrev set : NodeSet → Item
  set n = stateful_set n (create_stateful_set L c n info)

  -- An item of a kind that no item of a node set has.
  other_kind-Apart :
      (x : Item) (ns : List NodeSet)
      → (key x).0 ≢ Kind.stateful_set
      → (key x).0 ≢ Kind.service
      → Apart x (node_set_items L c info ns)
  other_kind-Apart x [] h k = tt
  other_kind-Apart x (n ∷ ns) h k = (
    ne_of_kind (key x) _ h,
    (ne_of_kind (key x) _ k, (ne_of_kind (key x) _ k, other_kind-Apart x ns h k)),
  )

  ingress-Apart :
      (x : Item) (is : List Ingress)
      → (key x).0 ≢ Kind.ingress
      → Apart x (ingress_items L c info is)
  ingress-Apart x [] h = tt
  ingress-Apart x (i ∷ is) h = (ne_of_kind (key x) _ h, ingress-Apart x is h)

  set-Apart :
      (n : NodeSet) (ns : List NodeSet)
      → All (Differ n) ns
      → Apart (set n) (node_set_items L c info ns)
  set-Apart n [] h = tt
  set-Apart n (m ∷ ms) h = (
    ne_of_name (key (set n)) (key (set m)) (λ e.
        get_node_set_name_ne c n m h.0.0 (sym (stateful_set_name n) ∙ (e ∙ stateful_set_name m))),
    (ne_of_kind _ _ (λ e. cc), (ne_of_kind _ _ (λ e. cc), set-Apart n ms h.1)),
  )

  headless-Apart :
      (n : NodeSet) (ns : List NodeSet)
      → All (Differ n) ns
      → Apart (headless n) (node_set_items L c info ns)
  unfolding get_node_set_headless_service_name
  headless-Apart n [] h = tt
  headless-Apart n (m ∷ ms) h = (
    ne_of_kind _ _ (λ e. cc),
    (
      ne_of_name (key (headless n)) (key (headless m)) (λ e.
          get_node_set_name_ne c n m h.0.0 (sym (service_name n _ _) ∙ (e ∙ service_name m _ _))),
      (
        ne_of_name (key (headless n)) (key (cluster_ip m)) (λ e.
            headless_ne_service c n m h.0.1 (sym (service_name n _ _) ∙ (e ∙ service_name m _ _))),
        headless-Apart n ms h.1,
      ),
    ),
  )

  cluster_ip-Apart :
      (n : NodeSet) (ns : List NodeSet)
      → All (Differ n) ns
      → Apart (cluster_ip n) (node_set_items L c info ns)
  unfolding get_node_set_headless_service_name
  cluster_ip-Apart n [] h = tt
  cluster_ip-Apart n (m ∷ ms) h = (
    ne_of_kind _ _ (λ e. cc),
    (
      ne_of_name (key (cluster_ip n)) (key (headless m)) (λ e.
          headless_ne_service c m n h.0.2
            (sym (service_name m _ _) ∙ (sym e ∙ service_name n _ _))),
      (
        ne_of_name (key (cluster_ip n)) (key (cluster_ip m)) (λ e.
            service_name_ne c n m h.0.0 (sym (service_name n _ _) ∙ (e ∙ service_name m _ _))),
        cluster_ip-Apart n ms h.1,
      ),
    ),
  )

  node_set_items-Distinct : (ns : List NodeSet) → Unique ns → Distinct (node_set_items L c info ns)
  unfolding get_node_set_headless_service_name
  node_set_items-Distinct [] u = tt
  node_set_items-Distinct (n ∷ ns) u = (
    (ne_of_kind _ _ (λ e. cc), (ne_of_kind _ _ (λ e. cc), set-Apart n ns u.0)),
    (
      (
        ne_of_name (key (headless n)) (key (cluster_ip n))
            (λ e. own_names_ne c n (sym (service_name n _ _) ∙ (e ∙ service_name n _ _))),
        headless-Apart n ns u.0,
      ),
      (cluster_ip-Apart n ns u.0, node_set_items-Distinct ns u.1),
    ),
  )

  Distinct-append :
      (xs ys : List Item)
      → Distinct xs
      → Distinct ys
      → All (λ x. Apart x ys) xs
      → Distinct (xs ++ ys)
  Distinct-append [] ys dx dy apart = dy
  Distinct-append (x ∷ xs) ys dx dy apart =
      (All-append _ xs ys dx.0 apart.0, Distinct-append xs ys dx.1 dy apart.1)

  items-Apart :
      (ns : List NodeSet) (is : List Ingress)
      → All (λ x. Apart x (ingress_items L c info is)) (node_set_items L c info ns)
  items-Apart [] is = tt
  items-Apart (n ∷ ns) is = (
    ingress-Apart (set n) is (λ e. cc),
    (
      ingress-Apart (headless n) is (λ e. cc),
      (ingress-Apart (cluster_ip n) is (λ e. cc), items-Apart ns is),
    ),
  )

  rest-Distinct :
      (ns : List NodeSet) (is : List Ingress)
      → Unique ns
      → Distinct (ingress_items L c info is)
      → Distinct (node_set_items L c info ns ++ ingress_items L c info is)
  rest-Distinct ns is u d = Distinct-append _ _ (node_set_items-Distinct ns u) d (items-Apart ns is)

  -- A ConfigMap before the rest.
  config_map-Apart :
      (m : ConfigMap) (ns : List NodeSet) (is : List Ingress)
      → Apart (config_map m) (node_set_items L c info ns ++ ingress_items L c info is)
  config_map-Apart m ns is =
      All-append _ (node_set_items L c info ns) _
        (other_kind-Apart (config_map m) ns (λ e. cc) (λ e. cc))
        (ingress-Apart (config_map m) is (λ e. cc))

  config_map_names :
      (contents : Dict String String)
      → (create_config_map L c contents).meta.name ≢ (create_log_sender_config_map L c).meta.name
  unfolding create_config_map create_log_sender_config_map get_static_content_config_map_name
      get_log_sender_config_map_name string_eq
  config_map_names contents e = ne_of_test "-static-content" "-log-sender" refl (
      append_cancel_left (get_base_name c) "-static-content" "-log-sender"
        (sym ((controlled-names L names _ _).0) ∙ (e ∙ (controlled-names L names _ _).0)))

  -- No two objects of a cluster's plan have the same kind and name, where no node set is named as
  -- another one or as another one with "-http" behind it, and the ingresses have names of their
  -- own. `SetControllerReference` keeps the objects' names.
  pub plan-Distinct :
      (contents : Dict String String)
      → Unique c.spec.node_sets
      → Distinct (ingress_items L c info (create_ingresses c))
      → Distinct (plan L c info contents)
  plan-Distinct contents u d = elim (Bool-cases (log_sender_is_zero c.spec.log_sender)) [
    | inl zero' ↦
        rw zero' (config_map-Apart (create_config_map L c contents) _ _, rest-Distinct _ _ u d)
    | inr given ↦ rw given (
      (
        ne_of_name _ _ (config_map_names contents),
        config_map-Apart (create_config_map L c contents) _ _,
      ),
      (config_map-Apart (create_log_sender_config_map L c) _ _, rest-Distinct _ _ u d),
    )
  ]
