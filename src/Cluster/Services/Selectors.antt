-- ===== src/Cluster/Services/Selectors.antt =====
-- internal/controller/stroomcluster.go: the pods that a service of a node set selects.
use mathlib.Core.Option.{some-injective}
use stroom_k8s_operator.Base.{String, ◌≡◌, refl, sym, ap, ◌∙◌, ◌↔◌, some, All, string_eq}
use stroom_k8s_operator.Base.Dict.{lookup}
use stroom_k8s_operator.Kube.Meta.{Labels}
use stroom_k8s_operator.Kube.Env.{Library}
use stroom_k8s_operator.Api.StroomCluster.{
  StroomCluster, NodeSet, stroom_cluster_label, node_set_label, get_node_set_selector_labels,
}
use stroom_k8s_operator.Database.{DatabaseConnectionInfo}
use stroom_k8s_operator.Cluster.Services.{create_service}
use stroom_k8s_operator.Cluster.StatefulSet.{create_stateful_set}

-- Every label of the selector is a label of the pod, with the same value.
abbrev pub Selects : Labels → Labels → Type 0
Selects selector labels = All (λ l. lookup l.0 labels ≡ some l.1) selector

module _ (c : StroomCluster) (n : NodeSet) where
  lookup-cluster : lookup stroom_cluster_label (get_node_set_selector_labels c n) ≡ some c.name
  unfolding get_node_set_selector_labels lookup string_eq
  lookup-cluster = refl

  lookup-node_set : lookup node_set_label (get_node_set_selector_labels c n) ≡ some n.name
  unfolding get_node_set_selector_labels lookup string_eq
  lookup-node_set = refl

-- A service of a node set selects the pods of a StatefulSet exactly if that StatefulSet is of a
-- cluster with the same name and of a node set with the same name.
pub create_service-Selects :
    (L : Library) (c d : StroomCluster) (n m : NodeSet) (info : DatabaseConnectionInfo)
    (name cluster_ip : String)
    → Selects
        (create_service L d m name cluster_ip).spec.selector
        (create_stateful_set L c n info).spec.template.labels
      ↔ ((d.name ≡ c.name) × (m.name ≡ n.name))
unfolding create_service create_stateful_set get_node_set_selector_labels
create_service-Selects L c d n m info name cluster_ip = (
  λ selects. (
    sym (some-injective _ _ (sym (lookup-cluster c n) ∙ selects.0)),
    sym (some-injective _ _ (sym (lookup-node_set c n) ∙ selects.1.0)),
  ),
  λ same.
      (lookup-cluster c n ∙ ap some (sym same.0), (lookup-node_set c n ∙ ap some (sym same.1), tt)),
)
