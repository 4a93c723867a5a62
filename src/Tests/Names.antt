-- ===== src/Tests/Names.antt =====
-- The theorems on names, routes and probes, at a cluster of two node sets.
use stroom_k8s_operator.Base.{
  ◌≡◌, refl, ap, ◌↔◌, ◌⊎◌, inl, false, some, [], ◌∷◌, All, ne_of_test, string_eq,
}
use stroom_k8s_operator.Base.Int.{pos}
use stroom_k8s_operator.Api.Common.{ProbeTimings}
use stroom_k8s_operator.Api.StroomCluster.{
  StroomCluster, NodeSet, get_base_name, get_node_set_headless_service_name,
  get_node_set_service_name, frontend_node_role,
}
use stroom_k8s_operator.Cluster.Containers.{node_container}
use stroom_k8s_operator.Cluster.Containers.Probes.{IsTimed, IsDelayed, node_container-IsTimed}
use stroom_k8s_operator.Cluster.Ingresses.{create_ingresses}
use stroom_k8s_operator.Cluster.Ingresses.Names.{
  AtMostOne, serves, takes_data, create_ingresses-Distinct,
}
use stroom_k8s_operator.Cluster.Ingresses.Routes.{
  IsRoutedIngress, TakesData, create_ingresses-IsRouted,
}
use stroom_k8s_operator.Cluster.Plan.{Distinct, plan, ingress_items}
use stroom_k8s_operator.Cluster.Plan.Names.{Unique, service_name_clash}
use stroom_k8s_operator.Cluster.Plan.Distinct.{plan-Distinct}
use stroom_k8s_operator.Tests.Client.{library}
use stroom_k8s_operator.Tests.Samples.{node_set, sample_cluster}
use stroom_k8s_operator.Tests.Progress.{library-KeepsNames}
use stroom_k8s_operator.Tests.Plan.{info, contents}

abbrev ui : NodeSet
ui = record node_set { name = "ui"; role = frontend_node_role; ingress_enabled = some false }

abbrev two_sets : StroomCluster
two_sets = record sample_cluster {
  spec = record sample_cluster.spec { node_sets = node_set ∷ ui ∷ [] };
}

two_sets-Unique : Unique two_sets.spec.node_sets
unfolding string_eq
two_sets-Unique = (
  (
    (
      ne_of_test "data" "ui" refl,
      ne_of_test "data" "ui-http" refl,
      ne_of_test "ui" "data-http" refl,
    ),
    tt,
  ),
  (tt, tt),
)

two_sets-Distinct : Distinct (ingress_items library two_sets info (create_ingresses two_sets))
unfolding create_ingresses get_base_name string_eq
two_sets-Distinct =
    ((λ e. ne_of_test "stroom-dev" "stroom-dev-datafeed" refl (ap (λ p. p.1.name) e), tt), (tt, tt))

plan-Distinct_example : Distinct (plan library two_sets info contents)
plan-Distinct_example =
    plan-Distinct library library-KeepsNames two_sets info contents two_sets-Unique
      two_sets-Distinct

service_name_clash_example :
    get_node_set_headless_service_name sample_cluster (record node_set { name = "data-http" })
    ≡ get_node_set_service_name sample_cluster node_set
service_name_clash_example =
    service_name_clash sample_cluster (record node_set { name = "data-http" }) node_set refl

two_sets-TakesData :
    (TakesData library library-KeepsNames two_sets node_set)
    ⊎ (TakesData library library-KeepsNames two_sets ui ⊎ ⊥)
unfolding string_eq
two_sets-TakesData = inl refl

create_ingresses-IsRouted_example :
    All (IsRoutedIngress library library-KeepsNames two_sets) (create_ingresses two_sets)
create_ingresses-IsRouted_example =
    create_ingresses-IsRouted library library-KeepsNames two_sets two_sets-TakesData

abbrev timings : ProbeTimings
timings = record node_set.readiness_probe_timings { period_seconds = pos 3 }

abbrev timed_node_set : NodeSet
timed_node_set = record node_set { readiness_probe_timings = timings }

node_container-IsTimed_example :
    IsTimed IsDelayed timed_node_set.readiness_probe_timings
      (node_container two_sets timed_node_set info).readiness_probe
    × IsTimed IsDelayed timed_node_set.liveness_probe_timings
        (node_container two_sets timed_node_set info).liveness_probe
    × IsTimed
        (λ t p. p.period_seconds ≡ t.period_seconds)
        timed_node_set.startup_probe_timings
        (node_container two_sets timed_node_set info).startup_probe
node_container-IsTimed_example = node_container-IsTimed two_sets timed_node_set info

create_ingresses-Distinct_example :
    Distinct (ingress_items library two_sets info (create_ingresses two_sets))
    ↔ (AtMostOne serves (node_set ∷ ui ∷ []) × AtMostOne takes_data (node_set ∷ ui ∷ []))
create_ingresses-Distinct_example = create_ingresses-Distinct library two_sets info
