-- ===== src/Autoscaler/Reconcile.antt =====
-- internal/controller/stroomtaskautoscaler_controller.go: `Reconcile`.
pub mod Samples
pub mod Panics
pub mod Schedule
pub mod Pause
pub mod Unread
use stroom_k8s_operator.Base.{
  String, Bool, true, false, Option, none, some, List, [], ◌∷◌, ◌||◌, ◌==◌, string_eq,
  if◌then◌else◌,
}
use stroom_k8s_operator.Base.Int.{ℤ, pos}
use stroom_k8s_operator.Base.State.{Err, not_found, Result, ok, err, M, pure, ◌>>=◌, ◌>>◌, on}
use stroom_k8s_operator.Kube.Meta.{Time, Quantity, NamespacedName, to_string}
use stroom_k8s_operator.Kube.Core.{ContainerMetrics, Pod}
use stroom_k8s_operator.Kube.Env.{Env, Kind, Library, key_of}
use stroom_k8s_operator.Kube.Outcome.{Outcome, done, failed, after_seconds}
use stroom_k8s_operator.Api.Common.{ResourceRef, namespaced_name}
use stroom_k8s_operator.Api.StroomCluster.{
  StroomCluster, NodeSet, frontend_node_role, get_node_set_selector_labels,
}
use stroom_k8s_operator.Api.Autoscaler.{StroomTaskAutoscaler}
use stroom_k8s_operator.Metrics.{
  StroomNodeMetric, StroomNodeMetricMap, empty_metric, is_zero, add_metric, age_off, should_scale,
  is_scale_scheduled, set_last_scaled, delete_pod_data, maximum_metric_retention_period_mins,
}
use stroom_k8s_operator.Database.{with_owner_namespace}
use stroom_k8s_operator.Autoscaler.Scale.{Scaled, returned, panicked, scale_stroom_node}

abbrev pub stroom_node_container_name : String
stroom_node_container_name = "stroom-node"

-- How a part of the loop ends: it goes on, or `Reconcile` returns or panics.
pub data Flow : Type 0 where
  next : Flow
  return : Outcome → Flow
  panic : Flow

-- The metrics after a part of the loop, and how it ended.
abbrev pub Step : Type 0
Step = Flow × StroomNodeMetricMap

abbrev pub default_result : Outcome
default_result = after_seconds (pos 10)

-- The sample of the Stroom node's container.
unfoldable pub find_metric : Time → List ContainerMetrics → StroomNodeMetric
find_metric timestamp [] = empty_metric
find_metric timestamp (container ∷ rest) =
    if container.name == stroom_node_container_name
    then record { time = timestamp; cpu_usage = container.cpu_usage }
    else find_metric timestamp rest

abbrev pub is_nil : Option Quantity → Bool
is_nil none = true
is_nil (some q) = false

-- A pod that appears for the first time is scheduled from the current time.
unfoldable pub schedule : String → Time → StroomNodeMetricMap → StroomNodeMetricMap
schedule key now m = if is_scale_scheduled key m then m else set_last_scaled key now m

-- After the call of `scaleStroomNode`.
unfoldable pub after_scaling : String → Time → StroomNodeMetricMap → Scaled → Step
unfolding schedule
after_scaling key now m panicked = (panic, m)
after_scaling key now m (returned (some e)) = (return (failed e), set_last_scaled key now m)
after_scaling key now m (returned none) = (next, schedule key now (set_last_scaled key now m))

-- The outcome; `none` is a panic.
abbrev pub outcome_of : Flow → Option Outcome
outcome_of next = some default_result
outcome_of (return r) = some r
outcome_of panic = none

abbrev pub finish : Step → Option Outcome × StroomNodeMetricMap
finish step = (outcome_of step.0, step.1)

abbrev pub get_failure : Err → Outcome
get_failure not_found = done
get_failure e = failed e

module _ (E : Env) (L : Library) where
  open E use {World}

  -- A pod whose usage is known, from `AddMetric` on.
  unfoldable pub record_metric :
      StroomCluster
      → NodeSet
      → StroomTaskAutoscaler
      → NamespacedName
      → Time
      → StroomNodeMetric
      → StroomNodeMetricMap
      → M World Step
  unfolding after_scaling schedule
  record_metric cluster node_set scaler pod now metric m =
      let key = to_string pod in
      let m' = age_off maximum_metric_retention_period_mins now (add_metric key metric m) in
      if should_scale key scaler.spec.adjustment_interval_mins now m'
      then (scale_stroom_node E L cluster node_set pod scaler.spec now m' >>= λ scaled.
          pure (after_scaling key now m' scaled))
      else pure (next, schedule key now m')

  -- The body of the loop over the pods.
  unfoldable pub visit_pod :
      StroomCluster → NodeSet → StroomTaskAutoscaler → Pod → StroomNodeMetricMap → M World Step
  unfolding record_metric find_metric
  visit_pod cluster node_set scaler pod m =
      let name = key_of Kind.pod pod in
      E.now >>= λ now.
      on (E.get Kind.pod_metrics name)
        (λ e. pure (return default_result, delete_pod_data (to_string name) m))
        (λ pod_metrics.
          let metric = find_metric pod_metrics.timestamp pod_metrics.containers in
          if is_zero metric || is_nil metric.cpu_usage
          then pure (next, m)
          else record_metric cluster node_set scaler name now metric m)

  unfoldable pub visit_pods :
      StroomCluster → NodeSet → StroomTaskAutoscaler → List Pod → StroomNodeMetricMap → M World Step
  visit_pods cluster node_set scaler [] m = pure (next, m)
  visit_pods cluster node_set scaler (pod ∷ pods) m =
      visit_pod cluster node_set scaler pod m >>= λ step. elim step.0 [
        | next ↦ visit_pods cluster node_set scaler pods step.1
        | return r ↦ pure step
        | panic ↦ pure step
      ]

  -- The loop over the node sets.
  unfoldable pub visit_node_sets :
      StroomCluster → StroomTaskAutoscaler → List NodeSet → StroomNodeMetricMap → M World Step
  visit_node_sets cluster scaler [] m = pure (next, m)
  visit_node_sets cluster scaler (node_set ∷ node_sets) m =
      let skip = visit_node_sets cluster scaler node_sets m in
      if node_set.role == frontend_node_role
      then skip
      else on (E.list Kind.pod cluster.namespace (get_node_set_selector_labels cluster node_set))
          (λ e. pure (return (failed e), m))
          (λ pods. visit_pods cluster node_set scaler pods m >>= λ step. elim step.0 [
            | next ↦ visit_node_sets cluster scaler node_sets step.1
            | return r ↦ pure step
            | panic ↦ pure step
          ])

  -- `Reconcile`, with the reconciler's metrics before and after.
  unfoldable pub reconcile :
      NamespacedName → StroomNodeMetricMap → M World (Option Outcome × StroomNodeMetricMap)
  unfolding visit_pod visit_pods visit_node_sets with_owner_namespace
  reconcile request m =
      on (E.get Kind.stroom_task_autoscaler request) (λ e. pure (some (get_failure e), m))
        (λ scaler.
          on
            (E.get Kind.stroom_cluster (
              namespaced_name
                (with_owner_namespace scaler.spec.stroom_cluster_ref request.namespace)))
            (λ e. pure (some (failed e), m))
            (λ cluster. visit_node_sets cluster scaler cluster.spec.node_sets m >>= λ step.
              pure (finish step)))
