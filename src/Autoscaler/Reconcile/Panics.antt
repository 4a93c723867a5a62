-- ===== src/Autoscaler/Reconcile/Panics.antt =====
-- internal/controller/stroomtaskautoscaler_controller.go: `Reconcile` reads no missing usage.
use stroom_k8s_operator.Base.{
  String, ◌≡◌, refl, ◌≢◌, inl, inr, false, Option, none, some, List, [], ◌∷◌, arith, ◌==◌,
  string_eq, Bool-cases, ◌||◌,
}
use stroom_k8s_operator.Base.State.{M, pure, on_cases}
use stroom_k8s_operator.Kube.Meta.{Time, NamespacedName, to_string}
use stroom_k8s_operator.Kube.Core.{Pod}
use stroom_k8s_operator.Kube.Env.{Env, Kind, Library, key_of}
use stroom_k8s_operator.Kube.Outcome.{Outcome, failed}
use stroom_k8s_operator.Api.Common.{namespaced_name}
use stroom_k8s_operator.Api.StroomCluster.{
  StroomCluster, NodeSet, frontend_node_role, get_node_set_selector_labels,
}
use stroom_k8s_operator.Api.Autoscaler.{StroomTaskAutoscaler}
use stroom_k8s_operator.Metrics.{
  StroomNodeMetric, StroomNodeMetricMap, is_zero, add_metric, age_off, should_scale,
  maximum_metric_retention_period_mins,
}
use stroom_k8s_operator.Database.{with_owner_namespace}
use stroom_k8s_operator.Autoscaler.Scale.{Scaled, returned, panicked}
use stroom_k8s_operator.Autoscaler.Reconcile.{
  next, return, panic, Step, find_metric, after_scaling, record_metric, visit_pod, visit_pods,
  visit_node_sets, reconcile, is_nil, finish, default_result, get_failure,
}
use stroom_k8s_operator.Autoscaler.Reconcile.Samples.{
  IsSound, add_metric-IsSound, age_off-IsSound, delete_pod_data-IsSound, set_last_scaled-IsSound,
  schedule-IsSound,
}
use stroom_k8s_operator.Autoscaler.Scale.Calm.{IsCalm, scale_stroom_node-IsCalm}

-- A part of the loop that did not panic and left samples that all hold a usage.
abbrev pub IsGood : Step → Type 0
IsGood step = (step.0 ≢ panic) × IsSound step.1

held_of_test :
    (x : StroomNodeMetric) → (is_zero x || is_nil x.cpu_usage) ≡ false → x.cpu_usage ≢ none
held_of_test x h e = ground arith

-- What the loops do after one part.
flow-IsGood :
    {W : Type 0} (k : StroomNodeMetricMap → M W Step) (step : Step) (w : W)
    → IsGood step
    → ((m : StroomNodeMetricMap) (v : W) → IsSound m → IsGood (k m v).0)
    → IsGood (
        ((elim step.0 as (λ _. M W Step) [
          | next ↦ k step.1
          | return r ↦ pure step
          | panic ↦ pure step
        ])
          w).0)
flow-IsGood k (next, m) w g ih = ih m w g.1
flow-IsGood k (return r, m) w g ih = g
flow-IsGood k (panic, m) w g ih = g

after_scaling-IsGood :
    (key : String) (now : Time) (m : StroomNodeMetricMap) (r : Scaled)
    → IsCalm r
    → IsSound m
    → IsGood (after_scaling key now m r)
unfolding after_scaling
after_scaling-IsGood key now m panicked h s = absurd (h refl)
after_scaling-IsGood key now m (returned (some e)) h s =
    (ground arith, set_last_scaled-IsSound key now m s)
after_scaling-IsGood key now m (returned none) h s =
    (ground arith, schedule-IsSound key now _ (set_last_scaled-IsSound key now m s))

module _ (E : Env) (L : Library) (c : StroomCluster) (scaler : StroomTaskAutoscaler) where
  pub record_metric-IsGood :
      (n : NodeSet) (pod : NamespacedName) (now : Time) (x : StroomNodeMetric)
      (m : StroomNodeMetricMap) (w : E.World)
      → x.cpu_usage ≢ none
      → IsSound m
      → IsGood (record_metric E L c n scaler pod now x m w).0
  unfolding record_metric
  record_metric-IsGood n pod now x m w held s =
      let key = to_string pod in
      let m' = age_off maximum_metric_retention_period_mins now (add_metric key x m) in
      let s' =
        age_off-IsSound maximum_metric_retention_period_mins now _
          (add_metric-IsSound key x m held s) in
      elim (Bool-cases (should_scale key scaler.spec.adjustment_interval_mins now m')) [
        | inl due ↦ rw due (
            after_scaling-IsGood key now m' _
              (scale_stroom_node-IsCalm E L c n pod scaler.spec now m' w s') s')
        | inr wait ↦ rw wait (ground arith, schedule-IsSound key now m' s')
      ]

  visit_pod-IsGood :
      (n : NodeSet) (pod : Pod) (m : StroomNodeMetricMap) (w : E.World)
      → IsSound m
      → IsGood (visit_pod E L c n scaler pod m w).0
  unfolding visit_pod
  visit_pod-IsGood n pod m w s =
      let name = key_of Kind.pod pod in
      on_cases (λ r. IsGood r.0) (E.get Kind.pod_metrics name) _ _ (E.now w).1
        (λ e _. (ground arith, delete_pod_data-IsSound (to_string name) m s))
        (λ pm _.
          let x = find_metric pm.timestamp pm.containers in
          elim (Bool-cases (is_zero x || is_nil x.cpu_usage)) [
            | inl skip ↦ rw skip (ground arith, s)
            | inr use' ↦
                rw use' (record_metric-IsGood n name (E.now w).0 x m _ (held_of_test x use') s)
          ])

  visit_pods-IsGood :
      (n : NodeSet) (pods : List Pod) (m : StroomNodeMetricMap) (w : E.World)
      → IsSound m
      → IsGood (visit_pods E L c n scaler pods m w).0
  unfolding visit_pods
  visit_pods-IsGood n [] m w s = (ground arith, s)
  visit_pods-IsGood n (pod ∷ pods) m w s =
      let step = visit_pod E L c n scaler pod m w in
      flow-IsGood (visit_pods E L c n scaler pods) step.0 step.1 (visit_pod-IsGood n pod m w s)
        (visit_pods-IsGood n pods)

  visit_node_sets-IsGood :
      (ns : List NodeSet) (m : StroomNodeMetricMap) (w : E.World)
      → IsSound m
      → IsGood (visit_node_sets E L c scaler ns m w).0
  unfolding visit_node_sets
  visit_node_sets-IsGood [] m w s = (ground arith, s)
  visit_node_sets-IsGood (n ∷ ns) m w s = elim (Bool-cases (n.role == frontend_node_role)) [
    | inl ui ↦ rw ui (visit_node_sets-IsGood ns m w s)
    | inr works ↦ rw works (
        on_cases (λ r. IsGood r.0) (E.list Kind.pod c.namespace (get_node_set_selector_labels c n))
          _ _ w (λ e _. (ground arith, s))
          (λ pods _.
            let w' = (E.list Kind.pod c.namespace (get_node_set_selector_labels c n) w).1 in
            let step = visit_pods E L c n scaler pods m w' in
            flow-IsGood (visit_node_sets E L c scaler ns) step.0 step.1
              (visit_pods-IsGood n pods m w' s) (visit_node_sets-IsGood ns)))
  ]

abbrev pub IsReturned : Option Outcome × StroomNodeMetricMap → Type 0
IsReturned r = ((o : Outcome) × (r.0 ≡ some o)) × IsSound r.1

finish-IsReturned : (step : Step) → IsGood step → IsReturned (finish step)
finish-IsReturned (next, m) g = ((default_result, refl), g.1)
finish-IsReturned (return r, m) g = ((r, refl), g.1)
finish-IsReturned (panic, m) g = absurd (g.0 refl)

module _ (E : Env) (L : Library) where
  -- From metrics whose samples all hold a usage, as the empty map's do, `Reconcile` returns: it
  -- never reads a usage through a nil pointer. The metrics that it leaves are such metrics again.
  pub reconcile-IsReturned :
      (request : NamespacedName) (m : StroomNodeMetricMap) (w : E.World)
      → IsSound m
      → IsReturned (reconcile E L request m w).0
  unfolding reconcile
  reconcile-IsReturned request m w s =
      on_cases (λ r. IsReturned r.0) (E.get Kind.stroom_task_autoscaler request) _ _ w
        (λ e _. ((get_failure e, refl), s))
        (λ scaler _.
          on_cases (λ r. IsReturned r.0)
            (E.get Kind.stroom_cluster (
              namespaced_name
                (with_owner_namespace scaler.spec.stroom_cluster_ref request.namespace)))
            _ _ _ (λ e _. ((failed e, refl), s))
            (λ c _.
              finish-IsReturned _ (visit_node_sets-IsGood E L c scaler c.spec.node_sets m _ s)))
