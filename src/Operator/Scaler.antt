-- ===== src/Operator/Scaler.antt =====
-- internal/controller/stroomtaskautoscaler_controller.go: the calls of `Reconcile`.
use stroom_k8s_operator.Base.{
  String, ◌||◌, ◌==◌, string_eq, Option, none, some, List, [], ◌∷◌, if◌then◌else◌, Option-cases,
  inl, inr,
}
use stroom_k8s_operator.Base.Int.{ℤ, ℤ_eq}
use stroom_k8s_operator.Base.State.{Result, ok, err, M, pure, ◌>>=◌, on}
use stroom_k8s_operator.Base.Keeps.{Keeps, Keeps-pure, Keeps-bind, Keeps-if, Keeps-on, keeps_rules}
use stroom_k8s_operator.Kube.Meta.{Time, Quantity, NamespacedName, to_string}
use stroom_k8s_operator.Kube.Core.{Pod}
use stroom_k8s_operator.Kube.Env.{Env, Kind, Library, key_of}
use stroom_k8s_operator.Kube.Outcome.{failed}
use stroom_k8s_operator.Api.StroomCluster.{
  StroomCluster, NodeSet, frontend_node_role, get_node_set_selector_labels,
}
use stroom_k8s_operator.Api.Autoscaler.{StroomTaskAutoscaler, StroomTaskAutoscalerSpec}
use stroom_k8s_operator.Database.{
  DatabaseConnectionInfo, get_database_connection_info, open_database,
}
use stroom_k8s_operator.Metrics.{
  is_zero, delete_pod_data, StroomNodeMetric, StroomNodeMetricMap, Mean, absent, mean, nil_usage,
  get_sliding_window_mean,
}
use stroom_k8s_operator.Autoscaler.Limit.{is_outside_bounds, new_task_limit}
use stroom_k8s_operator.Autoscaler.Scale.{
  Scaled, returned, panicked, NodeTasks, get_node_tasks, update_node_task_limit, adjust, scale_at,
  cpu_percent_of, scale_stroom_node,
}
use stroom_k8s_operator.Autoscaler.Reconcile.{
  default_result, is_nil, find_metric, Step, next, return, panic, record_metric, visit_pod,
  visit_pods, visit_node_sets, reconcile,
}
use stroom_k8s_operator.Operator.Calls.{
  IsSpared, get_database_connection_info-kept, open_database-kept,
}

module _ (E : Env) (L : Library) (P : E.World → Type 0) (K : IsSpared E P) where
  opens : (info : DatabaseConnectionInfo) (n d : String) → Keeps P (open_database E info n d)
  opens info n d = open_database-kept E P K info n d

  get_node_tasks-kept :
      (c : StroomCluster) (info : DatabaseConnectionInfo) (node task : String)
      → Keeps P (get_node_tasks E c info node task)
  unfolding get_node_tasks
  get_node_tasks-kept c info node task = search (keeps_rules, opens, K.sql_query_row, K.sql_close)

  update_node_task_limit-kept :
      (c : StroomCluster) (info : DatabaseConnectionInfo) (node task : String) (limit : ℤ)
      → Keeps P (update_node_task_limit E c info node task limit)
  unfolding update_node_task_limit
  update_node_task_limit-kept c info node task limit =
      search (keeps_rules, opens, K.sql_exec, K.sql_close)

  -- Whichever limit is chosen.
  by_limit :
      (c : StroomCluster) (pod : NamespacedName) (o : StroomTaskAutoscalerSpec)
      (info : DatabaseConnectionInfo) (tasks : NodeTasks) (chosen : Option ℤ)
      → Keeps P (elim chosen as (λ _. M E.World Scaled) [
        | none ↦ pure (returned none)
        | some new ↦
            if ℤ_eq new tasks.task_limit
            then pure (returned none)
            else do e ← update_node_task_limit E c info pod.name o.task_name new; pure (returned e)
      ])
  by_limit c pod o info tasks none = Keeps-pure (returned none)
  by_limit c pod o info tasks (some new) = search (keeps_rules, update_node_task_limit-kept)

  adjust-kept :
      (c : StroomCluster) (pod : NamespacedName) (o : StroomTaskAutoscalerSpec)
      (info : DatabaseConnectionInfo) (cpu : ℤ) (found : Result NodeTasks)
      → Keeps P (adjust E c pod o info cpu found)
  unfolding adjust
  adjust-kept c pod o info cpu (err e) = Keeps-pure _
  adjust-kept c pod o info cpu (ok tasks) =
      by_limit c pod o info tasks (new_task_limit o cpu tasks.active_tasks tasks.task_limit)

  scale_at-kept :
      (c : StroomCluster) (pod : NamespacedName) (o : StroomTaskAutoscalerSpec) (cpu : ℤ)
      → Keeps P (scale_at E c pod o cpu)
  unfolding scale_at
  scale_at-kept c pod o cpu =
      Keeps-if (is_outside_bounds o cpu) _ (pure (returned none))
        (Keeps-on (get_database_connection_info E c.spec.database_server_ref c.namespace)
          (λ e. pure (returned (some e)))
          (λ info. get_node_tasks E c info pod.name o.task_name >>= λ tasks.
            adjust E c pod o info cpu tasks)
          (get_database_connection_info-kept E P K c.spec.database_server_ref c.namespace)
          (λ e. Keeps-pure (returned (some e)))
          (λ info.
            Keeps-bind (get_node_tasks E c info pod.name o.task_name) (adjust E c pod o info cpu)
              (get_node_tasks-kept c info pod.name o.task_name) (adjust-kept c pod o info cpu)))
        (Keeps-pure (returned none))

  by_mean :
      (c : StroomCluster) (pod : NamespacedName) (o : StroomTaskAutoscalerSpec) (limit : Quantity)
      (found : Mean)
      → Keeps P (elim found as (λ _. M E.World Scaled) [
        | absent ↦ pure (returned none)
        | nil_usage ↦ pure panicked
        | mean avg ↦ scale_at E c pod o (cpu_percent_of L avg limit)
      ])
  by_mean c pod o limit absent = Keeps-pure (returned none)
  by_mean c pod o limit nil_usage = Keeps-pure panicked
  by_mean c pod o limit (mean avg) = scale_at-kept c pod o (cpu_percent_of L avg limit)

  scale_stroom_node-kept :
      (c : StroomCluster) (n : NodeSet) (pod : NamespacedName) (o : StroomTaskAutoscalerSpec)
      (now : Time) (m : StroomNodeMetricMap)
      → Keeps P (scale_stroom_node E L c n pod o now m)
  unfolding scale_stroom_node
  scale_stroom_node-kept c n pod o now m = elim (Option-cases (L.limits_cpu n.resources)) [
    | inl unlimited ↦ rw (unlimited, scale_stroom_node) (Keeps-pure _)
    | inr (limit, limited) ↦
        rw (limited, scale_stroom_node)
          (by_mean c pod o limit (
            get_sliding_window_mean L.milli_value (to_string pod) o.metrics_sliding_window_mins now
              m))
  ]

  record_metric-kept :
      (c : StroomCluster) (n : NodeSet) (s : StroomTaskAutoscaler) (pod : NamespacedName)
      (now : Time) (metric : StroomNodeMetric) (m : StroomNodeMetricMap)
      → Keeps P (record_metric E L c n s pod now metric m)
  unfolding record_metric
  record_metric-kept c n s pod now metric m = search (keeps_rules, scale_stroom_node-kept)

  -- What follows a part of a loop.
  abbrev after_step : (StroomNodeMetricMap → M E.World Step) → Step → M E.World Step
  after_step rest step = elim step.0 [
    | next ↦ rest step.1
    | return r ↦ pure step
    | panic ↦ pure step
  ]

  after_step-kept :
      (rest : StroomNodeMetricMap → M E.World Step)
      → ((m : StroomNodeMetricMap) → Keeps P (rest m))
      → (step : Step) → Keeps P (after_step rest step)
  after_step-kept rest kept (next, m) = kept m
  after_step-kept rest kept (return r, m) = Keeps-pure (return r, m)
  after_step-kept rest kept (panic, m) = Keeps-pure (panic, m)

  visit_pod-kept :
      (c : StroomCluster) (n : NodeSet) (s : StroomTaskAutoscaler) (pod : Pod)
      (m : StroomNodeMetricMap)
      → Keeps P (visit_pod E L c n s pod m)
  unfolding visit_pod
  visit_pod-kept c n s pod m =
      let name = key_of Kind.pod pod in
      Keeps-bind E.now
        (λ now.
          on (E.get Kind.pod_metrics name)
            (λ e. pure (return default_result, delete_pod_data (to_string name) m))
            (λ pod_metrics.
              let metric = find_metric pod_metrics.timestamp pod_metrics.containers in
              if is_zero metric || is_nil metric.cpu_usage
              then pure (next, m)
              else record_metric E L c n s name now metric m))
        K.now
        (λ now.
          Keeps-on (E.get Kind.pod_metrics name)
            (λ e. pure (return default_result, delete_pod_data (to_string name) m))
            (λ pod_metrics.
              let metric = find_metric pod_metrics.timestamp pod_metrics.containers in
              if is_zero metric || is_nil metric.cpu_usage
              then pure (next, m)
              else record_metric E L c n s name now metric m)
            (K.get Kind.pod_metrics name) (λ e. Keeps-pure _)
            (λ pod_metrics.
              let metric = find_metric pod_metrics.timestamp pod_metrics.containers in
              Keeps-if (is_zero metric || is_nil metric.cpu_usage) (pure (next, m))
                (record_metric E L c n s name now metric m) (Keeps-pure (next, m))
                (record_metric-kept c n s name now metric m)))

  visit_pods-kept :
      (c : StroomCluster) (n : NodeSet) (s : StroomTaskAutoscaler) (pods : List Pod)
      (m : StroomNodeMetricMap)
      → Keeps P (visit_pods E L c n s pods m)
  unfolding visit_pods
  visit_pods-kept c n s [] m = Keeps-pure (next, m)
  visit_pods-kept c n s (pod ∷ pods) m =
      Keeps-bind (visit_pod E L c n s pod m) (λ step. after_step (visit_pods E L c n s pods) step)
        (visit_pod-kept c n s pod m)
        (after_step-kept (visit_pods E L c n s pods) (visit_pods-kept c n s pods))

  visit_node_sets-kept :
      (c : StroomCluster) (s : StroomTaskAutoscaler) (ns : List NodeSet) (m : StroomNodeMetricMap)
      → Keeps P (visit_node_sets E L c s ns m)
  unfolding visit_node_sets
  visit_node_sets-kept c s [] m = Keeps-pure (next, m)
  visit_node_sets-kept c s (n ∷ ns) m =
      Keeps-if (n.role == frontend_node_role) (visit_node_sets E L c s ns m) _
        (visit_node_sets-kept c s ns m)
        (Keeps-on (E.list Kind.pod c.namespace (get_node_set_selector_labels c n))
          (λ e. pure (return (failed e), m))
          (λ pods. visit_pods E L c n s pods m >>= after_step (visit_node_sets E L c s ns))
          (K.list Kind.pod c.namespace _) (λ e. Keeps-pure (return (failed e), m))
          (λ pods.
            Keeps-bind (visit_pods E L c n s pods m) (after_step (visit_node_sets E L c s ns))
              (visit_pods-kept c n s pods m)
              (after_step-kept (visit_node_sets E L c s ns) (visit_node_sets-kept c s ns))))

  pub reconcile-kept :
      (request : NamespacedName) (m : StroomNodeMetricMap) → Keeps P (reconcile E L request m)
  unfolding reconcile
  reconcile-kept request m = search (keeps_rules, K.get, visit_node_sets-kept)
