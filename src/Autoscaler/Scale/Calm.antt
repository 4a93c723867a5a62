-- ===== src/Autoscaler/Scale/Calm.antt =====
-- internal/controller/stroomtaskautoscaler_controller.go: `scaleStroomNode` reads no missing usage.
use stroom_k8s_operator.Base.{
  refl, ◌≢◌, inl, inr, Option, none, some, arith, string_eq, Bool-cases, Option-cases,
}
use stroom_k8s_operator.Base.Int.{ℤ}
use stroom_k8s_operator.Base.State.{Result, ok, err, M, pure, on_cases}
use stroom_k8s_operator.Kube.Meta.{Time, Quantity, NamespacedName, to_string}
use stroom_k8s_operator.Kube.Env.{Env, Library}
use stroom_k8s_operator.Api.StroomCluster.{StroomCluster, NodeSet}
use stroom_k8s_operator.Api.Autoscaler.{StroomTaskAutoscalerSpec}
use stroom_k8s_operator.Metrics.{StroomNodeMetricMap, Mean, absent, mean, nil_usage}
use stroom_k8s_operator.Database.{DatabaseConnectionInfo, get_database_connection_info}
use stroom_k8s_operator.Autoscaler.Limit.{is_outside_bounds}
use stroom_k8s_operator.Autoscaler.Scale.{
  NodeTasks, Scaled, returned, panicked, adjust, scale_at, scale_stroom_node, cpu_percent_of,
}
use stroom_k8s_operator.Autoscaler.Reconcile.Samples.{IsSound, get_sliding_window_mean-ne-nil_usage}

abbrev pub IsCalm : Scaled → Type 0
IsCalm r = r ≢ panicked

returned-IsCalm : (e : Option _) → IsCalm (returned e)
returned-IsCalm e = ground arith

module _ (E : Env) where
  adjust-IsCalm :
      (c : StroomCluster) (pod : NamespacedName) (o : StroomTaskAutoscalerSpec)
      (info : DatabaseConnectionInfo) (cpu : ℤ) (found : Result NodeTasks) (w : E.World)
      → IsCalm (adjust E c pod o info cpu found w).0
  unfolding adjust
  adjust-IsCalm c pod o info cpu (err e) w = returned-IsCalm none
  adjust-IsCalm c pod o info cpu (ok t) w = ground arith

  scale_at-IsCalm :
      (c : StroomCluster) (pod : NamespacedName) (o : StroomTaskAutoscalerSpec) (cpu : ℤ)
      (w : E.World)
      → IsCalm (scale_at E c pod o cpu w).0
  unfolding scale_at
  scale_at-IsCalm c pod o cpu w = elim (Bool-cases (is_outside_bounds o cpu)) [
    | inl out ↦ rw out (
        on_cases (λ r. IsCalm r.0)
          (get_database_connection_info E c.spec.database_server_ref c.namespace) _ _ w
          (λ e _. returned-IsCalm (some e)) (λ info _. adjust-IsCalm c pod o info cpu _ _))
    | inr band ↦ rw band (returned-IsCalm none)
  ]

module _ (E : Env) (L : Library) where
  by_mean :
      (c : StroomCluster) (pod : NamespacedName) (o : StroomTaskAutoscalerSpec) (limit : Quantity)
      (found : Mean) (w : E.World)
      → found ≢ nil_usage
      → IsCalm (
          ((elim found as (λ _. M E.World Scaled) [
            | absent ↦ pure (returned none)
            | nil_usage ↦ pure panicked
            | mean avg ↦ scale_at E c pod o (cpu_percent_of L avg limit)
          ])
            w).0)
  by_mean c pod o limit absent w h = returned-IsCalm none
  by_mean c pod o limit nil_usage w h = absurd (h refl)
  by_mean c pod o limit (mean avg) w h = scale_at-IsCalm E c pod o (cpu_percent_of L avg limit) w

  pub scale_stroom_node-IsCalm :
      (c : StroomCluster) (n : NodeSet) (pod : NamespacedName) (o : StroomTaskAutoscalerSpec)
      (now : Time) (m : StroomNodeMetricMap) (w : E.World)
      → IsSound m
      → IsCalm (scale_stroom_node E L c n pod o now m w).0
  unfolding scale_stroom_node
  scale_stroom_node-IsCalm c n pod o now m w s = elim (Option-cases (L.limits_cpu n.resources)) [
    | inl unlimited ↦ rw (unlimited, scale_stroom_node) (returned-IsCalm none)
    | inr (limit, limited) ↦
        rw (limited, scale_stroom_node)
          (by_mean c pod o limit _ w (
            get_sliding_window_mean-ne-nil_usage L.milli_value (to_string pod)
              o.metrics_sliding_window_mins now m s))
  ]
