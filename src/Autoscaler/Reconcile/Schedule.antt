-- ===== src/Autoscaler/Reconcile/Schedule.antt =====
-- internal/controller/stroomtaskautoscaler_controller.go: when `Reconcile` adjusts a pod, and which
-- samples it keeps.
use mathlib.Core.List.{Mem}
use stroom_k8s_operator.Base.{
  ℕ, ◌≤◌, String, ◌≡◌, refl, ◌≢◌, ◌∙◌, inl, inr, true, false, none, some, arith, string_eq,
  Bool-cases, Option-cases,
}
use stroom_k8s_operator.Base.Int.{ℤ, pos, ◌<ℤ◌}
use stroom_k8s_operator.Base.Dict.{lookup, lookup-insert_self}
use stroom_k8s_operator.Kube.Meta.{Time, NamespacedName, to_string}
use stroom_k8s_operator.Kube.Env.{Env, Library}
use stroom_k8s_operator.Api.StroomCluster.{StroomCluster, NodeSet}
use stroom_k8s_operator.Api.Autoscaler.{StroomTaskAutoscaler}
use stroom_k8s_operator.Metrics.{
  StroomNodeMetric, StroomNodeMetricMap, add_metric, age_off, should_scale, set_last_scaled,
  is_scale_scheduled, after, add, minutes, maximum_metric_retention_period_mins,
}
use stroom_k8s_operator.Metrics.Minutes.{max_minutes, plus_minutes, IsYoung, after-add_iff}
use stroom_k8s_operator.Metrics.Retention.{samples, age_off-samples}
use stroom_k8s_operator.Autoscaler.Scale.{Scaled, returned, panicked}
use stroom_k8s_operator.Autoscaler.Reconcile.{next, schedule, after_scaling, record_metric}
use stroom_k8s_operator.Autoscaler.Reconcile.Samples.{IsSound, add_metric-IsSound, age_off-IsSound}
use stroom_k8s_operator.Autoscaler.Scale.Calm.{IsCalm, scale_stroom_node-IsCalm}

-- The map from which `scaleStroomNode` is called.
abbrev pub recorded : String → Time → StroomNodeMetric → StroomNodeMetricMap → StroomNodeMetricMap
recorded key now x m = age_off maximum_metric_retention_period_mins now (add_metric key x m)

recorded-last_scaled :
    (key : String) (now : Time) (x : StroomNodeMetric) (m : StroomNodeMetricMap)
    → (recorded key now x m).last_scaled ≡ m.last_scaled
unfolding age_off add_metric
recorded-last_scaled key now x m = elim (Option-cases (lookup key m.items)) [
  | inl unknown ↦ rw (unknown, add_metric)
  | inr (xs, known) ↦ rw (known, add_metric)
]

pub recorded-last_scaled-lookup :
    (key other : String) (now : Time) (x : StroomNodeMetric) (m : StroomNodeMetricMap)
    → lookup key (recorded other now x m).last_scaled ≡ lookup key m.last_scaled
recorded-last_scaled-lookup key other now x m = rw (recorded-last_scaled other now x m)

should_scale-recorded :
    (key : String) (i : ℤ) (now : Time) (x : StroomNodeMetric) (m : StroomNodeMetricMap)
    → should_scale key i now (recorded key now x m) ≡ should_scale key i now m
unfolding should_scale
should_scale-recorded key i now x m = rw (recorded-last_scaled key now x m)

pub schedule-lookup :
    (key : String) (now : Time) (m : StroomNodeMetricMap)
    → lookup key m.last_scaled ≡ some now
    → lookup key (schedule key now m).last_scaled ≡ some now
unfolding schedule set_last_scaled
schedule-lookup key now m h = elim (Bool-cases (is_scale_scheduled key m)) [
  | inl k ↦ rw k h
  | inr k ↦ rw k (lookup-insert_self key now m.last_scaled)
]

should_scale_unseen :
    (key : String) (i : ℤ) (now : Time) (m : StroomNodeMetricMap)
    → lookup key m.last_scaled ≡ none
    → should_scale key i now m ≡ false
unfolding should_scale
should_scale_unseen key i now m h = rw (h, should_scale)

schedule_unseen :
    (key : String) (now : Time) (m : StroomNodeMetricMap)
    → lookup key m.last_scaled ≡ none
    → schedule key now m ≡ set_last_scaled key now m
unfolding schedule is_scale_scheduled
schedule_unseen key now m h = rw (h, schedule, is_scale_scheduled)

pub should_scale_early :
    (key : String) (k : ℕ) (last now : Time) (m : StroomNodeMetricMap)
    → k ≤ max_minutes
    → lookup key m.last_scaled ≡ some last
    → ¬ (plus_minutes last k <ℤ now)
    → should_scale key (pos k) now m ≡ false
unfolding should_scale
should_scale_early key k last now m fits h early =
    elim (Bool-cases (after now (add last (minutes (pos k))))) [
      | inl due ↦ absurd (early ((after-add_iff k now last fits).0 due))
      | inr wait ↦ rw (h, should_scale) wait
    ]

after_scaling-lookup :
    (key : String) (now : Time) (m : StroomNodeMetricMap) (r : Scaled)
    → IsCalm r
    → lookup key (after_scaling key now m r).1.last_scaled ≡ some now
unfolding after_scaling set_last_scaled
after_scaling-lookup key now m panicked h = absurd (h refl)
after_scaling-lookup key now m (returned (some e)) h = lookup-insert_self key now m.last_scaled
after_scaling-lookup key now m (returned none) h =
    schedule-lookup key now _ (lookup-insert_self key now m.last_scaled)

after_scaling-items :
    (key : String) (now : Time) (m : StroomNodeMetricMap) (r : Scaled)
    → (after_scaling key now m r).1.items ≡ m.items
unfolding after_scaling set_last_scaled schedule
after_scaling-items key now m panicked = refl
after_scaling-items key now m (returned (some e)) = refl
after_scaling-items key now m (returned none) = ground arith

schedule-items :
    (key : String) (now : Time) (m : StroomNodeMetricMap) → (schedule key now m).items ≡ m.items
unfolding set_last_scaled schedule
schedule-items key now m = ground arith

module _ (E : Env) (L : Library) (c : StroomCluster) (n : NodeSet) (scaler : StroomTaskAutoscaler)
    (pod : NamespacedName) where
  -- A pod that has not been seen before is not adjusted: the world stays as it is, the sample is
  -- stored, and the pod is scheduled from the current time.
  pub record_metric_first :
      (now : Time) (x : StroomNodeMetric) (m : StroomNodeMetricMap) (w : E.World)
      → lookup (to_string pod) m.last_scaled ≡ none
      → record_metric E L c n scaler pod now x m w ≡ (
        (
          next,
          set_last_scaled
              (to_string pod)
              now
              (age_off maximum_metric_retention_period_mins now (add_metric (to_string pod) x m)),
        ),
        w,
      )
  unfolding record_metric
  record_metric_first now x m w h =
      let key = to_string pod in
      let unseen : lookup key (recorded key now x m).last_scaled ≡ none =
        recorded-last_scaled-lookup key key now x m ∙ h in
      rw (
        should_scale_unseen key scaler.spec.adjustment_interval_mins now (recorded key now x m)
            unseen,
        schedule_unseen key now (recorded key now x m) unseen,
      )

  pub record_metric_due :
      (now : Time) (x : StroomNodeMetric) (m : StroomNodeMetricMap) (w : E.World)
      → IsSound m
      → x.cpu_usage ≢ none
      → should_scale (to_string pod) scaler.spec.adjustment_interval_mins now m ≡ true
      → lookup (to_string pod) (record_metric E L c n scaler pod now x m w).0.1.last_scaled
        ≡ some now
  unfolding record_metric
  record_metric_due now x m w s held due =
      rw (should_scale-recorded (to_string pod) scaler.spec.adjustment_interval_mins now x m, due)
        (after_scaling-lookup (to_string pod) now _ _ (
          scale_stroom_node-IsCalm E L c n pod scaler.spec now _ w
            (age_off-IsSound _ now _ (add_metric-IsSound (to_string pod) x m held s))))

  pub record_metric_early :
      (k : ℕ) (last now : Time) (x : StroomNodeMetric) (m : StroomNodeMetricMap) (w : E.World)
      → scaler.spec.adjustment_interval_mins ≡ pos k
      → k ≤ max_minutes
      → lookup (to_string pod) m.last_scaled ≡ some last
      → ¬ (plus_minutes last k <ℤ now)
      → (record_metric E L c n scaler pod now x m w).1 ≡ w
  unfolding record_metric
  record_metric_early k last now x m w interval fits scaled early =
      let key = to_string pod in
      let seen : lookup key (recorded key now x m).last_scaled ≡ some last =
        recorded-last_scaled-lookup key key now x m ∙ scaled in
      rw (interval, should_scale_early key k last now (recorded key now x m) fits seen early)

  -- After a sample is recorded, every sample that is stored for any pod is younger than the
  -- retention period of 60 minutes.
  pub record_metric-IsYoung :
      (now : Time) (x y : StroomNodeMetric) (m : StroomNodeMetricMap) (w : E.World) (p : String)
      → Mem y (samples p (record_metric E L c n scaler pod now x m w).0.1)
      → IsYoung 60 now y
  unfolding record_metric
  record_metric-IsYoung now x y m w p stored =
      let key = to_string pod in
      let m' = recorded key now x m in
      let kept : Mem y (samples p m') =
        elim (Bool-cases (should_scale key scaler.spec.adjustment_interval_mins now m')) [
          | inl due ↦ rw (due, after_scaling-items key now m' _) at stored
          | inr wait ↦ rw (wait, schedule-items key now m') at stored
        ] in
      ((age_off-samples 60 now _ p y (omega arith)).0 kept).1
