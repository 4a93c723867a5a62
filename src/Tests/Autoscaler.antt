-- ===== src/Tests/Autoscaler.antt =====
-- The theorems on the task autoscaler, at a concrete client.
use mathlib.Core.List.{Mem, mem-cons_self}
use stroom_k8s_operator.Base.{
  ◌≡◌, ◌≢◌, ◌≤◌, ne_of_test, refl, sym, ap, ◌⊎◌, true, some, arith, All, string_eq,
}
use stroom_k8s_operator.Base.Int.{ℤ, pos, pos_part, ◌*ℤ◌, ◌+ℤ◌, ◌-ℤ◌, int64}
use stroom_k8s_operator.Base.Dict.{lookup, insert, map_values}
use stroom_k8s_operator.Base.Keeps.{Keeps}
use stroom_k8s_operator.Kube.Meta.{NamespacedName, to_string}
use stroom_k8s_operator.Metrics.{
  StroomNodeMetric, StroomNodeMetricMap, new_node_metric_map, age_off, add_metric, set_last_scaled,
  delete_pod_data, should_scale, after, add, minutes, is_scale_scheduled, retained, is_within,
}
use stroom_k8s_operator.Metrics.Minutes.{IsYoung, max_minutes}
use stroom_k8s_operator.Metrics.Retention.{samples}
use stroom_k8s_operator.Autoscaler.Limit.{new_task_limit, Raises, Lowers, new_task_limit-moves}
use stroom_k8s_operator.Autoscaler.Scale.{scale_stroom_node, scan_tasks}
use stroom_k8s_operator.Autoscaler.Scale.Writes.{InRange, IsSane, IsKept, scale_stroom_node-kept}
use stroom_k8s_operator.Autoscaler.Reconcile.{record_metric, reconcile, schedule}
use stroom_k8s_operator.Autoscaler.Reconcile.Samples.{
  IsSound, new_node_metric_map-IsSound, set_last_scaled-IsSound, add_metric-IsSound,
}
use stroom_k8s_operator.Autoscaler.Reconcile.Panics.{IsReturned, reconcile-IsReturned}
use stroom_k8s_operator.Autoscaler.Reconcile.Schedule.{record_metric-IsYoung}
use stroom_k8s_operator.Autoscaler.Reconcile.Pause.{
  Later, here, other_sample, removal, record_metric_pause,
}
use stroom_k8s_operator.Tests.Client.{World, client, library, empty_world}
use stroom_k8s_operator.Tests.Samples.{sample_cluster, node_set, scaler, scaler_spec}

abbrev pod : NamespacedName
pod = record { namespace = "stroom"; name = "stroom-dev-node-data-0" }

abbrev sample : ℤ → StroomNodeMetric
sample t = record { time = t; cpu_usage = some "500m" }

abbrev early : ℤ
early = pos 1000

abbrev late : ℤ
late = pos 100000000000

new_task_limit_example : new_task_limit scaler_spec (pos 20) (pos 9) (pos 5) ≡ some (pos 7)
unfolding new_task_limit int64 ◌+ℤ◌
new_task_limit_example = refl

new_task_limit-moves_example :
    Raises scaler_spec (pos 20) (pos 9) (pos 5) (pos 7)
    ⊎ Lowers scaler_spec (pos 20) (pos 5) (pos 7)
unfolding ◌+ℤ◌ ◌-ℤ◌
new_task_limit-moves_example =
    new_task_limit-moves scaler_spec (pos 20) (pos 9) (pos 5) (pos 7) (omega arith)
      (omega arith, omega arith) (omega arith, omega arith) new_task_limit_example
      (λ e. omega (arith, ap pos_part e))

-- Every limit that was written is in range.
abbrev Bounded : World → Type 0
Bounded w = All (InRange scaler_spec) w.limits

client-IsKept : IsKept client scaler_spec Bounded
unfolding scan_tasks
client-IsKept = record {
  get = λ k n. record { at = λ w h. h };
  sql_open = λ s. record { at = λ w h. h };
  sql_close = λ db. record { at = λ w h. h };
  sql_query_row = λ db args. record { at = λ w h. h };
  reported = λ db args w tasks h e.
      let same : record { task_limit = pos 5; active_tasks = pos 9 } ≡ tasks = cc in
      rw (sym same) (omega arith, omega arith);
  sql_exec = λ db limit node task range. record { at = λ w h. (range, h) };
}

scaler_spec-IsSane : IsSane scaler_spec
scaler_spec-IsSane = record {
  step_forward = omega arith;
  step_fits = (omega arith, omega arith);
  min_fits = (omega arith, omega arith);
  max_fits = (omega arith, omega arith);
}

abbrev metrics : StroomNodeMetricMap
metrics =
    set_last_scaled (to_string pod) early
      (add_metric (to_string pod) (sample early) new_node_metric_map)

scale_stroom_node-kept_example :
    Keeps Bounded
      (scale_stroom_node client library sample_cluster node_set pod scaler_spec late metrics)
scale_stroom_node-kept_example =
    scale_stroom_node-kept client library scaler_spec Bounded client-IsKept scaler_spec-IsSane
      sample_cluster node_set pod late metrics

reconcile-IsReturned_example :
    IsReturned (reconcile client library pod new_node_metric_map empty_world).0
reconcile-IsReturned_example =
    reconcile-IsReturned client library pod new_node_metric_map empty_world
      new_node_metric_map-IsSound

metrics-IsSound : IsSound metrics
metrics-IsSound = set_last_scaled-IsSound (to_string pod) early _ (
    add_metric-IsSound (to_string pod) (sample early) new_node_metric_map (λ e. cc)
      new_node_metric_map-IsSound)

metrics_due : should_scale (to_string pod) (pos 1) late metrics ≡ true
unfolding should_scale after add minutes lookup string_eq int64 ◌+ℤ◌ ◌*ℤ◌ set_last_scaled insert
    add_metric
metrics_due = refl

-- The metrics after the call in which the pod was due.
abbrev adjusted : StroomNodeMetricMap
adjusted =
    (record_metric client library sample_cluster node_set scaler pod late (sample late) metrics
      empty_world).0.1

abbrev other_pod : NamespacedName
other_pod = record { namespace = "stroom"; name = "stroom-dev-node-data-1" }

-- Then another sample, one of another pod, and the deletion of the pod's data.
abbrev sampled : StroomNodeMetricMap
sampled =
    (record_metric client library sample_cluster node_set scaler pod (pos 100000000001)
      (sample late) adjusted empty_world).0.1

abbrev mixed : StroomNodeMetricMap
mixed = delete_pod_data (to_string pod) (
    (record_metric client library sample_cluster node_set scaler other_pod (pos 100000000001)
      (sample late) sampled empty_world).0.1)

other_pod-ne : to_string pod ≢ to_string other_pod
unfolding string_eq
other_pod-ne = ne_of_test _ _ refl

interval : scaler.spec.adjustment_interval_mins ≡ pos 1
interval = refl

short : 1 ≤ max_minutes
short = omega arith

mixed-Later :
    Later client library sample_cluster node_set scaler pod 1 interval short late adjusted mixed
unfolding ◌+ℤ◌
mixed-Later = removal pod _ (
    other_sample sample_cluster node_set scaler other_pod (pos 100000000001) (sample late)
      empty_world sampled other_pod-ne
      (Later.sample (pos 100000000001) (sample late) empty_world adjusted (λ h. omega (arith, h))
        (λ h. omega (arith, h)) here))

record_metric_pause_example :
    (record_metric client library sample_cluster node_set scaler pod
      (pos 100000000002)
      (sample late)
      mixed
      empty_world).1
    ≡ empty_world
unfolding ◌+ℤ◌
record_metric_pause_example =
    record_metric_pause client library sample_cluster node_set scaler pod 1 interval short late
      (pos 100000000002) (sample late) (sample late) metrics mixed empty_world empty_world
      metrics-IsSound (λ e. cc) metrics_due mixed-Later (λ h. omega (arith, h))

stored : Mem (sample early) (
    samples
      (to_string pod)
      (record_metric client library sample_cluster node_set scaler pod early
        (sample early)
        new_node_metric_map
        empty_world).0.1)
unfolding record_metric schedule is_scale_scheduled should_scale set_last_scaled add_metric age_off
    retained is_within after add minutes lookup insert map_values string_eq int64 ◌+ℤ◌ ◌-ℤ◌ ◌*ℤ◌
stored = mem-cons_self

record_metric-IsYoung_example : IsYoung 60 early (sample early)
record_metric-IsYoung_example =
    record_metric-IsYoung client library sample_cluster node_set scaler pod early (sample early)
      (sample early) new_node_metric_map empty_world (to_string pod) stored
