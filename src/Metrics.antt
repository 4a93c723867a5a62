-- ===== src/Metrics.antt =====
-- internal/controller/stroomtaskautoscaler.go: the CPU samples of each pod, and when a pod's task
-- limit was last adjusted.
pub mod Minutes
pub mod Window
pub mod Retention
pub mod Agreement
use stroom_k8s_operator.Base.{
  ℕ, zero, suc, ◌*◌, String, Bool, true, false, ◌&&◌, Option, none, some, List, [], ◌∷◌, ◌++◌, ltb,
  string_eq, if◌then◌else◌,
}
use stroom_k8s_operator.Base.Int.{ℤ, pos, negsuc, ◌+ℤ◌, ◌-ℤ◌, ◌*ℤ◌, int64, ltb_ℤ, quot}
use stroom_k8s_operator.Base.Dict.{Dict, lookup, insert, erase, map_values}
use stroom_k8s_operator.Kube.Meta.{Time, Quantity}

abbrev pub maximum_metric_retention_period_mins : ℤ
maximum_metric_retention_period_mins = pos 60

pub record StroomNodeMetric : Type 0 where
  pub time : Time
  -- `none` is the nil pointer.
  pub cpu_usage : Option Quantity

-- `StroomNodeMetric{}`
abbrev pub empty_metric : StroomNodeMetric
empty_metric = record { time = pos 0; cpu_usage = none }

abbrev time_is_zero : Time → Bool
time_is_zero (pos zero) = true
time_is_zero _ = false

abbrev is_nil : Option Quantity → Bool
is_nil none = true
is_nil (some q) = false

unfoldable pub is_zero : StroomNodeMetric → Bool
is_zero m = time_is_zero m.time && is_nil m.cpu_usage

pub record StroomNodeMetricMap : Type 0 where
  pub items : Dict String (List StroomNodeMetric)
  pub last_scaled : Dict String Time

abbrev pub new_node_metric_map : StroomNodeMetricMap
new_node_metric_map = record { items = []; last_scaled = [] }

-- time.Minute * time.Duration(n), in int64 nanoseconds.
unfoldable pub minutes : ℤ → ℤ
unfolding int64 ◌*ℤ◌
minutes n = int64 (pos 60000000000 *ℤ n)

-- t.Add(d) and t.After(u)
unfoldable pub add : Time → ℤ → Time
unfolding ◌+ℤ◌
add t d = t +ℤ d

unfoldable pub after : Time → Time → Bool
after t u = ltb_ℤ u t

-- -n
abbrev neg : ℤ → ℤ
neg n = int64 (pos 0 -ℤ n)

unfoldable pub add_metric : String → StroomNodeMetric → StroomNodeMetricMap → StroomNodeMetricMap
add_metric pod_name metric m = elim (lookup pod_name m.items) [
  | some metrics ↦ record m { items = insert pod_name (metrics ++ metric ∷ []) m.items }
  | none ↦ record m { items = insert pod_name (metric ∷ []) m.items }
]

unfoldable pub is_scale_scheduled : String → StroomNodeMetricMap → Bool
is_scale_scheduled pod_name m = elim (lookup pod_name m.last_scaled) [
  | some t ↦ true
  | none ↦ false
]

unfoldable pub set_last_scaled : String → Time → StroomNodeMetricMap → StroomNodeMetricMap
set_last_scaled pod_name current_time m = record m {
  last_scaled = insert pod_name current_time m.last_scaled;
}

unfoldable pub delete_pod_data : String → StroomNodeMetricMap → StroomNodeMetricMap
delete_pod_data pod_name m = record {
  items = erase pod_name m.items;
  last_scaled = erase pod_name m.last_scaled;
}

unfoldable pub should_scale : String → ℤ → Time → StroomNodeMetricMap → Bool
unfolding after add minutes
should_scale pod_name adjustment_interval_mins current_time m =
    elim (lookup pod_name m.last_scaled) [
      | some last ↦ after current_time (add last (minutes adjustment_interval_mins))
      | none ↦ false
    ]

-- Whether a sample is younger than an age in minutes.
unfoldable pub is_within : ℤ → Time → StroomNodeMetric → Bool
unfolding after add minutes ◌-ℤ◌
is_within mins current_time metric = after metric.time (add current_time (minutes (neg mins)))

-- The inner loop of `AgeOff`.
unfoldable pub retained : ℤ → Time → List StroomNodeMetric → List StroomNodeMetric
retained mins current_time [] = []
retained mins current_time (metric ∷ metrics) =
    let rest = retained mins current_time metrics in
    if is_within mins current_time metric then metric ∷ rest else rest

unfoldable pub age_off : ℤ → Time → StroomNodeMetricMap → StroomNodeMetricMap
unfolding retained is_within
age_off retention_period_mins current_time m = record m {
  items = map_values (retained retention_period_mins current_time) m.items;
}

-- What `GetSlidingWindowMean` does: it returns false, returns true with a mean, or panics at a
-- sample with no usage.
pub data Mean : Type 0 where
  absent : Mean
  mean : ℤ → Mean
  nil_usage : Mean

module _ (milli_value : Quantity → ℤ) where
  -- The loop, from the sum and the number of values so far.
  unfoldable pub window_mean : ℤ → Time → List StroomNodeMetric → ℤ → ℕ → Mean
  window_mean mins current_time [] sum value_count =
      if ltb 0 value_count then mean (quot sum value_count) else absent
  window_mean mins current_time (metric ∷ metrics) sum value_count =
      let skip = window_mean mins current_time metrics sum value_count in
      if is_within mins current_time metric
      then elim metric.cpu_usage [
        | some usage ↦
            window_mean mins current_time metrics (int64 (sum +ℤ milli_value usage))
              (suc value_count)
        | none ↦ nil_usage
      ]
      else skip

  unfoldable pub get_sliding_window_mean : String → ℤ → Time → StroomNodeMetricMap → Mean
  unfolding window_mean is_within int64 ◌+ℤ◌
  get_sliding_window_mean pod_name sliding_window_interval_mins current_time m =
      elim (lookup pod_name m.items) [
        | some metrics ↦ window_mean sliding_window_interval_mins current_time metrics (pos 0) 0
        | none ↦ absent
      ]
