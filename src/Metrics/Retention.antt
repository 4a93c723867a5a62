-- ===== src/Metrics/Retention.antt =====
-- internal/controller/stroomtaskautoscaler.go: what `AgeOff` and the other operations on the map
-- leave for each pod.
use mathlib.Core.Option
use mathlib.Core.List.{Mem, filter, mem-filter}
use mathlib.Core.Bool.{Bool-discrete}
use stroom_k8s_operator.Base.{
  ◌≢◌, Option-cases, inl, inr, ℕ, ◌≤◌, String, ◌≡◌, refl, ◌↔◌, true, false, List, [], ◌∷◌, ◌++◌,
  arith, ◌==◌, string_eq, if◌then◌else◌,
}
use stroom_k8s_operator.Base.Int.{ℤ, pos, ◌<ℤ◌}
use stroom_k8s_operator.Base.Dict.{
  lookup, insert, lookup-insert, lookup-insert_self, lookup-insert_ne, lookup-erase,
  lookup-map_values,
}
use stroom_k8s_operator.Kube.Meta.{Time}
use stroom_k8s_operator.Metrics.{
  StroomNodeMetric, StroomNodeMetricMap, is_within, retained, age_off, add_metric, should_scale,
  set_last_scaled, delete_pod_data, is_scale_scheduled,
}
use stroom_k8s_operator.Metrics.Minutes.{
  max_minutes, plus_minutes, IsYoung, is_within_iff, after-add_iff,
}

-- The samples that the map holds for a pod.
abbrev pub samples : String → StroomNodeMetricMap → List StroomNodeMetric
samples p m = Option.get_or (lookup p m.items) []

retained-filter :
    (mins : ℤ) (now : Time) (metrics : List StroomNodeMetric)
    → retained mins now metrics
      ≡ filter (λ metric. Bool-discrete (is_within mins now metric) true) metrics
unfolding retained
retained-filter mins now [] = refl
retained-filter mins now (metric ∷ metrics) = ground (arith, retained-filter mins now metrics)

mem-retained :
    (n : ℕ) (now : Time) (metric : StroomNodeMetric) (metrics : List StroomNodeMetric)
    → n ≤ max_minutes
    → Mem metric (retained (pos n) now metrics) ↔ (Mem metric metrics × IsYoung n now metric)
mem-retained n now metric metrics h = rw (retained-filter (pos n) now metrics) (
  λ kept.
      let found = (mem-filter (λ x. Bool-discrete (is_within (pos n) now x) true)).0 kept in
      (found.0, (is_within_iff n now metric h).0 found.1),
  λ found.
      (mem-filter (λ x. Bool-discrete (is_within (pos n) now x) true)).1
        (found.0, (is_within_iff n now metric h).1 found.1),
)

-- After `AgeOff` a pod holds a sample exactly if it held it before and the sample is younger than
-- the retention period, for every pod and for periods up to `max_minutes`.
pub age_off-samples :
    (n : ℕ) (now : Time) (m : StroomNodeMetricMap) (p : String) (metric : StroomNodeMetric)
    → n ≤ max_minutes
    → Mem metric (samples p (age_off (pos n) now m))
      ↔ (Mem metric (samples p m) × IsYoung n now metric)
unfolding age_off
age_off-samples n now m p metric h = elim (Option-cases (lookup p m.items)) [
  | inl unknown ↦ rw (lookup-map_values, unknown) (mem-retained n now metric [] h)
  | inr (metrics, known) ↦ rw (lookup-map_values, known) (mem-retained n now metric metrics h)
]

add_metric-items :
    (p : String) (metric : StroomNodeMetric) (m : StroomNodeMetricMap)
    → (add_metric p metric m).items ≡ insert p (samples p m ++ metric ∷ []) m.items
unfolding add_metric
add_metric-items p metric m = elim (Option-cases (lookup p m.items)) [
  | inl unknown ↦ rw (unknown, add_metric)
  | inr (metrics, known) ↦ rw (known, add_metric)
]

-- Recording a sample appends it to its pod's samples and leaves the other pods' alone.
pub add_metric-samples :
    (p q : String) (metric : StroomNodeMetric) (m : StroomNodeMetricMap)
    → samples q (add_metric p metric m)
      ≡ (if q == p then samples p m ++ metric ∷ [] else samples q m)
add_metric-samples p q metric m = rw (add_metric-items, lookup-insert) (ground arith)

-- Deleting a pod's data forgets its samples and its schedule, and leaves the other pods' alone.
pub delete_pod_data-lookup :
    (p q : String) (m : StroomNodeMetricMap)
    → (samples q (delete_pod_data p m) ≡ (if q == p then [] else samples q m))
      × (is_scale_scheduled q (delete_pod_data p m)
          ≡ (if q == p then false else is_scale_scheduled q m))
unfolding delete_pod_data is_scale_scheduled
delete_pod_data-lookup p q m =
    ground (arith, lookup-erase q p m.items, lookup-erase q p m.last_scaled)

-- Once a pod's adjustment is recorded at a time, the pod is due exactly when more than the
-- interval has passed since that time, and what is due of the other pods does not change, for
-- intervals of at most `max_minutes`.
pub should_scale-set_last_scaled :
    (p q : String) (n : ℕ) (last now : Time) (m : StroomNodeMetricMap)
    → n ≤ max_minutes
    → ((should_scale p (pos n) now (set_last_scaled p last m) ≡ true)
        ↔ (plus_minutes last n <ℤ now))
      × (q ≢ p
          → should_scale q (pos n) now (set_last_scaled p last m) ≡ should_scale q (pos n) now m)
unfolding should_scale set_last_scaled
should_scale-set_last_scaled p q n last now m h = (
  rw (lookup-insert_self p last m.last_scaled, should_scale) (after-add_iff n now last h),
  λ other. rw (lookup-insert_ne q p last m.last_scaled other, should_scale),
)
