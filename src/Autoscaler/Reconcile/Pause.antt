-- ===== src/Autoscaler/Reconcile/Pause.antt =====
-- internal/controller/stroomtaskautoscaler_controller.go: the pause after a pod was adjusted.
use stroom_k8s_operator.Base.{
  ℕ, ◌*◌, ◌≤◌, String, ◌≡◌, refl, ap, ◌≢◌, ◌∙◌, ◌⊎◌, inl, inr, true, false, none, some, arith,
  string_eq, Bool-cases, ◌==◌,
}
use stroom_k8s_operator.Base.Int.{pos, ◌<ℤ◌, +ℤ_parts}
use stroom_k8s_operator.Base.Dict.{lookup, lookup-insert_self, lookup-insert_ne, lookup-erase}
use stroom_k8s_operator.Kube.Meta.{Time, NamespacedName, to_string}
use stroom_k8s_operator.Kube.Env.{Env, Library}
use stroom_k8s_operator.Api.StroomCluster.{StroomCluster, NodeSet}
use stroom_k8s_operator.Api.Autoscaler.{StroomTaskAutoscaler}
use stroom_k8s_operator.Metrics.{
  StroomNodeMetric, StroomNodeMetricMap, should_scale, set_last_scaled, is_scale_scheduled,
  delete_pod_data,
}
use stroom_k8s_operator.Metrics.Minutes.{max_minutes, plus_minutes}
use stroom_k8s_operator.Autoscaler.Scale.{Scaled, returned, panicked}
use stroom_k8s_operator.Autoscaler.Reconcile.{schedule, after_scaling, record_metric}
use stroom_k8s_operator.Autoscaler.Reconcile.Samples.{IsSound}
use stroom_k8s_operator.Autoscaler.Reconcile.Schedule.{
  recorded, recorded-last_scaled-lookup, should_scale_early, record_metric_first, record_metric_due,
  record_metric_early,
}

-- A pod that is scheduled keeps its time.
schedule-lookup_kept :
    (key : String) (now last : Time) (m : StroomNodeMetricMap)
    → lookup key m.last_scaled ≡ some last
    → lookup key (schedule key now m).last_scaled ≡ some last
unfolding schedule is_scale_scheduled
schedule-lookup_kept key now last m h = rw (h, schedule, is_scale_scheduled) h

-- The other pods keep their times.
schedule-lookup_ne :
    (key other : String) (now : Time) (m : StroomNodeMetricMap)
    → key ≢ other
    → lookup key (schedule other now m).last_scaled ≡ lookup key m.last_scaled
unfolding schedule set_last_scaled
schedule-lookup_ne key other now m differ = elim (Bool-cases (is_scale_scheduled other m)) [
  | inl k ↦ rw k refl
  | inr k ↦ rw k (lookup-insert_ne key other now m.last_scaled differ)
]

after_scaling-lookup_ne :
    (key other : String) (now : Time) (m : StroomNodeMetricMap) (r : Scaled)
    → key ≢ other
    → lookup key (after_scaling other now m r).1.last_scaled ≡ lookup key m.last_scaled
unfolding after_scaling set_last_scaled
after_scaling-lookup_ne key other now m panicked differ = refl
after_scaling-lookup_ne key other now m (returned (some e)) differ =
    lookup-insert_ne key other now m.last_scaled differ
after_scaling-lookup_ne key other now m (returned none) differ =
    schedule-lookup_ne key other now (set_last_scaled other now m) differ
    ∙ lookup-insert_ne key other now m.last_scaled differ

-- The pod is not scheduled, or from a time that is not earlier.
abbrev Waits : String → Time → StroomNodeMetricMap → Type 0
Waits key first m =
    (lookup key m.last_scaled ≡ none)
    ⊎ ((last : Time) × (lookup key m.last_scaled ≡ some last) × (¬ (last <ℤ first)))

plus_minutes_late :
    (first last now : Time) (k : ℕ)
    → ¬ (last <ℤ first)
    → ¬ (plus_minutes first k <ℤ now)
    → ¬ (plus_minutes last k <ℤ now)
plus_minutes_late first last now k late early =
    ground (arith, +ℤ_parts first (pos (60000000000 * k)), +ℤ_parts last (pos (60000000000 * k)))

Waits-eq :
    (key : String) (first : Time) (m m' : StroomNodeMetricMap)
    → lookup key m'.last_scaled ≡ lookup key m.last_scaled
    → Waits key first m
    → Waits key first m'
Waits-eq key first m m' same (inl free) = inl (same ∙ free)
Waits-eq key first m m' same (inr (last, at_key, late)) = inr (last, same ∙ at_key, late)

delete_pod_data-Waits :
    (key other : String) (first : Time) (m : StroomNodeMetricMap)
    → Waits key first m
    → Waits key first (delete_pod_data other m)
unfolding delete_pod_data
delete_pod_data-Waits key other first m waits = elim (Bool-cases (key == other)) [
  | inl same ↦ inl (rw (lookup-erase key other m.last_scaled, same) refl)
  | inr differ ↦
      Waits-eq key first m (delete_pod_data other m)
        (rw (lookup-erase key other m.last_scaled, differ) refl) waits
]

module _ (E : Env) (L : Library) where
  record_metric-lookup_ne :
      (c : StroomCluster) (n : NodeSet) (scaler : StroomTaskAutoscaler) (other : NamespacedName)
      (now : Time) (y : StroomNodeMetric) (m : StroomNodeMetricMap) (w : E.World) (key : String)
      → key ≢ to_string other
      → lookup key (record_metric E L c n scaler other now y m w).0.1.last_scaled
        ≡ lookup key m.last_scaled
  unfolding record_metric
  record_metric-lookup_ne c n scaler other now y m w key differ =
      let name = to_string other in
      let m' = recorded name now y m in
      let before : lookup key m'.last_scaled ≡ lookup key m.last_scaled =
        recorded-last_scaled-lookup key name now y m in
      elim (Bool-cases (should_scale name scaler.spec.adjustment_interval_mins now m')) [
        | inl due ↦ rw due (after_scaling-lookup_ne key name now m' _ differ ∙ before)
        | inr wait ↦ rw wait (schedule-lookup_ne key name now m' differ ∙ before)
      ]

  module _ (c : StroomCluster) (n : NodeSet) (scaler : StroomTaskAutoscaler) (pod : NamespacedName)
      (k : ℕ) (interval : scaler.spec.adjustment_interval_mins ≡ pos k) (fits : k ≤ max_minutes)
      (first : Time) where
    -- What may happen to the metrics before more than the interval has passed since `first`:
    -- further samples of the pod, samples of other pods of any cluster, and that a pod's data is
    -- deleted, that pod's or another one's.
    pub data Later (m : StroomNodeMetricMap) : StroomNodeMetricMap → Type 0 where
      here : Later m m
      sample :
          (now : Time) (y : StroomNodeMetric) (w : E.World) (m' : StroomNodeMetricMap)
          → ¬ (now <ℤ first)
          → ¬ (plus_minutes first k <ℤ now)
          → Later m m'
          → Later m (record_metric E L c n scaler pod now y m' w).0.1
      other_sample :
          (c' : StroomCluster) (n' : NodeSet) (scaler' : StroomTaskAutoscaler)
          (other : NamespacedName) (now : Time) (y : StroomNodeMetric) (w : E.World)
          (m' : StroomNodeMetricMap)
          → to_string pod ≢ to_string other
          → Later m m'
          → Later m (record_metric E L c' n' scaler' other now y m' w).0.1
      removal :
          (gone : NamespacedName) (m' : StroomNodeMetricMap)
          → Later m m'
          → Later m (delete_pod_data (to_string gone) m')

    sample-Waits :
        (now : Time) (y : StroomNodeMetric) (w : E.World) (m : StroomNodeMetricMap)
        → ¬ (now <ℤ first)
        → ¬ (plus_minutes first k <ℤ now)
        → Waits (to_string pod) first m
        → Waits (to_string pod) first (record_metric E L c n scaler pod now y m w).0.1
    unfolding record_metric set_last_scaled
    sample-Waits now y w m late early waits =
        let key = to_string pod in
        let m' = recorded key now y m in
        let before = recorded-last_scaled-lookup key key now y m in
        elim waits [
          | inl free ↦ inr (
            now,
            rw (record_metric_first E L c n scaler pod now y m w free)
                (lookup-insert_self key now m'.last_scaled),
            late,
          )
          | inr (last, at_key, not_before) ↦
              let quiet : should_scale key scaler.spec.adjustment_interval_mins now m' ≡ false =
                rw interval (
                  should_scale_early key k last now m' fits (before ∙ at_key)
                    (plus_minutes_late first last now k not_before early)) in
              inr (
                last,
                rw quiet (schedule-lookup_kept key now last m' (before ∙ at_key)),
                not_before,
              )
        ]

    Later-Waits :
        {m m' : StroomNodeMetricMap}
        → Later m m'
        → Waits (to_string pod) first m
        → Waits (to_string pod) first m'
    Later-Waits here waits = waits
    Later-Waits (sample now y w m' late early reached) waits =
        sample-Waits now y w m' late early (Later-Waits reached waits)
    Later-Waits (other_sample c' n' scaler' other now y w m' differ reached) waits =
        Waits-eq (to_string pod) first m' (record_metric E L c' n' scaler' other now y m' w).0.1
          (record_metric-lookup_ne c' n' scaler' other now y m' w (to_string pod) differ)
          (Later-Waits reached waits)
    Later-Waits (removal gone m' reached) waits =
        delete_pod_data-Waits (to_string pod) (to_string gone) first m' (Later-Waits reached waits)

    quiet-Waits :
        (now : Time) (y : StroomNodeMetric) (w : E.World) (m : StroomNodeMetricMap)
        → ¬ (plus_minutes first k <ℤ now)
        → Waits (to_string pod) first m
        → (record_metric E L c n scaler pod now y m w).1 ≡ w
    quiet-Waits now y w m early (inl free) =
        ap (λ r. r.1) (record_metric_first E L c n scaler pod now y m w free)
    quiet-Waits now y w m early (inr (last, at_key, late)) =
        record_metric_early E L c n scaler pod k last now y m w interval fits at_key
          (plus_minutes_late first last now k late early)

    -- Once a pod was due and its adjustment was tried, also without success, no further sample of
    -- it changes the world until more than the interval has passed, whatever is recorded in
    -- between: any number of samples of the pod and of others, and the deletion of any pod's data.
    -- The pod's samples come at no earlier time and with the same autoscaler. The interval is at
    -- most `max_minutes`, and the samples that were stored at first and the one that is recorded
    -- first hold a usage.
    pub record_metric_pause :
        (now : Time) (x y : StroomNodeMetric) (m m' : StroomNodeMetricMap) (v w : E.World)
        → IsSound m
        → x.cpu_usage ≢ none
        → should_scale (to_string pod) scaler.spec.adjustment_interval_mins first m ≡ true
        → Later (record_metric E L c n scaler pod first x m v).0.1 m'
        → ¬ (plus_minutes first k <ℤ now)
        → (record_metric E L c n scaler pod now y m' w).1 ≡ w
    record_metric_pause now x y m m' v w s held due reached early = quiet-Waits now y w m' early (
        Later-Waits reached (
          inr (
            first,
            record_metric_due E L c n scaler pod first x m v s held due,
            λ h. omega (arith, h),
          )))
