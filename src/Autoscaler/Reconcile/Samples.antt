-- ===== src/Autoscaler/Reconcile/Samples.antt =====
-- internal/controller/stroomtaskautoscaler_controller.go: the samples that `Reconcile` stores.
use stroom_k8s_operator.Base.{
  String, ◌≢◌, inl, inr, none, List, [], ◌∷◌, arith, All, All-append, ◌==◌, string_eq, Bool-cases,
  Option-cases,
}
use stroom_k8s_operator.Base.Int.{ℤ, pos, int64, ◌+ℤ◌}
use stroom_k8s_operator.Base.Dict.{lookup, lookup-map_values}
use stroom_k8s_operator.Kube.Meta.{Time, Quantity}
use stroom_k8s_operator.Metrics.{
  StroomNodeMetric, StroomNodeMetricMap, new_node_metric_map, is_within, retained, add_metric,
  age_off, set_last_scaled, delete_pod_data, is_scale_scheduled, nil_usage, window_mean,
  get_sliding_window_mean,
}
use stroom_k8s_operator.Metrics.Retention.{samples, add_metric-samples, delete_pod_data-lookup}
use stroom_k8s_operator.Autoscaler.Reconcile.{schedule}

-- Every stored sample holds a usage.
abbrev pub AllHeld : List StroomNodeMetric → Type 0
AllHeld = All (λ x. x.cpu_usage ≢ none)

pub record IsSound (m : StroomNodeMetricMap) : Type 0 where
  pub held : (p : String) → AllHeld (samples p m)

pub new_node_metric_map-IsSound : IsSound new_node_metric_map
unfolding lookup
new_node_metric_map-IsSound = record { held = λ p. tt }

pub retained-AllHeld :
    (mins : ℤ) (now : Time) (xs : List StroomNodeMetric)
    → AllHeld xs
    → AllHeld (retained mins now xs)
unfolding retained
retained-AllHeld mins now [] h = tt
retained-AllHeld mins now (x ∷ xs) h = ground (arith, retained-AllHeld mins now xs h.1)

pub add_metric-IsSound :
    (p : String) (x : StroomNodeMetric) (m : StroomNodeMetricMap)
    → x.cpu_usage ≢ none
    → IsSound m
    → IsSound (add_metric p x m)
add_metric-IsSound p x m held s = record {
  held = λ q. rw (add_metric-samples p q x m) (elim (Bool-cases (q == p)) [
    | inl same ↦ rw same (All-append _ (samples p m) (x ∷ []) (s.held p) (held, tt))
    | inr other ↦ rw other (s.held q)
  ]);
}

pub age_off-IsSound :
    (mins : ℤ) (now : Time) (m : StroomNodeMetricMap) → IsSound m → IsSound (age_off mins now m)
unfolding age_off
age_off-IsSound mins now m s = record {
  held = λ q. elim (Option-cases (lookup q m.items)) [
    | inl unknown ↦ rw (lookup-map_values, unknown) tt
    | inr (xs, known) ↦
        rw (lookup-map_values, known) (retained-AllHeld mins now xs (rw known at (s.held q)))
  ];
}

pub delete_pod_data-IsSound :
    (p : String) (m : StroomNodeMetricMap) → IsSound m → IsSound (delete_pod_data p m)
delete_pod_data-IsSound p m s = record {
  held = λ q.
      rw (delete_pod_data-lookup p q m).0
        (elim (Bool-cases (q == p)) [ inl same ↦ rw same tt | inr other ↦ rw other (s.held q) ]);
}

pub set_last_scaled-IsSound :
    (p : String) (t : Time) (m : StroomNodeMetricMap) → IsSound m → IsSound (set_last_scaled p t m)
unfolding set_last_scaled
set_last_scaled-IsSound p t m s = record { held = s.held }

pub schedule-IsSound :
    (p : String) (t : Time) (m : StroomNodeMetricMap) → IsSound m → IsSound (schedule p t m)
unfolding schedule
schedule-IsSound p t m s = elim (Bool-cases (is_scale_scheduled p m)) [
  | inl k ↦ rw k s
  | inr k ↦ rw k (set_last_scaled-IsSound p t m s)
]

module _ (milli_value : Quantity → ℤ) where
  window_mean-ne-nil_usage :
      (mins : ℤ) (now : Time) (xs : List StroomNodeMetric) (s : ℤ) (c : Prim.Native.Nat.ℕ)
      → AllHeld xs
      → window_mean milli_value mins now xs s c ≢ nil_usage
  unfolding window_mean
  window_mean-ne-nil_usage mins now [] s c h = ground arith
  window_mean-ne-nil_usage mins now (x ∷ xs) s c h = elim (Bool-cases (is_within mins now x)) [
    | inl y ↦ elim (Option-cases x.cpu_usage) [
      | inl e ↦ absurd (h.0 e)
      | inr (q, e) ↦
          rw (y, e)
            (window_mean-ne-nil_usage mins now xs (int64 (s +ℤ milli_value q))
              (Prim.Native.Nat.suc c) h.1)
    ]
    | inr o ↦ rw o (window_mean-ne-nil_usage mins now xs s c h.1)
  ]

  pub get_sliding_window_mean-ne-nil_usage :
      (p : String) (mins : ℤ) (now : Time) (m : StroomNodeMetricMap)
      → IsSound m
      → get_sliding_window_mean milli_value p mins now m ≢ nil_usage
  unfolding get_sliding_window_mean
  get_sliding_window_mean-ne-nil_usage p mins now m s = elim (Option-cases (lookup p m.items)) [
    | inl unknown ↦ rw (unknown, get_sliding_window_mean) (ground arith)
    | inr (xs, known) ↦
        rw (known, get_sliding_window_mean)
          (window_mean-ne-nil_usage mins now xs (pos 0) 0 (rw known at (s.held p)))
  ]
