-- ===== src/Metrics/Agreement.antt =====
-- internal/controller/stroomtaskautoscaler.go: the samples that `AgeOff` drops and the window that
-- `GetSlidingWindowMean` reads.
use stroom_k8s_operator.Base.{
  ℕ, suc, ◌*◌, ◌≤◌, String, ◌≡◌, refl, inl, inr, true, List, [], ◌∷◌, arith, Bool-cases,
  Option-cases, string_eq,
}
use stroom_k8s_operator.Base.Int.{ℤ, pos, ◌+ℤ◌, int64, +ℤ_parts}
use stroom_k8s_operator.Base.Dict.{lookup, lookup-map_values}
use stroom_k8s_operator.Kube.Meta.{Time, Quantity}
use stroom_k8s_operator.Metrics.{
  StroomNodeMetric, StroomNodeMetricMap, is_within, retained, age_off, window_mean,
  get_sliding_window_mean,
}
use stroom_k8s_operator.Metrics.Minutes.{max_minutes, is_within_iff}

-- A shorter age is the stronger condition.
is_within_mono :
    (n r : ℕ) (now : Time) (x : StroomNodeMetric)
    → n ≤ r
    → r ≤ max_minutes
    → is_within (pos n) now x ≡ true
    → is_within (pos r) now x ≡ true
is_within_mono n r now x le h w = (is_within_iff r now x h).1 (
    omega (
      arith,
      (is_within_iff n now x (omega arith)).0 w,
      +ℤ_parts x.time (pos (60000000000 * n)),
      +ℤ_parts x.time (pos (60000000000 * r)),
    ))

module _ (milli_value : Quantity → ℤ) where
  window_mean-retained :
      (n r : ℕ) (now : Time) (xs : List StroomNodeMetric) (s : ℤ) (c : ℕ)
      → n ≤ r
      → r ≤ max_minutes
      → window_mean milli_value (pos n) now (retained (pos r) now xs) s c
        ≡ window_mean milli_value (pos n) now xs s c
  unfolding window_mean retained
  window_mean-retained n r now [] s c le h = refl
  window_mean-retained n r now (x ∷ xs) s c le h = elim (Bool-cases (is_within (pos n) now x)) [
    | inl y ↦ elim (Option-cases x.cpu_usage) [
      | inl e ↦ rw (is_within_mono n r now x le h y, y, e)
      | inr (q, e) ↦
          rw (is_within_mono n r now x le h y, y, e)
            (window_mean-retained n r now xs (int64 (s +ℤ milli_value q)) (suc c) le h)
    ]
    | inr o ↦ elim (Bool-cases (is_within (pos r) now x)) [
      | inl k ↦ rw (k, window_mean, o) (window_mean-retained n r now xs s c le h)
      | inr d ↦ rw (d, o) (window_mean-retained n r now xs s c le h)
    ]
  ]

  -- Dropping the samples past a retention period of at most `max_minutes` changes no sliding
  -- window mean over a window that is no longer than that period.
  pub get_sliding_window_mean-age_off :
      (p : String) (n r : ℕ) (now : Time) (m : StroomNodeMetricMap)
      → n ≤ r
      → r ≤ max_minutes
      → get_sliding_window_mean milli_value p (pos n) now (age_off (pos r) now m)
        ≡ get_sliding_window_mean milli_value p (pos n) now m
  unfolding get_sliding_window_mean age_off
  get_sliding_window_mean-age_off p n r now m le h = elim (Option-cases (lookup p m.items)) [
    | inl unknown ↦ rw (lookup-map_values, unknown, get_sliding_window_mean)
    | inr (metrics, known) ↦
        rw (lookup-map_values, known, get_sliding_window_mean)
          (window_mean-retained n r now metrics (pos 0) 0 le h)
  ]
