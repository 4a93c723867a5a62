-- ===== src/Tests/Metrics.antt =====
-- The theorems on the CPU samples, at concrete samples.
use mathlib.Core.List.{Mem}
use stroom_k8s_operator.Base.{
  String, ◌≡◌, ◌↔◌, refl, some, [], ◌∷◌, string_eq, arith, length, ℕ, ◌≤◌,
}
use stroom_k8s_operator.Base.Int.{ℤ, pos, ◌+ℤ◌}
use stroom_k8s_operator.Base.Dict.{lookup}
use stroom_k8s_operator.Metrics.{
  StroomNodeMetric, StroomNodeMetricMap, mean, age_off, get_sliding_window_mean,
}
use stroom_k8s_operator.Metrics.Minutes.{IsYoung}
use stroom_k8s_operator.Metrics.Window.{
  is_young, young, total, average, get_sliding_window_mean-eq, get_sliding_window_mean_bounds,
}
use stroom_k8s_operator.Metrics.Retention.{samples, age_off-samples}
use stroom_k8s_operator.Metrics.Agreement.{get_sliding_window_mean-age_off}
use stroom_k8s_operator.Tests.Client.{library}

-- Two samples, and one that is two hours old at the time `now`.
abbrev sample : ℤ → StroomNodeMetric
sample t = record { time = t; cpu_usage = some "500m" }

abbrev pod_a : String
pod_a = "stroom/a"

abbrev pod_b : String
pod_b = "stroom/b"

abbrev now : ℤ
now = pos 7200000000000

abbrev metrics : StroomNodeMetricMap
metrics = record {
  items =
      (pod_a, sample (pos 1) ∷ sample (pos 7000000000000) ∷ sample (pos 7100000000000) ∷ []) ∷ [];
  last_scaled = (pod_a, pos 7100000000000) ∷ [];
}

age_off-samples_example :
    Mem (sample (pos 1)) (samples pod_a (age_off (pos 60) now metrics))
    ↔ (Mem (sample (pos 1)) (samples pod_a metrics) × IsYoung 60 now (sample (pos 1)))
age_off-samples_example = age_off-samples 60 now metrics pod_a (sample (pos 1)) (omega arith)

get_sliding_window_mean-age_off_example :
    get_sliding_window_mean library.milli_value pod_a (pos 10) now (age_off (pos 60) now metrics)
    ≡ get_sliding_window_mean library.milli_value pod_a (pos 10) now metrics
get_sliding_window_mean-age_off_example =
    get_sliding_window_mean-age_off library.milli_value pod_a 10 60 now metrics (omega arith)
      (omega arith)

get_sliding_window_mean-eq_example :
    get_sliding_window_mean library.milli_value pod_a (pos 10) now metrics
    ≡ average
        (total library.milli_value (young 10 now (samples pod_a metrics)))
        (length (young 10 now (samples pod_a metrics)))
unfolding lookup string_eq is_young ◌+ℤ◌
get_sliding_window_mean-eq_example =
    get_sliding_window_mean-eq library.milli_value pod_a 10 now metrics (omega arith)
      (refl, (refl, (refl, tt))) (omega arith)

get_sliding_window_mean_bounds_example :
    (v : ℕ) × (get_sliding_window_mean library.milli_value pod_a (pos 10) now metrics
      ≡ mean (pos v))
    × (400 ≤ v)
    × (v ≤ 600)
unfolding lookup string_eq is_young ◌+ℤ◌
get_sliding_window_mean_bounds_example =
    get_sliding_window_mean_bounds library.milli_value pod_a 10 400 600 now metrics (omega arith)
      (refl, (refl, (refl, tt))) (omega arith) (λ e. cc)
      ((omega arith, omega arith), ((omega arith, omega arith), tt))
